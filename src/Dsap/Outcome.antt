-- ===== src/Dsap/Outcome.antt =====
-- What `dsap_data_tx_request` of lib/wpc/dsap.c leaves behind on every path.
use c_mesh_api.WpcInternal.{Answer, answered, exited}
use c_mesh_api.Dsap.Callbacks.{set_indication_cb}
use c_mesh_api.Dsap.Transmit.{
  Message, after_send, Sender, tx_confirm_result, dsap_data_tx_request, loop_end, send_fragments,
  send_single, single_end, LoopEnd, stopped, fill_tx_tt_request, fragment_loop,
  max_full_packet_size, sent, tx_options_of,
}
use c_mesh_api.Request.{Requests, Frames, wpc_int_send_request}
use c_mesh_api.Prelude.{
  ℕ, Bytes, Option, ◌≡◌, Option-cases, ℤ, inl, ◌⊎◌, inr, some, Bool-cases, pos, ◌==◌, arith, refl,
  ok, ltb, returned, subst, suc, ok-injective, ◌+◌, is_neg, ◌-◌, ◌/◌, if◌then◌else◌, ◌%◌, ◌^◌, zero,
  none,
}

module _ {C S : Type 0} (requests : Requests S) where
  -- The table stays as it is, or the result is 0 and the callback is put into it.
  abbrev TableKept : Message C → Sender C S → Option ℤ × Sender C S → Type 0
  TableKept m t r =
      (r.1.indication_sent_cb_table ≡ t.indication_sent_cb_table)
      ⊎ ((cb : C) × (r.0 ≡ some (pos 0))
          × (m.on_data_sent_cb ≡ some cb)
          × (r.1.indication_sent_cb_table
              ≡ (set_indication_cb cb m.pdu_id t.indication_sent_cb_table).1))

  after_send-TableKept :
      (m : Message C) (confirm : Bytes) (t t' : Sender C S)
      → t'.indication_sent_cb_table ≡ t.indication_sent_cb_table
      → TableKept m t (after_send requests m confirm t')
  unfolding after_send
  after_send-TableKept m confirm t t' e = elim (Option-cases m.on_data_sent_cb) [
    | inl n ↦ rw n (inl e)
    | inr (cb, n) ↦ elim (Bool-cases (tx_confirm_result confirm == 0)) [
      | inl z ↦ rw (n, z) (inr (cb, ground arith, refl, rw e refl))
      | inr z ↦ rw (n, z) (inl e)
    ]
  ]

  ok-TableKept :
      (m : Message C) (t : Sender C S) (x r : Option ℤ × Sender C S)
      → TableKept m t x
      → ok x ≡ ok r
      → TableKept m t r
  ok-TableKept m t x r h e = subst (TableKept m t) (ok-injective x r e) h

  -- How a packet in one frame ends.
  single_end-TableKept :
      (m : Message C) (t t' : Sender C S) (r : Option ℤ × Sender C S) (a : Answer)
      → t'.indication_sent_cb_table ≡ t.indication_sent_cb_table
      → single_end requests m t' a ≡ ok r
      → TableKept m t r
  unfolding single_end
  single_end-TableKept m t t' r exited h e = ok-TableKept m t (none, t') r (inl h) e
  single_end-TableKept m t t' r (answered res confirm) h e = elim (Bool-cases (is_neg res)) [
    | inl q ↦ ok-TableKept m t (some res, t') r (inl h) (rw q at e)
    | inr q ↦
        ok-TableKept m t (after_send requests m confirm t') r
          (after_send-TableKept m confirm t t' h) (rw q at e)
  ]

  loop_end-TableKept :
      (m : Message C) (t t' : Sender C S) (r : Option ℤ × Sender C S) (end : LoopEnd)
      → t'.indication_sent_cb_table ≡ t.indication_sent_cb_table
      → loop_end requests m t' end ≡ ok r
      → TableKept m t r
  unfolding loop_end
  loop_end-TableKept m t t' r (stopped res) h e = ok-TableKept m t (res, t') r (inl h) e
  loop_end-TableKept m t t' r (sent confirm) h e =
      ok-TableKept m t (after_send requests m confirm t') r (after_send-TableKept m confirm t t' h)
        e

  send_single-TableKept :
      (m : Message C) (frames : Frames) (t : Sender C S) (r : Option ℤ × Sender C S)
      → send_single requests m frames t ≡ ok r
      → TableKept m t r
  unfolding send_single single_end
  send_single-TableKept m frames t r e =
      let (request, _, e1) = returned (fill_tx_tt_request m (tx_options_of m) frames.request) _ e in
      let ((a, s), _, e2) =
        returned (wpc_int_send_request requests request frames.confirm t.below) _ e1 in
      single_end-TableKept m t (record t { below = s }) r a refl e2

  send_fragments-TableKept :
      (m : Message C) (k : ℕ) (frames : Frames) (t : Sender C S) (r : Option ℤ × Sender C S)
      → send_fragments requests m k frames t ≡ ok r
      → TableKept m t r
  unfolding send_fragments loop_end
  send_fragments-TableKept m zero frames t r e = cc
  send_fragments-TableKept m (suc k) frames t r e =
      let ((end, s), _, e1) =
        returned
          (fragment_loop requests m (suc k) ((m.len + suc k - 1) / suc k)
            (if m.len % suc k == 0 then suc k else m.len % suc k) (t.packet_id % 2 ^ 12)
            ((m.len + suc k - 1) / suc k) 0 frames t.below)
          _ e in
      loop_end-TableKept m t (record t { packet_id = (t.packet_id + 1) % 2 ^ 16; below = s }) r end
        refl e1

  -- Whatever the node answers, whenever `dsap_data_tx_request` returns, the table of callbacks is
  -- as before, or the result is 0 and the callback given has been handed to the table with the id
  -- of the packet.
  pub dsap_data_tx_request-TableKept :
      (m : Message C) (frames : Frames) (t : Sender C S) (r : Option ℤ × Sender C S)
      → dsap_data_tx_request requests m frames t ≡ ok r
      → TableKept m t r
  unfolding dsap_data_tx_request
  dsap_data_tx_request-TableKept m frames t r e =
      elim (Bool-cases (ltb max_full_packet_size m.len)) [
        | inl q ↦ ok-TableKept m t (some (pos 6), t) r (inl refl) (rw q at e)
        | inr q ↦ elim (Bool-cases (ltb (requests.get_mtu t.below) m.len)) [
          | inl l ↦
              send_fragments-TableKept m (requests.get_mtu t.below) frames t r (rw (q, l) at e)
          | inr l ↦ send_single-TableKept m frames t r (rw (q, l) at e)
        ]
      ]
