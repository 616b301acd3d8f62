-- ===== src/Dsap/RoundTrip.antt =====
-- The frames of a packet that lib/wpc/dsap.c sends in fragments.
use c_mesh_api.Dsap.Callbacks.{set_indication_cb}
use c_mesh_api.Dsap.Fragment.{frame_size}
use c_mesh_api.Dsap.Division.{last_size_of, fragments_of, last_size_of_bounds}
use c_mesh_api.Dsap.Chunks.{Chunks}
use c_mesh_api.Dsap.Transmit.{
  Message, after_send, send_fragments, Sender, tx_confirm_result, max_apdu_dsap_size,
  max_full_packet_size, dsap_data_tx_request, loop_end,
}
use c_mesh_api.Dsap.Fragments.{Accepts, Sent, fragment_loop-Chunks, bytes_left_eq}
use c_mesh_api.Request.{Requests, Frames}
use c_mesh_api.Prelude.{
  ℕ, Bytes, List, ◌∷◌, ◌≡◌, ◌++◌, [], ok, suc, ◌+◌, ap, some, ◌-◌, ◌≤◌, pos, refl, ◌/◌,
  Option-cases, ◌<◌, inl, ◌%◌, inr, length, ◌^◌, ◌∙◌, arith, subst, true, zero, ltb, false,
}

-- A list with an element has a last one.
pub snoc_view :
    {A : Type 0} (x : A) (xs : List A)
    → (front : List A) × (end : A) × (x ∷ xs ≡ front ++ (end ∷ []))
snoc_view x [] = ([], x, refl)
snoc_view x (y ∷ ys) = let (front, end, e) = snoc_view y ys in (x ∷ front, end, ap (◌∷◌ x) e)

module _ {C S : Type 0} (requests : Requests S) (log : S → List Bytes)
    (accepts : Accepts requests log) where
  after_send-below :
      (m : Message C) (confirm : Bytes) (t : Sender C S)
      → tx_confirm_result confirm ≡ 0
      → (t' : Sender C S) × (after_send requests m confirm t ≡ (some (pos 0), t'))
        × (t'.below ≡ t.below)
  unfolding after_send
  after_send-below m confirm t z = elim (Option-cases m.on_data_sent_cb) [
    | inl e ↦ (t, rw (z, e) refl, refl)
    | inr (cb, e) ↦ (
      record t {
        indication_sent_cb_table = (set_indication_cb cb m.pdu_id t.indication_sent_cb_table).1;
      },
      rw (z, e) (ground arith),
      refl,
    )
  ]

  -- The result, and the frames sent.
  abbrev SentAll : ℕ → ℕ → Message C → Frames → Sender C S → Type 0
  SentAll src k m frames t =
      (frames_sent : List Bytes) × (t' : Sender C S) × (send_fragments requests m k frames t
        ≡ ok (some (pos 0), t'))
      × (log t'.below ≡ log t.below ++ frames_sent)
      × Chunks m.buffer src (t.packet_id % 2 ^ 12) 0 frames_sent

  -- What follows the loop.
  SentAll-Sent :
      (src k n last_size : ℕ) (m : Message C) (frames : Frames) (t : Sender C S)
      → (m.len + suc k - 1) / suc k ≡ n
      → last_size_of m.len (suc k) ≡ last_size
      → Sent requests log accepts m src
          (suc k)
          last_size
          (t.packet_id % 2 ^ 12)
          n
          n
          0
          frames
          t.below
      → SentAll src (suc k) m frames t
  unfolding send_fragments loop_end
  SentAll-Sent src k n last_size m frames t en el (fs, s', confirm, e, z, lg, chunks) =
      let after : Sender C S = record t { packet_id = (t.packet_id + 1) % 2 ^ 16; below = s' } in
      let (t', e', b) = after_send-below m confirm after z in
      (
        fs,
        t',
        rw (en, el, e) (ap ok e'),
        ap log b ∙ lg,
        subst (λ x. Chunks m.buffer src (t.packet_id % 2 ^ 12) x fs) (omega arith) chunks,
      )

  send_fragments-SentAll :
      (src k : ℕ) (m : Message C) (frames : Frames) (t : Sender C S)
      → suc k ≤ max_apdu_dsap_size
      → suc k < m.len
      → m.len ≤ max_full_packet_size
      → length m.buffer ≡ m.len
      → frame_size ≤ length frames.request
      → SentAll src (suc k) m frames t
  send_fragments-SentAll src k m frames t a b c e r =
      let (left, n, total) = fragments_of m.len k b in
      let (p, q) = last_size_of_bounds m.len k in
      SentAll-Sent src k (suc left) (last_size_of m.len (suc k)) m frames t n refl (
        fragment_loop-Chunks requests log accepts m src (suc k) (last_size_of m.len (suc k))
          (t.packet_id % 2 ^ 12) (suc left) left 0 frames t.below (omega arith) p q a
          (omega (arith, bytes_left_eq (suc k) (last_size_of m.len (suc k)) left)) (omega arith)
          (omega arith) r)

suc_of : (n : ℕ) → 0 < n → (k : ℕ) × (n ≡ suc k)
suc_of zero h = absurd (omega arith)
suc_of (suc k) h = (k, refl)

-- The frames that are sent cut the message.
pub dsap_data_tx_request-Chunks :
    {C S : Type 0} (requests : Requests S) (log : S → List Bytes) (m : Message C) (frames : Frames)
    (t : Sender C S) (src : ℕ)
    → Accepts requests log
    → 0 < requests.get_mtu t.below
    → requests.get_mtu t.below ≤ max_apdu_dsap_size
    → requests.get_mtu t.below < m.len
    → m.len ≤ max_full_packet_size
    → length m.buffer ≡ m.len
    → frame_size ≤ length frames.request
    → (frames_sent : List Bytes) × (t' : Sender C S) × (dsap_data_tx_request requests m frames t
        ≡ ok (some (pos 0), t'))
      × (log t'.below ≡ log t.below ++ frames_sent)
      × Chunks m.buffer src (t.packet_id % 2 ^ 12) 0 frames_sent
unfolding dsap_data_tx_request
dsap_data_tx_request-Chunks requests log m frames t src accepts p a b c e r =
    let (k, unit) = suc_of (requests.get_mtu t.below) p in
    let (fs, t', sent', lg, chunks) =
      send_fragments-SentAll requests log accepts src k m frames t (omega arith) (omega arith) c e
        r in
    let small : ltb max_full_packet_size m.len ≡ false = ground arith in
    let long : ltb (suc k) m.len ≡ true = ground arith in
    (fs, t', rw (small, unit) (rw long sent'), lg, chunks)
