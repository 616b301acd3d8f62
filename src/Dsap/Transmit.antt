-- ===== src/Dsap/Transmit.antt =====
-- Sending of data in lib/wpc/dsap.c. `C` is the type of a callback for sent packets.
use c_mesh_api.Prelude.{none, some, true, false, is_neg}
use c_mesh_api.WpcInternal.{exited, answered, Answer}
use c_mesh_api.Reassembly.{copy_bytes}
use c_mesh_api.Dsap.Callbacks.{Entry, set_indication_cb}
use c_mesh_api.Request.{Requests, Frames, le16, wpc_int_send_request, fill_request, le32}
use c_mesh_api.Prelude.{
  ℕ, Bytes, List, Option, Bool, Outcome, get_or, ℤ, fault, if◌then◌else◌, ok, some, ◌++◌, ◌>>=◌,
  ltb, pos, suc, ◌∷◌, ◌*◌, ◌+◌, [], ◌%◌, ◌-◌, ◌/◌, ◌==◌, ◌^◌, drop, zero,
}

abbrev pub max_apdu_dsap_size : ℕ
max_apdu_dsap_size = 180

abbrev pub max_full_packet_size : ℕ
max_full_packet_size = 1500

abbrev pub dsap_frag_last_flag_mask : ℕ
dsap_frag_last_flag_mask = 0x8000

-- The size of `dsap_data_tx_tt_req_pl_t` and of `dsap_data_tx_frag_req_pl_t` before their `apdu`.
abbrev pub tx_tt_header : ℕ
tx_tt_header = 15

abbrev pub tx_frag_header : ℕ
tx_frag_header = 19

-- The arguments of `dsap_data_tx_request`.
pub record Message (C : Type 0) : Type 0 where
  pub buffer : Bytes
  pub len : ℕ
  pub pdu_id : ℕ
  pub dest_add : ℕ
  pub qos : ℕ
  pub src_ep : ℕ
  pub dest_ep : ℕ
  pub on_data_sent_cb : Option C
  pub buffering_delay : ℕ
  pub is_unack_csma_ca : Bool
  pub hop_limit : ℕ

-- `packet_id` of `dsap_data_tx_request`, the table of callbacks, and the state below.
pub record Sender (C S : Type 0) : Type 0 where
  pub packet_id : ℕ
  pub indication_sent_cb_table : List (Entry C)
  pub below : S

-- How the loop over the fragments ends: with a result for the caller or the end of the process, or
-- with all fragments sent and the last confirmation.
pub data LoopEnd : Type 0 where
  stopped : Option ℤ → LoopEnd
  sent : Bytes → LoopEnd

-- The result of a `dsap_data_tx_conf_pl_t`.
abbrev pub tx_confirm_result : Bytes → ℕ
tx_confirm_result confirm = get_or confirm 5 0

-- The first fields of the payload, up to `tx_options`, and `buffering_delay`.
abbrev pub tx_fields : {C : Type 0} → Message C → ℕ → Bytes
tx_fields m tx_options =
    le16 m.pdu_id
    ++ (m.src_ep ∷ le32 m.dest_add)
    ++ (m.dest_ep ∷ m.qos ∷ tx_options ∷ [])
    ++ le32 m.buffering_delay

module _ {C : Type 0} where
  -- The options: bit 0, bit 1, and the hop limit in the bits from 2 to 5.
  abbrev pub tx_options_of : Message C → ℕ
  tx_options_of m =
      elim m.on_data_sent_cb [ none ↦ 0 | some cb ↦ 1 ]
      + (if m.is_unack_csma_ca then 2 else 0)
      + m.hop_limit % 2 ^ 4 * 2 ^ 2

  -- `fill_tx_tt_request`, with the primitive id and the payload length.
  unfoldable pub fill_tx_tt_request : Message C → ℕ → Bytes → Outcome Bytes
  fill_tx_tt_request m tx_options request = do
    apdu ← copy_bytes m.buffer m.len
    if ltb max_apdu_dsap_size m.len
        then fault
        else fill_request 0x1F (tx_tt_header + m.len)
            (tx_fields m tx_options ++ (m.len % 2 ^ 8 ∷ []) ++ apdu) request

  -- `fill_tx_frag_request`, with the primitive id and the payload length; a fragment that is not
  -- the last one has bit 0 of the options cleared.
  unfoldable pub fill_tx_frag_request :
      Message C → ℕ → Bytes → ℕ → ℕ → ℕ → Bool → Bytes → Outcome Bytes
  fill_tx_frag_request m tx_options buffer len full_packet_id frag_offset last_frag request = do
    apdu ← copy_bytes buffer len
    if ltb max_apdu_dsap_size len
        then fault
        else fill_request 0x0F (tx_frag_header + len)
            (tx_fields m (if last_frag then tx_options else tx_options / 2 * 2)
              ++ le16 (full_packet_id % 2 ^ 12)
              ++ le16 (frag_offset % 2 ^ 12 + (if last_frag then dsap_frag_last_flag_mask else 0))
              ++ (len % 2 ^ 8 ∷ [])
              ++ apdu)
            request

  module _ {S : Type 0} (requests : Requests S) where
    -- The loop over the fragments: the fragments left, the index `i`, and the contents of the local
    -- frames.
    unfoldable pub fragment_loop :
        Message C → ℕ → ℕ → ℕ → ℕ → ℕ → ℕ → Frames → S → Outcome (LoopEnd × S)
    fragment_loop m max_data_pdu_size fragments last_size p_id zero i frames s =
        ok (sent frames.confirm, s)
    fragment_loop m max_data_pdu_size fragments last_size p_id (suc left) i frames s = do
      let offset = i * max_data_pdu_size % 2 ^ 16
      let last = i == fragments - 1
      request ←
          fill_tx_frag_request m (tx_options_of m) (drop offset m.buffer)
            (if last then last_size else max_data_pdu_size) p_id offset last frames.request
      (answer, s') ← wpc_int_send_request requests request frames.confirm s
      elim answer [
        | exited ↦ ok (stopped none, s')
        | answered res confirm ↦ elim (is_neg res) [
          | true ↦ ok (stopped (some res), s')
          | false ↦ elim (tx_confirm_result confirm == 0) [
            | false ↦ ok (stopped (some (pos (tx_confirm_result confirm))), s')
            | true ↦
                fragment_loop m max_data_pdu_size fragments last_size p_id left (i + 1)
                  (record { request = request; confirm = confirm }) s'
          ]
        ]
      ]

    -- What follows the sending: the callback is kept on success.
    unfoldable pub after_send : Message C → Bytes → Sender C S → Option ℤ × Sender C S
    after_send m confirm t = (
      some (pos (tx_confirm_result confirm)),
      elim m.on_data_sent_cb [
        | none ↦ t
        | some cb ↦
            if tx_confirm_result confirm == 0
            then record t {
              indication_sent_cb_table =
                  (set_indication_cb cb m.pdu_id t.indication_sent_cb_table).1;
            }
            else t
      ],
    )

    -- What is done with the answer to a packet in one frame.
    unfoldable pub single_end : Message C → Sender C S → Answer → Outcome (Option ℤ × Sender C S)
    single_end m t exited = ok (none, t)
    single_end m t (answered res confirm) =
        ok (if is_neg res then (some res, t) else after_send m confirm t)

    -- A packet in one frame.
    unfoldable pub send_single : Message C → Frames → Sender C S → Outcome (Option ℤ × Sender C S)
    send_single m frames t = do
      request ← fill_tx_tt_request m (tx_options_of m) frames.request
      (answer, s) ← wpc_int_send_request requests request frames.confirm t.below
      single_end m (record t { below = s }) answer

    -- What follows the loop over the fragments.
    unfoldable pub loop_end : Message C → Sender C S → LoopEnd → Outcome (Option ℤ × Sender C S)
    loop_end m t (stopped res) = ok (res, t)
    loop_end m t (sent confirm) = ok (after_send m confirm t)

    -- A packet in fragments of `max_data_pdu_size` bytes, which is a divisor.
    unfoldable pub send_fragments :
        Message C → ℕ → Frames → Sender C S → Outcome (Option ℤ × Sender C S)
    send_fragments m zero frames t = fault
    send_fragments m (suc k) frames t = do
      let max_data_pdu_size = suc k
      let fragments = (m.len + max_data_pdu_size - 1) / max_data_pdu_size
      let rest = m.len % max_data_pdu_size
      (end, s) ←
          fragment_loop m max_data_pdu_size fragments
            (if rest == 0 then max_data_pdu_size else rest) (t.packet_id % 2 ^ 12) fragments 0
            frames t.below
      loop_end m (record t { packet_id = (t.packet_id + 1) % 2 ^ 16; below = s }) end

    -- `dsap_data_tx_request`: the result, or `none` if the process ends.
    unfoldable pub dsap_data_tx_request :
        Message C → Frames → Sender C S → Outcome (Option ℤ × Sender C S)
    dsap_data_tx_request m frames t =
        if ltb max_full_packet_size m.len
        then ok (some (pos 6), t)
        else if ltb (requests.get_mtu t.below) m.len
        then send_fragments m (requests.get_mtu t.below) frames t
        else send_single m frames t
