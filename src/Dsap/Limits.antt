-- ===== src/Dsap/Limits.antt =====
-- Lengths that lib/wpc/dsap.c takes from the node without a test.
use c_mesh_api.Reassembly.Message.{granted}
use c_mesh_api.Reassembly.Containers.{UtList, UtHash}
use c_mesh_api.Request.{Requests, Frames}
use c_mesh_api.Reassembly.{
  reassembly_add_fragment, get_or_create, add_fragment_to_full_packet, copy_bytes, InternalFragment,
  FullPacket, key_of, Fragment, State,
}
use c_mesh_api.Dsap.Transmit.{
  dsap_data_tx_request, send_single, send_fragments, fill_tx_tt_request, Message, Sender,
  max_full_packet_size, max_apdu_dsap_size,
}
use c_mesh_api.Dsap.Receive.{dsap_data_rx_frag_indication_handler, fragment_of, GcClock, Receiver}
use c_mesh_api.Prelude.{
  ℕ, Bytes, ◌≤◌, ◌≡◌, ◌<◌, none, ◌⊎◌, length, fault, ◌+◌, get_or, inl, ltb, false, leb, arith,
  length-drop, true, inr, subst, All, Bool-cases, refl, ◌≢◌, sym,
}

-- A first fragment that is shorter than it says.
reassembly_add_fragment-fault :
    (ll : UtList InternalFragment) (hh : UtHash (FullPacket ll.Head)) (now : ℕ) (frag : Fragment)
    (s : State hh.Table)
    → hh.find (key_of frag) s.packets ≡ none
    → length frag.bytes < frag.size
    → reassembly_add_fragment ll hh granted now frag s ≡ fault
unfolding reassembly_add_fragment get_or_create add_fragment_to_full_packet copy_bytes
reassembly_add_fragment-fault ll hh now frag s new long =
    let short : leb frag.size (length frag.bytes) ≡ false = ground arith in
    let first : ll.search_scalar (λ f. f.offset) frag.offset ll.null ≡ none =
      ll.search_finds_none (λ f. f.offset) frag.offset ll.null
        (subst (All (λ g. g.offset ≢ frag.offset)) (sym ll.elements-null) tt) in
    rw (reassembly_add_fragment, get_or_create, new)
      (rw (add_fragment_to_full_packet, first) (rw (copy_bytes, short) refl))

-- A first fragment of a packet, with memory for it, whose `apdu_length` is larger than what the
-- frame holds from its `apdu` on makes the handler read past the end of the frame.
pub dsap_data_rx_frag_indication_handler_too_long :
    {C D : Type 0} (ll : UtList InternalFragment) (hh : UtHash (FullPacket ll.Head)) (now : ℕ)
    (clock : GcClock) (frame : Bytes) (timestamp_ms : ℕ) (t : Receiver C D hh.Table)
    → hh.find (key_of (fragment_of frame)) t.reassembly.packets ≡ none
    → 24 ≤ length frame
    → length frame < 24 + get_or frame 23 0
    → dsap_data_rx_frag_indication_handler ll hh granted now clock frame timestamp_ms t ≡ fault
unfolding dsap_data_rx_frag_indication_handler fragment_of
dsap_data_rx_frag_indication_handler_too_long ll hh now clock frame timestamp_ms t new room long =
    rw
      (reassembly_add_fragment-fault ll hh now (fragment_of frame) t.reassembly new
        (omega (arith, length-drop 24 frame)))
      refl

-- A transmission unit of 0 is a division by zero for every message with a byte, and one that is
-- larger than a frame's 180 bytes lets a longer message through to the copy into the frame.
pub dsap_data_tx_request_bad_unit :
    {C S : Type 0} (requests : Requests S) (m : Message C) (frames : Frames) (t : Sender C S)
    → m.len ≤ max_full_packet_size
    → ((requests.get_mtu t.below ≡ 0) × (0 < m.len))
      ⊎ ((max_apdu_dsap_size < m.len) × (m.len ≤ requests.get_mtu t.below))
    → dsap_data_tx_request requests m frames t ≡ fault
unfolding dsap_data_tx_request send_single send_fragments fill_tx_tt_request copy_bytes
dsap_data_tx_request_bad_unit requests m frames t c (inl (z, p)) =
    let small : ltb max_full_packet_size m.len ≡ false = ground arith in
    let long : ltb 0 m.len ≡ true = ground arith in rw (small, z) (rw long refl)
dsap_data_tx_request_bad_unit requests m frames t c (inr (a, b)) =
    let small : ltb max_full_packet_size m.len ≡ false = ground arith in
    let fits : ltb (requests.get_mtu t.below) m.len ≡ false = ground arith in
    let over : ltb max_apdu_dsap_size m.len ≡ true = ground arith in
    elim (Bool-cases (leb m.len (length m.buffer))) [
      | inl q ↦ rw (small, fits) (rw (q, over) refl)
      | inr q ↦ rw (small, fits) (rw q refl)
    ]
