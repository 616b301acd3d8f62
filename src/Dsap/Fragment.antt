-- ===== src/Dsap/Fragment.antt =====
-- The frame of one fragment that lib/wpc/dsap.c sends, and the fragment that it stands for.
use c_mesh_api.Request.Frame.{frame_of, fill_request-frame_of, length-frame_of, take-append_eq}
use c_mesh_api.Request.{get16, le16, payload_offset}
use c_mesh_api.Dsap.Transmit.{
  fill_tx_frag_request, tx_frag_header, Message, max_apdu_dsap_size, dsap_frag_last_flag_mask,
  tx_fields,
}
use c_mesh_api.Reassembly.{Fragment, copy_bytes}
use c_mesh_api.Prelude.{
  ℕ, Bytes, length, ◌+◌, ◌≡◌, take, ◌%◌, Bool, ◌++◌, ◌^◌, get_or, ◌≤◌, ◌/◌, ◌<◌, ok, leb, ◌==◌,
  drop, true, arith, ltb, false, length-take, if◌then◌else◌, ◌*◌, ◌∷◌, [], length-append,
}

-- What the fields of a frame with a `dsap_data_tx_frag_req_pl_t` say, sent by the node `src`.
abbrev pub fragment_sent : ℕ → Bytes → Fragment
fragment_sent src frame =
    let fragment_offset_flag = get16 frame 19 in
    record {
      src_add = src;
      packet_id = get16 frame 17 % 2 ^ 12;
      size = get_or frame 21 0;
      offset = fragment_offset_flag % 2 ^ 12;
      last_fragment = fragment_offset_flag / dsap_frag_last_flag_mask % 2 == 1;
      bytes = drop 22 frame;
    }

abbrev pub frame_size : ℕ
frame_size = 3 + tx_frag_header + max_apdu_dsap_size

-- The frame of a fragment has the size of the request, and its fields are those given.
pub fill_tx_frag_request-fragment :
    {C : Type 0} (m : Message C) (src tx_options : ℕ) (buffer : Bytes)
    (size full_packet_id frag_offset : ℕ) (last_frag : Bool) (request : Bytes)
    → size ≤ length buffer
    → size ≤ max_apdu_dsap_size
    → full_packet_id < 2 ^ 12
    → frag_offset < 2 ^ 12
    → frame_size ≤ length request
    → (frame : Bytes) × (fill_tx_frag_request m tx_options buffer size full_packet_id frag_offset
          last_frag request
        ≡ ok frame)
      × (length frame ≡ length request)
      × ((fragment_sent src frame).packet_id ≡ full_packet_id)
      × ((fragment_sent src frame).size ≡ size)
      × ((fragment_sent src frame).offset ≡ frag_offset)
      × ((fragment_sent src frame).last_fragment ≡ last_frag)
      × (size ≤ length (fragment_sent src frame).bytes)
      × (take size (fragment_sent src frame).bytes ≡ take size buffer)
unfolding fill_tx_frag_request copy_bytes
fill_tx_frag_request-fragment m src tx_options buffer size full_packet_id frag_offset last_frag
      request h k p o r =
    let apdu : Bytes = take size buffer in
    let fits : leb size (length buffer) ≡ true = ground arith in
    let small : ltb max_apdu_dsap_size size ≡ false = ground arith in
    let len : length apdu ≡ size = omega (arith, length-take size buffer) in
    let flag : ℕ = if last_frag then dsap_frag_last_flag_mask else 0 in
    let payload : Bytes =
      tx_fields m (if last_frag then tx_options else tx_options / 2 * 2)
      ++ le16 (full_packet_id % 2 ^ 12)
      ++ le16 (frag_offset % 2 ^ 12 + flag)
      ++ (size % 2 ^ 8 ∷ [])
      ++ apdu in
    let n : ℕ = tx_frag_header + size in
    let room : payload_offset + length payload ≤ length request = omega arith in
    (
      frame_of 0x0F n payload request,
      rw (fits, small) (fill_request-frame_of 0x0F n payload request room),
      length-frame_of 0x0F n payload request room,
      omega arith,
      omega arith,
      ground arith,
      ground arith,
      omega (arith, length-append apdu (drop (length payload) (drop payload_offset request))),
      take-append_eq size apdu (drop (length payload) (drop payload_offset request)) len,
    )
