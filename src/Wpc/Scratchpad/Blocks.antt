-- ===== src/Wpc/Scratchpad/Blocks.antt =====
-- One block of the scratchpad, in lib/wpc/wpc.c and lib/wpc/msap.c, on a node that stores it.
use c_mesh_api.Wpc.OneByte.{HasRoom, read_frame, read_single_byte_msap-told}
use c_mesh_api.Wpc.Errors.{app_res_ok}
use c_mesh_api.Util.{uint16_encode_le}
use c_mesh_api.Wpc.Management.{wpc_get_scratchpad_block_max}
use c_mesh_api.Request.Frame.{frame_of, fill_request-frame_of}
use c_mesh_api.Reassembly.{copy_bytes}
use c_mesh_api.Attribute.{msap_attribute_read, confirm_attribute_length}
use c_mesh_api.Msap.Scratchpad.{
  msap_scratchpad_block_request, scratchpad_block_timeout_ms, maximum_scratchpad_block_size,
  image_block_size, msap_scratchpad_block_read_request,
}
use c_mesh_api.Request.{
  Requests, plain_request, Frames, confirm_result, get16, get32, payload_offset, le32,
  wpc_int_send_request, copying_request, read_if_done, on_confirm_copy, copy_field,
}
use c_mesh_api.WpcInternal.{answered, timeout_confirm_ms}
use c_mesh_api.Prelude.{
  ℕ, some, true, false, suc, pos, Bytes, ok, Bool, get_or, leb, ◌&&◌, ◌≡◌, ltb, ◌+◌, ◌≤◌,
  if◌then◌else◌, length, ◌<◌, ◌^◌, ◌-◌, take, ◌++◌, ◌∷◌, arith, length-take, refl, Bool-cases, ◌∙◌,
  ap, inr, inl, get_or-append_lt, drop, get_or-take, [], length-drop, get_or-drop, ◌>>=◌,
}

-- `addr ≤ a < addr + n`
abbrev pub within : ℕ → ℕ → ℕ → Bool
within addr n a = leb addr a && ltb a (addr + n)

-- What the node stores at the address `a`, read from the frame and from the caller's bytes.
stored_byte :
    (primitive size addr n : ℕ) (bytes request : Bytes) (other a : ℕ)
    → n ≤ length bytes
    → (if within addr n a
        then get_or
            (frame_of primitive size (le32 addr ++ (n ∷ take n bytes)) request)
            (8 + (a - addr))
            0
        else other)
      ≡ (if within addr n a then get_or bytes (a - addr) 0 else other)
stored_byte primitive size addr n bytes request other a room = elim (Bool-cases (within addr n a)) [
  | inr q ↦ rw q refl
  | inl q ↦
      let before : a - addr < n = ground arith in
      let len : length (take n bytes) ≡ n = omega (arith, length-take n bytes) in
      let j : ℕ = a - addr in
      let behind : 8 + j ≡ suc (suc (suc (suc (suc (suc (suc (suc j))))))) = omega arith in
      let frame : Bytes = frame_of primitive size (le32 addr ++ (n ∷ take n bytes)) request in
      rw q (
        ap (λ i. get_or frame i 0) behind
        ∙ (get_or-append_lt (take n bytes)
              (drop (length (le32 addr ++ (n ∷ take n bytes))) (drop payload_offset request)) j 0
              (omega arith)
            ∙ get_or-take n j bytes 0 before))
]

module _ {S : Type 0} (requests : Requests S) (memory : S → ℕ → ℕ) where
  -- The node answers a block with result 0 or 1 and has stored its bytes at its address then.
  abbrev pub WritesBlocks : Type 0
  WritesBlocks =
      (request confirm : Bytes) (s : S)
      → get_or request 0 0 ≡ 0x18
      → (reply : Bytes) × (s' : S) × (requests.send_request_timeout request confirm
            scratchpad_block_timeout_ms s
          ≡ ok (answered (pos 0) reply, s'))
        × (confirm_result reply ≤ 1)
        × ((a : ℕ)
            → memory s' a ≡ (
                if within (get32 request 3) (get_or request 7 0) a
                then get_or request (8 + (a - get32 request 3)) 0
                else memory s a))

  -- The node answers a request for a block with result 0 and the bytes at its address, if they fit.
  abbrev pub ReadsBlocks : Type 0
  ReadsBlocks =
      (request confirm : Bytes) (s : S)
      → get_or request 0 0 ≡ 0x28
      → 4 + get_or request 7 0 ≤ length confirm
      → (reply : Bytes) × (s' : S) × (requests.send_request_timeout request confirm
            timeout_confirm_ms s
          ≡ ok (answered (pos 0) reply, s'))
        × (confirm_result reply ≡ 0)
        × ((j : ℕ)
            → j < get_or request 7 0
            → get_or reply (4 + j) 0 ≡ memory s (get32 request 3 + j))
        × ((a : ℕ) → memory s' a ≡ memory s a)

  -- The node answers a read of the attribute of the maximal size of blocks with result 0 and `m`.
  abbrev pub TellsBlockMax : ℕ → Type 0
  TellsBlockMax m =
      (request confirm : Bytes) (s : S)
      → get_or request 0 0 ≡ msap_attribute_read
      → get16 request 3 ≡ 12
      → 8 ≤ length confirm
      → (reply : Bytes) × (s' : S) × (requests.send_request_timeout request confirm
            timeout_confirm_ms s
          ≡ ok (answered (pos 0) reply, s'))
        × (confirm_result reply ≡ 0)
        × (confirm_attribute_length reply ≡ 1)
        × (get_or reply 7 0 ≡ m)
        × ((a : ℕ) → memory s' a ≡ memory s a)

  pub block_request-stored :
      (addr n : ℕ) (bytes : Bytes) (frames : Frames) (s : S)
      → WritesBlocks
      → addr < 2 ^ 32
      → n ≤ maximum_scratchpad_block_size
      → n ≤ length bytes
      → payload_offset + image_block_size ≤ length frames.request
      → (r : ℕ) × (s' : S) × (msap_scratchpad_block_request requests addr n bytes frames s
          ≡ ok (some (pos r), s'))
        × (r ≤ 1)
        × ((a : ℕ)
            → memory s' a ≡ (if within addr n a then get_or bytes (a - addr) 0 else memory s a))
  unfolding msap_scratchpad_block_request plain_request copy_bytes
  block_request-stored addr n bytes frames s writes small fits room space =
      let block : Bytes = take n bytes in
      let payload : Bytes = le32 addr ++ (n ∷ block) in
      let size : ℕ = image_block_size - (maximum_scratchpad_block_size - n) in
      let len : length block ≡ n = omega (arith, length-take n bytes) in
      let q : ltb maximum_scratchpad_block_size n ≡ false = ground arith in
      let enough : leb n (length bytes) ≡ true = ground arith in
      let frame : Bytes = frame_of 0x18 size payload frames.request in
      let (reply, s', e, r, stored) = writes frame frames.confirm s refl in
      let at : get32 frame 3 ≡ addr = omega arith in
      (
        confirm_result reply,
        s',
        rw (q, enough, fill_request-frame_of 0x18 size payload frames.request (omega arith))
            (rw e refl),
        r,
        λ a.
            stored a
            ∙ ap (λ x. if within x n a then get_or frame (8 + (a - x)) 0 else memory s a) at
            ∙ stored_byte 0x18 size addr n bytes frames.request (memory s a) a room,
      )

  -- The bytes that a block read gives are those of the node's memory.
  pub block_read_request-recalled :
      (addr n capacity : ℕ) (frames : Frames) (s : S)
      → ReadsBlocks
      → addr < 2 ^ 32
      → n ≤ maximum_scratchpad_block_size
      → n ≤ capacity
      → payload_offset + 5 ≤ length frames.request
      → 4 + maximum_scratchpad_block_size ≤ length frames.confirm
      → (block : Bytes) × (s' : S) × (msap_scratchpad_block_read_request requests addr n capacity
            frames s
          ≡ ok ((some (pos 0), some block), s'))
        × (length block ≡ n)
        × ((j : ℕ) → j < n → get_or block j 0 ≡ memory s (addr + j))
        × ((a : ℕ) → memory s' a ≡ memory s a)
  unfolding msap_scratchpad_block_read_request copying_request wpc_int_send_request read_if_done
      on_confirm_copy copy_field
  block_read_request-recalled addr n capacity frames s reads small fits enough space fit =
      let payload : Bytes = le32 addr ++ (n ∷ []) in
      let q : ltb maximum_scratchpad_block_size n ≡ false = ground arith in
      let frame : Bytes = frame_of 0x28 5 payload frames.request in
      let (reply, s', e, z, bytes, kept) = reads frame frames.confirm s refl (omega arith) in
      let at : get32 frame 3 ≡ addr = omega arith in
      let len : length reply ≡ length frames.confirm =
        (requests.answer frame frames.confirm timeout_confirm_ms s s' (pos 0) reply e).1 in
      let whole : leb n maximum_scratchpad_block_size
            && leb n capacity
            && leb (4 + n) (length reply)
          ≡ true =
        ground arith in
      (
        take n (drop 4 reply),
        s',
        rw (q, fill_request-frame_of 0x28 5 payload frames.request (omega arith))
            (rw (e, ◌>>=◌) (rw (z, whole) refl)),
        omega (arith, length-take n (drop 4 reply), length-drop 4 reply),
        λ j h.
            get_or-take n j (drop 4 reply) 0 h
            ∙ get_or-drop 4 j reply 0
            ∙ bytes j h
            ∙ ap (λ x. memory s (x + j)) at,
        kept,
      )

  pub wpc_get_scratchpad_block_max-told :
      (m : ℕ) (frames : Frames) (s : S)
      → TellsBlockMax m
      → HasRoom frames
      → (s' : S) × (wpc_get_scratchpad_block_max requests frames s
          ≡ ok ((some app_res_ok, some m), s'))
        × ((a : ℕ) → memory s' a ≡ memory s a)
  unfolding wpc_get_scratchpad_block_max uint16_encode_le
  wpc_get_scratchpad_block_max-told m frames s tells (r, c) =
      let frame : Bytes = read_frame requests msap_attribute_read 12 frames in
      let (reply, s', e, z, l, v, kept) = tells frame frames.confirm s refl refl c in
      (s', read_single_byte_msap-told requests 12 m frames s s' reply (r, c) e z l v, kept)
