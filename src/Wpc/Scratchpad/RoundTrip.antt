-- ===== src/Wpc/Scratchpad/RoundTrip.antt =====
-- A scratchpad that lib/wpc/wpc.c uploads and downloads again.
use c_mesh_api.Wpc.OneByte.{HasRoom}
use c_mesh_api.Wpc.Scratchpad.Upload.{upload_loop-stored}
use c_mesh_api.Wpc.Scratchpad.Download.{download_loop-recalled}
use c_mesh_api.Wpc.Errors.{app_res_ok}
use c_mesh_api.Msap.Scratchpad.{maximum_scratchpad_block_size, image_block_size}
use c_mesh_api.Wpc.Scratchpad.{wpc_upload_local_block_scratchpad, wpc_download_local_scratchpad}
use c_mesh_api.Wpc.Scratchpad.Blocks.{
  within, TellsBlockMax, WritesBlocks, ReadsBlocks, wpc_get_scratchpad_block_max-told,
}
use c_mesh_api.Request.{Requests, Frames, payload_offset}
use c_mesh_api.Prelude.{
  ℕ, some, true, false, Bytes, ok, if◌then◌else◌, ◌+◌, ◌-◌, get_or, ◌≡◌, ltb, Bool-cases, ◌<◌, inr,
  ◌≤◌, arith, inl, ◌^◌, ap, length, refl, ◌∙◌,
}

-- What is read at an index of the caller's array was there when it was sent.
sent_byte :
    (start len i : ℕ) (bytes : Bytes) (other memory : ℕ)
    → (if within 0 (len - 0) i
        then (if within (start + 0) (len - 0) (start + i)
            then get_or bytes (start + i - start) 0
            else memory)
        else other)
      ≡ (if ltb i len then get_or bytes i 0 else other)
sent_byte start len i bytes other memory = elim (Bool-cases (ltb i len)) [
  | inr q ↦ let outside : within 0 (len - 0) i ≡ false = ground arith in rw (outside, q) refl
  | inl q ↦
      let inside : within 0 (len - 0) i ≡ true = ground arith in
      let there : within (start + 0) (len - 0) (start + i) ≡ true = ground arith in
      let index : start + i - start ≡ i = omega arith in
      rw (inside, there, q) (ap (λ j. get_or bytes j 0) index)
]

module _ {S : Type 0} (requests : Requests S) (memory : S → ℕ → ℕ) where
  -- On a node that tells a maximal size of blocks from 1 to 112, stores the blocks that it gets and
  -- gives them back: with fuel for `len` blocks, `WPC_upload_local_block_scratchpad` of `len` bytes
  -- returns `APP_RES_OK`, and `WPC_download_local_scratchpad` from the same address after that
  -- returns `APP_RES_OK`, writes these bytes to the first `len` places of its array and leaves the
  -- other ones, provided that the addresses stay below 2 ^ 32, that both arrays have `len` bytes,
  -- and that the local frames have room.
  pub upload_local_block_scratchpad-download :
      (m len start fuel : ℕ) (bytes array : Bytes) (first first' : Frames)
      (frames frames' : ℕ → Frames) (s : S)
      → TellsBlockMax requests memory m
      → WritesBlocks requests memory
      → ReadsBlocks requests memory
      → 0 < m
      → m ≤ maximum_scratchpad_block_size
      → start + len ≤ 2 ^ 32
      → len < fuel
      → len ≤ length bytes
      → len ≤ length array
      → HasRoom first
      → HasRoom first'
      → ((i : ℕ) → payload_offset + image_block_size ≤ length (frames i).request)
      → ((i : ℕ)
          → (payload_offset + 5 ≤ length (frames' i).request)
            × (4 + maximum_scratchpad_block_size ≤ length (frames' i).confirm))
      → (s' : S) × (array' : Bytes) × (s'' : S) × (wpc_upload_local_block_scratchpad requests fuel
            len bytes start first frames s
          ≡ ok (some app_res_ok, s'))
        × (wpc_download_local_scratchpad requests fuel len array start first' frames' s'
            ≡ ok ((some app_res_ok, array'), s''))
        × (length array' ≡ length array)
        × ((i : ℕ) → get_or array' i 0 ≡ (if ltb i len then get_or bytes i 0 else get_or array i 0))
  unfolding wpc_upload_local_block_scratchpad wpc_download_local_scratchpad
  upload_local_block_scratchpad-download m len start fuel bytes array first first' frames frames' s
        tells writes reads big small end f whole whole' r r' room room' =
      let (s1, e1, kept1) = wpc_get_scratchpad_block_max-told requests memory m first s tells r in
      let (s2, e2, at2) =
        upload_loop-stored requests memory m len start frames big small end bytes whole fuel 0 s1
          writes room (omega arith) (omega arith) in
      let (s3, e3, kept3) =
        wpc_get_scratchpad_block_max-told requests memory m first' s2 tells r' in
      let (array', s4, e4, size, at4) =
        download_loop-recalled requests memory m len start frames' big small end fuel 0 array s3
          reads room' whole' (omega arith) (omega arith) in
      (
        s2,
        array',
        s4,
        rw e1 e2,
        rw e3 e4,
        size,
        λ i.
            at4 i
            ∙ ap (λ x. if within 0 (len - 0) i then x else get_or array i 0)
                (kept3 (start + i) ∙ at2 (start + i))
            ∙ sent_byte start len i bytes (get_or array i 0) (memory s1 (start + i)),
      )
