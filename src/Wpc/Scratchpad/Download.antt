-- ===== src/Wpc/Scratchpad/Download.antt =====
-- The loop of WPC_download_local_scratchpad of lib/wpc/wpc.c.
use c_mesh_api.Wpc.Scratchpad.Addresses.{
  address_lem, block_size_of_bounds, downloaded_byte, overlaid_byte,
}
use c_mesh_api.Wpc.Errors.{app_res_ok}
use c_mesh_api.Wpc.Scratchpad.Blocks.{within, ReadsBlocks, block_read_request-recalled}
use c_mesh_api.Msap.Scratchpad.{maximum_scratchpad_block_size, msap_scratchpad_block_read_request}
use c_mesh_api.Wpc.Scratchpad.{block_size_of, download_loop}
use c_mesh_api.Request.{Requests, Frames, payload_offset, write_at}
use c_mesh_api.Prelude.{
  ℕ, some, true, false, zero, suc, pos, Bytes, ok, ◌+◌, ◌<◌, ◌^◌, ◌≤◌, if◌then◌else◌, length, ◌≡◌,
  arith, ◌-◌, ◌∙◌, ltb, get_or, Bool-cases, inr, inl, refl, ◌>>=◌, overlay, leb, length-overlay,
}

module _ {S : Type 0} (requests : Requests S) (memory : S → ℕ → ℕ) (m len : ℕ) (start : ℕ)
    (frames : ℕ → Frames) (big : 0 < m) (small : m ≤ maximum_scratchpad_block_size)
    (end : start + len ≤ 2 ^ 32) where
  download_loop-next :
      (fuel loaded : ℕ) (bytes bytes' block : Bytes) (s s' : S)
      → loaded < len
      → msap_scratchpad_block_read_request requests
          (start + loaded)
          (block_size_of m (len - loaded))
          (length bytes - loaded)
          (frames fuel)
          s
        ≡ ok ((some (pos 0), some block), s')
      → write_at loaded block bytes ≡ ok bytes'
      → download_loop requests (suc fuel) m len start frames loaded bytes s
        ≡ download_loop requests fuel m len start frames
            (loaded + block_size_of m (len - loaded))
            bytes'
            s'
  unfolding download_loop
  download_loop-next fuel loaded bytes bytes' block s s' h e w =
      let q : ltb loaded len ≡ true = ground arith in
      rw (download_loop, q, address_lem start len loaded end h, e, ◌>>=◌, w) refl

  pub download_loop-recalled :
      (fuel loaded : ℕ) (bytes : Bytes) (s : S)
      → ReadsBlocks requests memory
      → ((i : ℕ)
          → (payload_offset + 5 ≤ length (frames i).request)
            × (4 + maximum_scratchpad_block_size ≤ length (frames i).confirm))
      → len ≤ length bytes
      → len - loaded < fuel
      → loaded ≤ len
      → (bytes' : Bytes) × (s' : S) × (download_loop requests fuel m len start frames loaded bytes s
          ≡ ok ((some app_res_ok, bytes'), s'))
        × (length bytes' ≡ length bytes)
        × ((i : ℕ)
            → get_or bytes' i 0
              ≡ (if within loaded (len - loaded) i then memory s (start + i) else get_or bytes i 0))
  unfolding download_loop write_at
  download_loop-recalled zero loaded bytes s reads room whole f l = absurd (omega arith)
  download_loop-recalled (suc fuel) loaded bytes s reads room whole f l =
      elim (Bool-cases (ltb loaded len)) [
        | inr q ↦ (
          bytes,
          s,
          rw (download_loop, q) refl,
          refl,
          λ i.
              (let none_left : within loaded (len - loaded) i ≡ false = ground arith in
                rw none_left refl),
        )
        | inl q ↦
            let h : loaded < len = ground arith in
            let (b0, b1, b2) = block_size_of_bounds m len loaded big h in
            let n : ℕ = block_size_of m (len - loaded) in
            let (block, s1, e, size, at, kept) =
              block_read_request-recalled requests memory (start + loaded) n (length bytes - loaded)
                (frames fuel) s reads (omega arith) (omega arith) (omega arith) (room fuel).0
                (room fuel).1 in
            let bytes1 : Bytes = overlay loaded block bytes in
            let fits : leb (loaded + length block) (length bytes) ≡ true = ground arith in
            let written : write_at loaded block bytes ≡ ok bytes1 = rw fits refl in
            let size1 = length-overlay loaded block bytes in
            let (bytes2, s2, e', size2, at') =
              download_loop-recalled fuel (loaded + n) bytes1 s1 reads room (omega arith)
                (omega arith) b2 in
            (
              bytes2,
              s2,
              download_loop-next fuel loaded bytes bytes1 block s s1 h e written ∙ e',
              size2 ∙ size1,
              λ i.
                  downloaded_byte loaded n len i (memory s (start + i)) (memory s1 (start + i))
                    (get_or bytes i 0) (get_or bytes1 i 0) (get_or bytes2 i 0) (at' i)
                    (kept (start + i))
                    (overlaid_byte start loaded n i bytes block (memory s) size at (omega arith))
                    b2,
            )
      ]
