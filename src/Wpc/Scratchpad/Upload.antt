-- ===== src/Wpc/Scratchpad/Upload.antt =====
-- The loop of WPC_upload_local_block_scratchpad of lib/wpc/wpc.c.
use c_mesh_api.Wpc.Scratchpad.Addresses.{
  address_lem, block_size_of_bounds, dropped_byte, stored_parts,
}
use c_mesh_api.Wpc.Errors.{app_res_ok}
use c_mesh_api.Wpc.Scratchpad.Blocks.{within, WritesBlocks, block_request-stored}
use c_mesh_api.Msap.Scratchpad.{
  maximum_scratchpad_block_size, msap_scratchpad_block_request, image_block_size,
}
use c_mesh_api.Wpc.Scratchpad.{block_size_of, upload_loop}
use c_mesh_api.Request.{Requests, Frames, payload_offset}
use c_mesh_api.Prelude.{
  ℕ, some, true, false, zero, suc, pos, Bytes, ok, ◌+◌, ◌<◌, ◌^◌, ◌≤◌, if◌then◌else◌, length, ◌≡◌,
  arith, ◌-◌, ap, drop, ◌∙◌, ltb, get_or, Bool-cases, inr, inl, length-drop, refl, ◌>>=◌,
}

module _ {S : Type 0} (requests : Requests S) (memory : S → ℕ → ℕ) (m len : ℕ) (start : ℕ)
    (frames : ℕ → Frames) (big : 0 < m) (small : m ≤ maximum_scratchpad_block_size)
    (end : start + len ≤ 2 ^ 32) where
  module _ (bytes : Bytes) (whole : len ≤ length bytes) where
    upload_loop-next :
        (fuel loaded r : ℕ) (s s' : S)
        → loaded < len
        → r ≤ 1
        → msap_scratchpad_block_request requests
            (start + loaded)
            (block_size_of m (len - loaded))
            (drop loaded bytes)
            (frames fuel)
            s
          ≡ ok (some (pos r), s')
        → upload_loop requests (suc fuel) m len bytes start frames loaded s
          ≡ upload_loop requests fuel m len bytes start frames
              (loaded + block_size_of m (len - loaded))
              s'
    unfolding upload_loop
    upload_loop-next fuel loaded r s s' h k e =
        let q : ltb loaded len ≡ true = ground arith in
        let fine : ltb 1 r ≡ false = ground arith in
        rw (upload_loop, q, address_lem start len loaded end h, e, ◌>>=◌, fine) refl

    pub upload_loop-stored :
        (fuel loaded : ℕ) (s : S)
        → WritesBlocks requests memory
        → ((i : ℕ) → payload_offset + image_block_size ≤ length (frames i).request)
        → len - loaded < fuel
        → loaded ≤ len
        → (s' : S) × (upload_loop requests fuel m len bytes start frames loaded s
            ≡ ok (some app_res_ok, s'))
          × ((a : ℕ)
              → memory s' a ≡ (
                  if within (start + loaded) (len - loaded) a
                  then get_or bytes (a - start) 0
                  else memory s a))
    unfolding upload_loop
    upload_loop-stored zero loaded s writes room f l = absurd (omega arith)
    upload_loop-stored (suc fuel) loaded s writes room f l = elim (Bool-cases (ltb loaded len)) [
      | inr q ↦ (
        s,
        rw (upload_loop, q) refl,
        λ a.
            (let none_left : within (start + loaded) (len - loaded) a ≡ false = ground arith in
              rw none_left refl),
      )
      | inl q ↦
          let h : loaded < len = ground arith in
          let (b0, b1, b2) = block_size_of_bounds m len loaded big h in
          let n : ℕ = block_size_of m (len - loaded) in
          let (r, s1, e, k, at) =
            block_request-stored requests memory (start + loaded) n (drop loaded bytes)
              (frames fuel) s writes (omega arith) (omega arith)
              (omega (arith, length-drop loaded bytes)) (room fuel) in
          let (s2, e', at') =
            upload_loop-stored fuel (loaded + n) s1 writes room (omega arith) b2 in
          (
            s2,
            upload_loop-next fuel loaded r s s1 h k e ∙ e',
            λ a.
                at' a
                ∙ ap
                    (λ x.
                      if within (start + (loaded + n)) (len - (loaded + n)) a
                      then get_or bytes (a - start) 0
                      else x)
                    (at a ∙ dropped_byte start loaded n a bytes (memory s a))
                ∙ stored_parts start loaded n len a (get_or bytes (a - start) 0) (memory s a) b2,
          )
    ]
