-- ===== src/Wpc/Scratchpad/Running.antt =====
-- WPC_download_local_scratchpad of lib/wpc/wpc.c on a node whose stack runs.
use c_mesh_api.Request.Frame.{frame_of, fill_request-frame_of}
use c_mesh_api.Wpc.OneByte.{HasRoom}
use c_mesh_api.Wpc.Errors.{app_res_ok}
use c_mesh_api.Wpc.Scratchpad.Blocks.{TellsBlockMax, wpc_get_scratchpad_block_max-told}
use c_mesh_api.Wpc.Scratchpad.{
  download_loop, wpc_download_local_scratchpad, encoded32, block_size_of,
}
use c_mesh_api.Msap.Scratchpad.{msap_scratchpad_block_read_request, maximum_scratchpad_block_size}
use c_mesh_api.Request.{
  Requests, Frames, wpc_int_send_request, confirm_result, payload_offset, le32, copying_request,
  read_if_done, on_confirm_copy,
}
use c_mesh_api.WpcInternal.{answered, timeout_confirm_ms}
use c_mesh_api.Prelude.{
  ℕ, none, some, true, false, zero, suc, pos, Bytes, ok, get_or, ◌<◌, ◌≡◌, ◌≤◌, ◌+◌, length, ◌++◌,
  ◌-◌, ◌%◌, ◌∷◌, [], arith, ◌^◌, Bool-cases, ltb, ◌>>=◌, inr, refl, inl, ◌∙◌,
}

module _ {S : Type 0} (requests : Requests S) where
  -- The node answers each request for a block with result 1, which the table for these requests
  -- gives as `APP_RES_STACK_NOT_STOPPED`.
  abbrev pub RefusesReads : Type 0
  RefusesReads =
      (request confirm : Bytes) (s : S)
      → get_or request 0 0 ≡ 0x28
      → 4 ≤ length confirm
      → (reply : Bytes) × (s' : S) × (requests.send_request_timeout request confirm
            timeout_confirm_ms s
          ≡ ok (answered (pos 0) reply, s'))
        × (confirm_result reply ≡ 1)

  block_read_refused :
      (addr n capacity : ℕ) (frames : Frames) (s : S)
      → RefusesReads
      → n ≤ maximum_scratchpad_block_size
      → payload_offset + 5 ≤ length frames.request
      → 4 ≤ length frames.confirm
      → (s' : S) × (msap_scratchpad_block_read_request requests addr n capacity frames s
          ≡ ok ((some (pos 1), none), s'))
  unfolding msap_scratchpad_block_read_request copying_request wpc_int_send_request read_if_done
      on_confirm_copy
  block_read_refused addr n capacity frames s refuses small space fit =
      let payload : Bytes = le32 addr ++ (n ∷ []) in
      let q : ltb maximum_scratchpad_block_size n ≡ false = ground arith in
      let (reply, s', e, z) =
        refuses (frame_of 0x28 5 payload frames.request) frames.confirm s refl fit in
      (
        s',
        rw (q, fill_request-frame_of 0x28 5 payload frames.request (omega arith))
            (rw (e, ◌>>=◌) (rw z refl)),
      )

  module _ (m len start : ℕ) (frames : ℕ → Frames) (big : 0 < m)
      (small : m ≤ maximum_scratchpad_block_size)
      (room : (i : ℕ)
        → (payload_offset + 5 ≤ length (frames i).request) × (4 ≤ length (frames i).confirm))
      (refuses : RefusesReads) (array : Bytes) where
    download_loop-refused :
        (fuel loaded : ℕ) (s s' : S)
        → loaded < len
        → msap_scratchpad_block_read_request requests
            (encoded32 ((start + loaded) % 2 ^ 32))
            (block_size_of m (len - loaded))
            (length array - loaded)
            (frames fuel)
            s
          ≡ ok ((some (pos 1), none), s')
        → download_loop requests (suc fuel) m len start frames loaded array s
          ≡ download_loop requests fuel m len start frames
              (loaded + block_size_of m (len - loaded))
              array
              s'
    unfolding download_loop
    download_loop-refused fuel loaded s s' h e =
        let q : ltb loaded len ≡ true = ground arith in rw (download_loop, q, e, ◌>>=◌) refl

    download_loop-unread :
        (fuel loaded : ℕ) (s : S)
        → len - loaded < fuel
        → loaded ≤ len
        → (s' : S) × (download_loop requests fuel m len start frames loaded array s
            ≡ ok ((some app_res_ok, array), s'))
    unfolding download_loop
    download_loop-unread zero loaded s f l = absurd (omega arith)
    download_loop-unread (suc fuel) loaded s f l = elim (Bool-cases (ltb loaded len)) [
      | inr q ↦ (s, rw (download_loop, q) refl)
      | inl q ↦
          let h : loaded < len = ground arith in
          let n : ℕ = block_size_of m (len - loaded) in
          let b : (0 < n) × (n ≤ m) × (loaded + n ≤ len) = ground arith in
          let (s1, e) =
            block_read_refused (encoded32 ((start + loaded) % 2 ^ 32)) n (length array - loaded)
              (frames fuel) s refuses (omega arith) (room fuel).0 (room fuel).1 in
          let (s2, e') = download_loop-unread fuel (loaded + n) s1 (omega arith) b.2 in
          (s2, download_loop-refused fuel loaded s s1 h e ∙ e')
    ]

    -- On a node that tells a maximal size of blocks from 1 to 112 and answers each request for a
    -- block with result 1, `WPC_download_local_scratchpad` with fuel for `len` blocks returns
    -- `APP_RES_OK` and leaves the caller's array as it is, provided that the local frames have room.
    pub wpc_download_local_scratchpad-unread :
        (fuel : ℕ) (first : Frames) (s : S)
        → TellsBlockMax requests (λ s' a. 0) m
        → len < fuel
        → HasRoom first
        → (s' : S) × (wpc_download_local_scratchpad requests fuel len array start first frames s
            ≡ ok ((some app_res_ok, array), s'))
    unfolding wpc_download_local_scratchpad
    wpc_download_local_scratchpad-unread fuel first s tells f r =
        let (s1, e, kept) =
          wpc_get_scratchpad_block_max-told requests (λ s' a. 0) m first s tells r in
        let (s2, e') = download_loop-unread fuel 0 s1 (omega arith) (omega arith) in
        (s2, rw (e, ◌>>=◌) e')
