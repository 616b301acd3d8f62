-- ===== src/Msap/Returns.antt =====
-- Each request of lib/wpc/msap.c returns, and sends one frame at most.
use c_mesh_api.WpcInternal.{timeout_confirm_ms}
use c_mesh_api.Reassembly.{copy_bytes}
use c_mesh_api.Msap.Scratchpad.{
  msap_scratchpad_block_request, maximum_scratchpad_block_size, image_block_size,
  scratchpad_block_timeout_ms,
}
use c_mesh_api.Msap.ConfigData.{
  msap_app_config_data_write_request, msap_config_data_item_set_request, maximum_app_config_size,
  maximum_cdc_item_payload_size,
}
use c_mesh_api.Dsap.Fragment.{frame_size}
use c_mesh_api.Request.Sent.{Answers, ReturnsOnce, refused-ReturnsOnce, plain_request-ReturnsOnce}
use c_mesh_api.Request.{Requests, Frames, le16, le32}
use c_mesh_api.Prelude.{
  ℕ, Bytes, List, ◌≤◌, length, Bool-cases, leb, ltb, ◌≡◌, inl, true, arith, false, some, negsuc,
  pos, ◌∷◌, inr, take, overlay, ◌++◌, replicate, length-overlay, ◌-◌, length-replicate, ◌∙◌,
  length-take, ◌+◌,
}

module _ {S : Type 0} (requests : Requests S) (log : S → List Bytes)
    (answers : Answers requests log) (frames : Frames) (s : S)
    (room : frame_size ≤ length frames.request) where
  pub app_config_write-ReturnsOnce :
      (seq interval : ℕ) (config : Bytes) (size : ℕ)
      → size ≤ length config
      → size ≤ maximum_app_config_size
      → ReturnsOnce requests log frames s
          (msap_app_config_data_write_request requests seq interval config size frames s)
  unfolding msap_app_config_data_write_request copy_bytes
  app_config_write-ReturnsOnce seq interval config size h k =
      let fits : leb size (length config) ≡ true = ground arith in
      let small : ltb maximum_app_config_size size ≡ false = ground arith in
      let payload : Bytes =
        (seq ∷ le16 interval)
        ++ overlay 0 (take size config) (replicate maximum_app_config_size 0) in
      let len : length payload ≡ 83 = omega (
        arith,
        length-overlay 0 (take size config) (replicate maximum_app_config_size 0),
        length-replicate {A = ℕ} maximum_app_config_size 0,
      ) in
      rw (fits, small)
        (plain_request-ReturnsOnce requests log answers 0x3A 83 payload timeout_confirm_ms frames s
          (omega arith) (omega arith))

  pub scratchpad_block-ReturnsOnce :
      (start_address number_of_bytes : ℕ) (bytes : Bytes)
      → number_of_bytes ≤ length bytes
      → ReturnsOnce requests log frames s
          (msap_scratchpad_block_request requests start_address number_of_bytes bytes frames s)
  unfolding msap_scratchpad_block_request copy_bytes
  scratchpad_block-ReturnsOnce start_address number_of_bytes bytes h =
      elim (Bool-cases (ltb maximum_scratchpad_block_size number_of_bytes)) [
        | inl q ↦ rw q (refused-ReturnsOnce requests log answers (some (pos 6)) frames s)
        | inr q ↦
            let fits : leb number_of_bytes (length bytes) ≡ true = ground arith in
            rw (q, fits)
              (plain_request-ReturnsOnce requests log answers 0x18
                (image_block_size - (maximum_scratchpad_block_size - number_of_bytes))
                (le32 start_address ++ (number_of_bytes ∷ take number_of_bytes bytes))
                scratchpad_block_timeout_ms frames s
                (ground (arith, length-take number_of_bytes bytes)) (omega arith))
      ]

  pub item_set-ReturnsOnce :
      (endpoint : ℕ) (payload : Bytes) (payload_size : ℕ)
      → payload_size ≤ length payload
      → ReturnsOnce requests log frames s
          (msap_config_data_item_set_request requests endpoint payload payload_size frames s)
  unfolding msap_config_data_item_set_request copy_bytes
  item_set-ReturnsOnce endpoint payload payload_size h =
      elim (Bool-cases (ltb maximum_cdc_item_payload_size payload_size)) [
        | inl q ↦ rw q (refused-ReturnsOnce requests log answers (some (negsuc 3)) frames s)
        | inr q ↦
            let fits : leb payload_size (length payload) ≡ true = ground arith in
            let item : Bytes =
              overlay 0 (take payload_size payload) (replicate maximum_cdc_item_payload_size 0) in
            let len : length item ≡ maximum_cdc_item_payload_size =
              length-overlay 0 (take payload_size payload)
                (replicate maximum_cdc_item_payload_size 0)
              ∙ length-replicate {A = ℕ} maximum_cdc_item_payload_size 0 in
            rw (q, fits)
              (plain_request-ReturnsOnce requests log answers 0x29 (3 + payload_size)
                (le16 endpoint ++ (payload_size ∷ item)) timeout_confirm_ms frames s (omega arith)
                (ground arith))
      ]
