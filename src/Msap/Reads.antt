-- ===== src/Msap/Reads.antt =====
-- The requests of lib/wpc/msap.c that copy out of the confirmation return, and send one frame at
-- most.
use c_mesh_api.Msap.Scratchpad.{
  msap_scratchpad_block_read_request, msap_scratchpad_status_request, maximum_scratchpad_block_size,
  scratchpad_status_size,
}
use c_mesh_api.Msap.ConfigData.{
  msap_get_nbors_request, maximum_app_config_size, msap_config_data_item_get_request,
  maximum_cdc_item_payload_size, get_nbors_size, read_config_data_item,
  msap_app_config_data_read_request, msap_config_data_item_list_items_request, read_app_config,
  AppConfig, list_items_size,
}
use c_mesh_api.Dsap.Fragment.{frame_size}
use c_mesh_api.Request.Sent.{
  Answers, ReturnsOnce, refused-ReturnsOnce, copying_request-ReturnsOnce, copy_field_fits,
  read_if_done_returns,
}
use c_mesh_api.Request.{
  Requests, Frames, le16, le32, payload_offset, read_always, copy_field, copying_request,
  read_if_done, confirm_result, get16,
}
use c_mesh_api.Prelude.{
  ℕ, Bytes, List, ◌≤◌, length, Bool-cases, ltb, ◌≡◌, inl, arith, none, some, negsuc, pos, ◌∷◌, inr,
  take, ◌++◌, drop, [], Option, ℤ, ok, get_or, if◌then◌else◌, ◌>>=◌, refl, ◌==◌,
}

module _ {S : Type 0} (requests : Requests S) (log : S → List Bytes)
    (answers : Answers requests log) (frames : Frames) (s : S)
    (room : frame_size ≤ length frames.request) (fit : frame_size ≤ length frames.confirm) where
  pub block_read-ReturnsOnce :
      (start_address number_of_bytes capacity : ℕ)
      → number_of_bytes ≤ capacity
      → ReturnsOnce requests log frames s (
          msap_scratchpad_block_read_request requests start_address number_of_bytes capacity frames
            s)
  unfolding msap_scratchpad_block_read_request
  block_read-ReturnsOnce start_address number_of_bytes capacity h =
      elim (Bool-cases (ltb maximum_scratchpad_block_size number_of_bytes)) [
        | inl q ↦ rw q (refused-ReturnsOnce requests log answers (some (pos 6), none) frames s)
        | inr q ↦ rw q (
            copying_request-ReturnsOnce requests log answers
              (read_if_done (copy_field 4 maximum_scratchpad_block_size capacity number_of_bytes))
              0x28 5 (le32 start_address ++ (number_of_bytes ∷ [])) frames s (omega arith)
              (omega arith)
              (λ confirm len.
                read_if_done_returns requests log answers
                  (copy_field 4 maximum_scratchpad_block_size capacity number_of_bytes) confirm _
                  (copy_field_fits requests log answers 4 maximum_scratchpad_block_size capacity
                    number_of_bytes confirm (ground arith) h (ground arith))))
      ]

  -- A confirmation without a result, of which a whole structure is copied.
  structure_read-ReturnsOnce :
      (primitive size : ℕ)
      → size ≤ 199
      → ReturnsOnce requests log frames s (
          copying_request requests primitive 0 []
            (read_always (copy_field payload_offset size size size))
            frames
            s)
  unfolding read_always
  structure_read-ReturnsOnce primitive size h =
      copying_request-ReturnsOnce requests log answers
        (read_always (copy_field payload_offset size size size)) primitive 0 [] frames s
        (omega arith) (omega arith)
        (λ confirm len.
          let copied =
            copy_field_fits requests log answers payload_offset size size size confirm (omega arith)
              (omega arith) (omega arith) in
          ((some (pos 0), some (take size (drop payload_offset confirm))), rw (copied, ◌>>=◌) refl))

  pub bytes_read-ReturnsOnce :
      ReturnsOnce requests log frames s (msap_get_nbors_request requests frames s)
      × ReturnsOnce requests log frames s (msap_scratchpad_status_request requests frames s)
  unfolding msap_get_nbors_request msap_scratchpad_status_request
  bytes_read-ReturnsOnce = (
    structure_read-ReturnsOnce 0x20 get_nbors_size (omega arith),
    structure_read-ReturnsOnce 0x19 scratchpad_status_size (omega arith),
  )

  -- The item is copied if its announced length fits the field and the caller's array.
  read_config_data_item_returns :
      (payload_capacity : ℕ) (confirm : Bytes)
      → frame_size ≤ length confirm
      → (r : Option ℤ × Option Bytes) × (read_config_data_item payload_capacity confirm ≡ ok r)
  unfolding read_config_data_item
  read_config_data_item_returns payload_capacity confirm len =
      let n : ℕ = get_or confirm 4 0 in
      elim (Bool-cases (confirm_result confirm == 0)) [
        | inr q ↦ ((some (pos (confirm_result confirm)), none), rw (read_config_data_item, q) refl)
        | inl q ↦ elim (Bool-cases (ltb payload_capacity n)) [
          | inl c ↦ ((some (negsuc 5), none), rw (read_config_data_item, q, c) refl)
          | inr c ↦ elim (Bool-cases (ltb maximum_cdc_item_payload_size n)) [
            | inl m ↦ ((some (negsuc 3), none), rw (read_config_data_item, q, c, m) refl)
            | inr m ↦
                let copied =
                  copy_field_fits requests log answers 5 maximum_cdc_item_payload_size
                    payload_capacity n confirm (ground arith) (ground arith) (ground arith) in
                (
                  (some (pos (confirm_result confirm)), some (take n (drop 5 confirm))),
                  rw (read_config_data_item, q, c, m, copied, ◌>>=◌) refl,
                )
          ]
        ]
      ]

  pub item_get-ReturnsOnce :
      (endpoint payload_capacity : ℕ)
      → ReturnsOnce requests log frames s
          (msap_config_data_item_get_request requests endpoint payload_capacity frames s)
  unfolding msap_config_data_item_get_request
  item_get-ReturnsOnce endpoint payload_capacity =
      copying_request-ReturnsOnce requests log answers (read_config_data_item payload_capacity) 0x30
        2 (le16 endpoint) frames s (omega arith) (omega arith)
        (λ confirm len. read_config_data_item_returns payload_capacity confirm (omega arith))

  pub list_items-ReturnsOnce :
      (command : ℕ)
      → ReturnsOnce requests log frames s
          (msap_config_data_item_list_items_request requests command frames s)
  unfolding msap_config_data_item_list_items_request
  list_items-ReturnsOnce command =
      let read = copy_field payload_offset list_items_size list_items_size list_items_size in
      copying_request-ReturnsOnce requests log answers (read_if_done read) 0x32 1 (command ∷ [])
        frames s (omega arith) (omega arith)
        (λ confirm len. read_if_done_returns requests log answers read confirm _ (
          copy_field_fits requests log answers payload_offset list_items_size list_items_size
            list_items_size confirm (omega arith) (omega arith) (omega arith)))

  read_app_config_returns :
      (size : ℕ) (confirm : Bytes)
      → frame_size ≤ length confirm
      → (config : AppConfig) × (read_app_config size confirm ≡ ok config)
  unfolding read_app_config
  read_app_config_returns size confirm len =
      let n : ℕ = if ltb maximum_app_config_size size then maximum_app_config_size else size in
      let copied : copy_field 7 maximum_app_config_size size n confirm
          ≡ ok (take n (drop 7 confirm)) =
        copy_field_fits requests log answers 7 maximum_app_config_size size n confirm (ground arith)
          (ground arith) (ground arith) in
      (
        record {
          seq = get_or confirm 4 0;
          interval = get16 confirm 5;
          config = take n (drop 7 confirm);
        },
        rw (read_app_config, copied, ◌>>=◌) refl,
      )

  pub app_config_read-ReturnsOnce :
      (size : ℕ)
      → ReturnsOnce requests log frames s (msap_app_config_data_read_request requests size frames s)
  unfolding msap_app_config_data_read_request
  app_config_read-ReturnsOnce size =
      copying_request-ReturnsOnce requests log answers (read_if_done (read_app_config size)) 0x3B 0
        [] frames s (omega arith) (omega arith)
        (λ confirm len.
          let (config, e) = read_app_config_returns size confirm (omega arith) in
          read_if_done_returns requests log answers (read_app_config size) confirm config e)
