-- ===== src/Msap/ConfigData.antt =====
-- The requests for the stack, the application's configuration, the sink cost, the neighbours and
-- the items of configuration data in lib/wpc/msap.c. The build is the one without
-- `LEGACY_APP_CONFIG`.
use c_mesh_api.WpcInternal.{timeout_confirm_ms}
use c_mesh_api.Reassembly.{copy_bytes}
use c_mesh_api.Request.{
  Requests, Frames, plain_request, reading_request, confirm_result, get16, le16, payload_offset,
  copy_field, copying_request, read_always, read_if_done,
}
use c_mesh_api.Prelude.{
  ℕ, none, some, Bytes, ◌+◌, Option, ◌*◌, Outcome, ℤ, get_or, if◌then◌else◌, ◌>>=◌, [], ltb, not,
  ◌∷◌, fault, ok, negsuc, ◌++◌, ◌==◌, overlay, pos, replicate,
}

abbrev pub maximum_app_config_size : ℕ
maximum_app_config_size = 80

abbrev pub maximum_cdc_item_payload_size : ℕ
maximum_cdc_item_payload_size = 80

-- `sizeof(msap_get_nbors_conf_pl_t)`: the number, and 8 neighbours of 13 bytes.
abbrev pub get_nbors_size : ℕ
get_nbors_size = 1 + 8 * 13

-- `sizeof(msap_config_data_item_list_items_conf_pl_t)`
abbrev pub list_items_size : ℕ
list_items_size = 2 + 32

-- What `msap_app_config_data_read_request` writes.
pub record AppConfig : Type 0 where
  pub seq : ℕ
  pub interval : ℕ
  pub config : Bytes

-- What is done with the confirmation of `msap_config_data_item_get_request`: the result, and the
-- bytes that are copied to `payload` and counted in `*payload_size`.
unfoldable pub read_config_data_item : ℕ → Bytes → Outcome (Option ℤ × Option Bytes)
read_config_data_item payload_capacity confirm =
    let payload_length = get_or confirm 4 0 in
    if not (confirm_result confirm == 0)
    then ok (some (pos (confirm_result confirm)), none)
    else if ltb payload_capacity payload_length
    then ok (some (negsuc 5), none)
    else if ltb maximum_cdc_item_payload_size payload_length
    then ok (some (negsuc 3), none)
    else (do
      payload ← copy_field 5 maximum_cdc_item_payload_size payload_capacity payload_length confirm
      ok (some (pos (confirm_result confirm)), some payload))

-- What is read of the confirmation; the caller's array has `size` bytes.
unfoldable pub read_app_config : ℕ → Bytes → Outcome AppConfig
read_app_config size confirm = do
  let size_to_read = if ltb maximum_app_config_size size then maximum_app_config_size else size
  config_p ← copy_field 7 maximum_app_config_size size size_to_read confirm
  ok (record { seq = get_or confirm 4 0; interval = get16 confirm 5; config = config_p })

module _ {S : Type 0} (requests : Requests S) where
  unfoldable pub msap_stack_stop_request : Frames → S → Outcome (Option ℤ × S)
  msap_stack_stop_request = plain_request requests 0x06 0 [] timeout_confirm_ms

  -- The field for the data is cleared, and `size` bytes are copied to its start.
  unfoldable pub msap_app_config_data_write_request :
      ℕ → ℕ → Bytes → ℕ → Frames → S → Outcome (Option ℤ × S)
  msap_app_config_data_write_request seq interval config_p size frames s = do
    config ← copy_bytes config_p size
    if ltb maximum_app_config_size size
        then fault
        else plain_request requests 0x3A (3 + maximum_app_config_size)
            ((seq ∷ le16 interval) ++ overlay 0 config (replicate maximum_app_config_size 0))
            timeout_confirm_ms frames s

  unfoldable pub msap_app_config_data_read_request :
      ℕ → Frames → S → Outcome ((Option ℤ × Option AppConfig) × S)
  msap_app_config_data_read_request size =
      copying_request requests 0x3B 0 [] (read_if_done (read_app_config size))

  unfoldable pub msap_sink_cost_write_request : ℕ → Frames → S → Outcome (Option ℤ × S)
  msap_sink_cost_write_request cost = plain_request requests 0x38 1 (cost ∷ []) timeout_confirm_ms

  unfoldable pub msap_sink_cost_read_request : Frames → S → Outcome ((Option ℤ × Option ℕ) × S)
  msap_sink_cost_read_request = reading_request requests 0x39 0 [] (λ confirm. get_or confirm 4 0)

  -- The bytes of the neighbours are copied from the confirmation, which has no result.
  unfoldable pub msap_get_nbors_request : Frames → S → Outcome ((Option ℤ × Option Bytes) × S)
  msap_get_nbors_request =
      copying_request requests 0x20 0 []
        (read_always (copy_field payload_offset get_nbors_size get_nbors_size get_nbors_size))

  unfoldable pub msap_scan_nbors_request : Frames → S → Outcome (Option ℤ × S)
  msap_scan_nbors_request = plain_request requests 0x21 0 [] timeout_confirm_ms

  -- The local `request` is initialised: the field for the data is 0 behind the item's bytes.
  unfoldable pub msap_config_data_item_set_request :
      ℕ → Bytes → ℕ → Frames → S → Outcome (Option ℤ × S)
  msap_config_data_item_set_request endpoint payload payload_size frames s =
      if ltb maximum_cdc_item_payload_size payload_size then ok (some (negsuc 3), s) else (do
        item ← copy_bytes payload payload_size
        plain_request requests 0x29 (3 + payload_size)
            (le16 endpoint
              ++ (payload_size ∷ overlay 0 item (replicate maximum_cdc_item_payload_size 0)))
            timeout_confirm_ms frames s)

  unfoldable pub msap_config_data_item_get_request :
      ℕ → ℕ → Frames → S → Outcome ((Option ℤ × Option Bytes) × S)
  msap_config_data_item_get_request endpoint payload_capacity =
      copying_request requests 0x30 2 (le16 endpoint) (read_config_data_item payload_capacity)

  unfoldable pub msap_config_data_item_list_items_request :
      ℕ → Frames → S → Outcome ((Option ℤ × Option Bytes) × S)
  msap_config_data_item_list_items_request command =
      copying_request requests 0x32 1 (command ∷ [])
        (read_if_done (copy_field payload_offset list_items_size list_items_size list_items_size))
