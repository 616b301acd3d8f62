-- ===== src/Wpc/Data.antt =====
-- The application's configuration, the sink cost, the neighbours and the items of configuration data
-- in lib/wpc/wpc.c.
use c_mesh_api.Msap.Convert.{NborInfo, convert_internal_to_app_neighbors_status}
use c_mesh_api.Wpc.Configuration.{wpc_get_app_config_data_size}
use c_mesh_api.Msap.ConfigData.{
  AppConfig, msap_config_data_item_get_request, msap_config_data_item_list_items_request,
  msap_config_data_item_set_request, msap_scan_nbors_request, msap_sink_cost_read_request,
  msap_sink_cost_write_request, list_items_size, msap_get_nbors_request,
  msap_app_config_data_read_request, msap_app_config_data_write_request,
}
use c_mesh_api.Wpc.Errors.{
  AppRes, app_res_internal_error, convert_error_code, converted, cdc_item_get_error_code_lut,
  cdc_item_set_error_code_lut, scan_neighbors_error_code_lut, sink_cost_error_code_lut,
  app_res_invalid_value, cdc_get_item_list_error_code_lut, app_config_read_error_code_lut,
  app_config_write_error_code_lut, is_app_res_ok, app_res_ok,
}
use c_mesh_api.Request.{Requests, Frames, le16}
use c_mesh_api.Util.{uint16_decode_le, uint16_encode_le}
use c_mesh_api.Prelude.{
  ℕ, none, some, pos, negsuc, Bytes, ok, Option, ℤ, Outcome, List, ◌>>=◌, replicate, if◌then◌else◌,
  get_or, ltb, not, ◌*◌, take, drop, is_pos,
}

-- A `uint16_t` variable that `uint16_encode_le` has written, as the host reads it.
abbrev pub encoded16 : ℕ → ℕ
encoded16 v = uint16_decode_le (uint16_encode_le v)

-- `sizeof(response.endpoints_list)`
abbrev pub endpoints_list_size : ℕ
endpoints_list_size = 32

-- What `WPC_get_config_data_item_list` makes of the response: the result, and the bytes that are
-- copied to `endpoints` with the number of endpoints.
unfoldable pub item_list_of : ℕ → Option ℤ × Option Bytes → Option AppRes × Option (Bytes × ℕ)
item_list_of endpoints_capacity (none, value) = (none, none)
item_list_of endpoints_capacity (some (negsuc n), value) = (some app_res_internal_error, none)
item_list_of endpoints_capacity (some (pos n), value) =
    let response : Bytes = elim value [ none ↦ replicate list_items_size 0 | some bytes ↦ bytes ] in
    let amount_endpoints = get_or response 1 0 in
    elim (convert_error_code cdc_get_item_list_error_code_lut (some (pos n))) [
      | none ↦ (none, none)
      | some res ↦
          if not (is_app_res_ok res)
          then (some res, none)
          else if ltb endpoints_capacity (amount_endpoints * 2)
          then (some app_res_internal_error, none)
          else if ltb endpoints_list_size (amount_endpoints * 2)
          then (some app_res_internal_error, none)
          else (some res, some (take (amount_endpoints * 2) (drop 2 response), amount_endpoints))
    ]

-- What `WPC_get_neighbors` makes of the response.
unfoldable pub neighbors_of :
    Option ℤ × Option Bytes → Outcome (Option AppRes × Option (ℕ × List NborInfo))
neighbors_of (none, value) = ok (none, none)
neighbors_of (some res, none) = ok (some app_res_internal_error, none)
neighbors_of (some res, some internal_list) =
    if not (is_pos res 0) then ok (some app_res_internal_error, none) else (do
      nbors ← convert_internal_to_app_neighbors_status internal_list
      ok (some app_res_ok, some nbors))

module _ {S : Type 0} (requests : Requests S) where
  unfoldable pub wpc_get_app_config_data :
      ℕ → Frames → Frames → S → Outcome ((Option AppRes × Option AppConfig) × S)
  wpc_get_app_config_data size first second s = do
    (max, s1) ← wpc_get_app_config_data_size requests first s
    elim max.1 [
      | none ↦ ok ((max.0, none), s1)
      | some max_size ↦
          if ltb size max_size then ok ((some app_res_invalid_value, none), s1) else (do
            (read, s2) ← msap_app_config_data_read_request requests size second s1
            ok (
              converted {A = AppConfig} {B = AppConfig} app_config_read_error_code_lut
                  (λ c. record c { interval = uint16_decode_le (le16 c.interval) }) read,
              s2,
            ))
    ]

  unfoldable pub wpc_set_app_config_data :
      ℕ → ℕ → Bytes → ℕ → Frames → Frames → S → Outcome (Option AppRes × S)
  wpc_set_app_config_data seq interval config size first second s = do
    (max, s1) ← wpc_get_app_config_data_size requests first s
    elim max.1 [
      | none ↦ ok (max.0, s1)
      | some max_size ↦ if ltb max_size size then ok (some app_res_invalid_value, s1) else (do
        (res, s2) ←
            msap_app_config_data_write_request requests seq (encoded16 interval) config size second
              s1
        ok (convert_error_code app_config_write_error_code_lut res, s2))
    ]

  unfoldable pub wpc_set_sink_cost : ℕ → Frames → S → Outcome (Option AppRes × S)
  wpc_set_sink_cost cost frames s = do
    (res, s') ← msap_sink_cost_write_request requests cost frames s
    ok (convert_error_code sink_cost_error_code_lut res, s')

  unfoldable pub wpc_get_sink_cost : Frames → S → Outcome ((Option AppRes × Option ℕ) × S)
  wpc_get_sink_cost frames s = do
    (read, s') ← msap_sink_cost_read_request requests frames s
    ok (converted sink_cost_error_code_lut (λ cost. cost) read, s')

  unfoldable pub wpc_start_scan_neighbors : Frames → S → Outcome (Option AppRes × S)
  wpc_start_scan_neighbors frames s = do
    (res, s') ← msap_scan_nbors_request requests frames s
    ok (convert_error_code scan_neighbors_error_code_lut res, s')

  -- The number of neighbours and the array of 8 neighbours.
  unfoldable pub wpc_get_neighbors :
      Frames → S → Outcome ((Option AppRes × Option (ℕ × List NborInfo)) × S)
  wpc_get_neighbors frames s = do
    (read, s') ← msap_get_nbors_request requests frames s
    (ret, number) ← neighbors_of read
    ok ((ret, number), s')

  unfoldable pub wpc_set_config_data_item : ℕ → Bytes → ℕ → Frames → S → Outcome (Option AppRes × S)
  wpc_set_config_data_item endpoint payload size frames s = do
    (res, s') ← msap_config_data_item_set_request requests endpoint payload size frames s
    ok (convert_error_code cdc_item_set_error_code_lut res, s')

  -- The bytes that are copied to `payload` and counted in `*size`.
  unfoldable pub wpc_get_config_data_item :
      ℕ → ℕ → Frames → S → Outcome ((Option AppRes × Option Bytes) × S)
  wpc_get_config_data_item endpoint payload_capacity frames s = do
    (read, s') ← msap_config_data_item_get_request requests endpoint payload_capacity frames s
    ok ((convert_error_code cdc_item_get_error_code_lut read.0, read.1), s')

  unfoldable pub wpc_get_config_data_item_list :
      ℕ → Frames → S → Outcome ((Option AppRes × Option (Bytes × ℕ)) × S)
  wpc_get_config_data_item_list endpoints_capacity frames s = do
    (read, s') ← msap_config_data_item_list_items_request requests 0 frames s
    ok (item_list_of endpoints_capacity read, s')
