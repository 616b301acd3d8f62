-- ===== src/Wpc/Management.antt =====
-- The single attributes of the management service, the system time, the access cycle and the
-- scratchpad's size in lib/wpc/wpc.c.
use c_mesh_api.Attribute.{msap_attribute_read_request, msap_attribute_write_request}
use c_mesh_api.Util.{internal_time_to_s, uint16_decode_le, uint16_encode_le, uint32_decode_le}
use c_mesh_api.Wpc.Configuration.{first_byte}
use c_mesh_api.Wpc.Errors.{
  AppRes, convert_error_code, converted, att_read_error_code_lut, att_write_error_code_lut,
}
use c_mesh_api.Request.{Requests, Frames}
use c_mesh_api.Prelude.{ℕ, Bytes, ok, ◌∷◌, [], Outcome, Option, ◌>>=◌, drop, ◌++◌}

module _ {S : Type 0} (requests : Requests S) where
  abbrev pub get_msap_attribute :
      {A : Type 0} → ℕ → ℕ → (Bytes → A) → Frames → S → Outcome ((Option AppRes × Option A) × S)
  get_msap_attribute attribute_id attribute_length decode frames s = do
    (read, s') ← msap_attribute_read_request requests attribute_id attribute_length frames s
    ok (converted att_read_error_code_lut decode read, s')

  abbrev pub set_msap_attribute : ℕ → ℕ → Bytes → Frames → S → Outcome (Option AppRes × S)
  set_msap_attribute attribute_id attribute_length att frames s = do
    (res, s') ← msap_attribute_write_request requests attribute_id attribute_length att frames s
    ok (convert_error_code att_write_error_code_lut res, s')

  unfoldable pub read_single_byte_msap : ℕ → Frames → S → Outcome ((Option AppRes × Option ℕ) × S)
  read_single_byte_msap att = get_msap_attribute att 1 first_byte

  unfoldable pub wpc_get_stack_status : Frames → S → Outcome ((Option AppRes × Option ℕ) × S)
  wpc_get_stack_status = read_single_byte_msap 1

  unfoldable pub wpc_get_pdu_buffer_usage : Frames → S → Outcome ((Option AppRes × Option ℕ) × S)
  wpc_get_pdu_buffer_usage = read_single_byte_msap 2

  unfoldable pub wpc_get_pdu_buffer_capacity : Frames → S → Outcome ((Option AppRes × Option ℕ) × S)
  wpc_get_pdu_buffer_capacity = read_single_byte_msap 3

  unfoldable pub wpc_get_remaining_energy : Frames → S → Outcome ((Option AppRes × Option ℕ) × S)
  wpc_get_remaining_energy = read_single_byte_msap 5

  unfoldable pub wpc_set_remaining_energy : ℕ → Frames → S → Outcome (Option AppRes × S)
  wpc_set_remaining_energy energy = set_msap_attribute 5 1 (energy ∷ [])

  unfoldable pub wpc_get_autostart : Frames → S → Outcome ((Option AppRes × Option ℕ) × S)
  wpc_get_autostart = read_single_byte_msap 6

  unfoldable pub wpc_set_autostart : ℕ → Frames → S → Outcome (Option AppRes × S)
  wpc_set_autostart enable = set_msap_attribute 6 1 (enable ∷ [])

  unfoldable pub wpc_get_route_count : Frames → S → Outcome ((Option AppRes × Option ℕ) × S)
  wpc_get_route_count = read_single_byte_msap 7

  unfoldable pub wpc_get_system_time : Frames → S → Outcome ((Option AppRes × Option ℕ) × S)
  wpc_get_system_time = get_msap_attribute 8 4 (λ att. internal_time_to_s (uint32_decode_le att))

  unfoldable pub wpc_get_access_cycle_range :
      Frames → S → Outcome ((Option AppRes × Option (ℕ × ℕ)) × S)
  wpc_get_access_cycle_range =
      get_msap_attribute 9 4 (λ att. (uint16_decode_le att, uint16_decode_le (drop 2 att)))

  unfoldable pub wpc_set_access_cycle_range : ℕ → ℕ → Frames → S → Outcome (Option AppRes × S)
  wpc_set_access_cycle_range min_ac max_ac =
      set_msap_attribute 9 4 (uint16_encode_le min_ac ++ uint16_encode_le max_ac)

  unfoldable pub wpc_get_access_cycle_limits :
      Frames → S → Outcome ((Option AppRes × Option (ℕ × ℕ)) × S)
  wpc_get_access_cycle_limits =
      get_msap_attribute 10 4 (λ att. (uint16_decode_le att, uint16_decode_le (drop 2 att)))

  unfoldable pub wpc_get_current_access_cycle :
      Frames → S → Outcome ((Option AppRes × Option ℕ) × S)
  wpc_get_current_access_cycle = get_msap_attribute 11 2 uint16_decode_le

  unfoldable pub wpc_get_scratchpad_block_max :
      Frames → S → Outcome ((Option AppRes × Option ℕ) × S)
  wpc_get_scratchpad_block_max = read_single_byte_msap 12

  unfoldable pub wpc_get_scratchpad_size : Frames → S → Outcome ((Option AppRes × Option ℕ) × S)
  wpc_get_scratchpad_size = get_msap_attribute 14 4 uint32_decode_le
