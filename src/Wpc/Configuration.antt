-- ===== src/Wpc/Configuration.antt =====
-- The attributes of the configuration service in lib/wpc/wpc.c. The first component of a result is
-- `none` if the process ends; a value that is not written to the caller's variable is `none`.
use c_mesh_api.Attribute.{
  csap_attribute_read_request, csap_attribute_write_request, csap_factory_reset_request,
}
use c_mesh_api.Util.{uint16_decode_le, uint32_decode_le, uint32_encode_le}
use c_mesh_api.Wpc.Errors.{
  AppRes, app_res_internal_error, app_res_ok, app_res_invalid_value, convert_error_code, converted,
  att_read_error_code_lut, att_write_error_code_lut, fact_reset_error_code_lut,
}
use c_mesh_api.Request.{Requests, Frames}
use c_mesh_api.Prelude.{
  ℕ, none, some, false, Bytes, ok, ◌∷◌, [], Option, get_or, replicate, List, ℤ, Outcome, Bool,
  if◌then◌else◌, ◌%◌, ◌>>=◌, is_neg, ltb, not, ◌++◌, ◌+◌, ◌^◌, is_pos, set, ◌/◌, length, ◌==◌,
  fault, overlay,
}

-- `RESERVED_CHANNELS_MAX_NUM_BYTES`
abbrev pub reserved_channels_max_num_bytes : ℕ
reserved_channels_max_num_bytes = 16

-- `sizeof(wpc_key_pair_t)`
abbrev pub key_pair_size : ℕ
key_pair_size = 33

abbrev pub first_byte : Bytes → ℕ
first_byte att = get_or att 0 0

-- `disable_key`
abbrev pub disable_key : Bytes
disable_key = replicate 16 0xFF

-- What `WPC_is_cipher_key_set` makes of the result of a read of the key.
unfoldable pub key_set_of : Option ℤ → Option AppRes × Option Bool
key_set_of none = (none, none)
key_set_of (some res) =
    if is_neg res
    then (some app_res_internal_error, none)
    else (some app_res_ok, some (is_pos res 5))

module _ {S : Type 0} (requests : Requests S) where
  -- What the code below does to read an attribute: the request, and its result by the table.
  abbrev pub get_attribute :
      {A : Type 0} → ℕ → ℕ → (Bytes → A) → Frames → S → Outcome ((Option AppRes × Option A) × S)
  get_attribute attribute_id attribute_length decode frames s = do
    (read, s') ← csap_attribute_read_request requests attribute_id attribute_length frames s
    ok (converted att_read_error_code_lut decode read, s')

  abbrev pub set_attribute : ℕ → ℕ → Bytes → Frames → S → Outcome (Option AppRes × S)
  set_attribute attribute_id attribute_length att frames s = do
    (res, s') ← csap_attribute_write_request requests attribute_id attribute_length att frames s
    ok (convert_error_code att_write_error_code_lut res, s')

  unfoldable pub wpc_get_role : Frames → S → Outcome ((Option AppRes × Option ℕ) × S)
  wpc_get_role = get_attribute 4 1 first_byte

  unfoldable pub wpc_set_role : ℕ → Frames → S → Outcome (Option AppRes × S)
  wpc_set_role role = set_attribute 4 1 (role % 2 ^ 8 ∷ [])

  unfoldable pub wpc_get_node_address : Frames → S → Outcome ((Option AppRes × Option ℕ) × S)
  wpc_get_node_address = get_attribute 1 4 uint32_decode_le

  unfoldable pub wpc_set_node_address : ℕ → Frames → S → Outcome (Option AppRes × S)
  wpc_set_node_address add = set_attribute 1 4 (uint32_encode_le add)

  -- The fourth byte of the local array is 0.
  unfoldable pub wpc_get_network_address : Frames → S → Outcome ((Option AppRes × Option ℕ) × S)
  wpc_get_network_address = get_attribute 2 3 (λ att. uint32_decode_le (att ++ (0 ∷ [])))

  unfoldable pub wpc_set_network_address : ℕ → Frames → S → Outcome (Option AppRes × S)
  wpc_set_network_address add frames s =
      if not (add / 2 ^ 24 == 0)
      then ok (some app_res_invalid_value, s)
      else set_attribute 2 3 (uint32_encode_le add) frames s

  unfoldable pub wpc_get_network_channel : Frames → S → Outcome ((Option AppRes × Option ℕ) × S)
  wpc_get_network_channel = get_attribute 3 1 first_byte

  unfoldable pub wpc_set_network_channel : ℕ → Frames → S → Outcome (Option AppRes × S)
  wpc_set_network_channel channel = set_attribute 3 1 (channel % 2 ^ 8 ∷ [])

  unfoldable pub wpc_get_mtu : Frames → S → Outcome ((Option AppRes × Option ℕ) × S)
  wpc_get_mtu = get_attribute 5 1 first_byte

  unfoldable pub wpc_get_pdu_buffer_size : Frames → S → Outcome ((Option AppRes × Option ℕ) × S)
  wpc_get_pdu_buffer_size = get_attribute 6 1 first_byte

  unfoldable pub wpc_get_scratchpad_sequence : Frames → S → Outcome ((Option AppRes × Option ℕ) × S)
  wpc_get_scratchpad_sequence = get_attribute 7 1 first_byte

  unfoldable pub wpc_get_mesh_api_version : Frames → S → Outcome ((Option AppRes × Option ℕ) × S)
  wpc_get_mesh_api_version = get_attribute 8 2 uint16_decode_le

  -- The loop of `WPC_get_firmware_version` over the ids left, with the number of those done and the
  -- array. A value is given exactly if the result is `APP_RES_OK`.
  unfoldable pub firmware_loop :
      List ℕ → ℕ → (ℕ → Frames) → List ℕ → S → Outcome ((Option AppRes × List ℕ) × S)
  firmware_loop [] i frames version s = ok ((some app_res_ok, version), s)
  firmware_loop (id ∷ ids) i frames version s = do
    (r, s') ← get_attribute id 2 uint16_decode_le (frames i) s
    elim r.1 [
      | none ↦ ok ((r.0, version), s')
      | some v ↦ firmware_loop ids (i + 1) frames (set version i v) s'
    ]

  -- With the contents of the array before.
  unfoldable pub wpc_get_firmware_version :
      (ℕ → Frames) → List ℕ → S → Outcome ((Option AppRes × List ℕ) × S)
  wpc_get_firmware_version = firmware_loop (9 ∷ 10 ∷ 11 ∷ 12 ∷ []) 0

  unfoldable pub wpc_set_cipher_key : Bytes → Frames → S → Outcome (Option AppRes × S)
  wpc_set_cipher_key key = set_attribute 13 16 key

  unfoldable pub wpc_is_cipher_key_set : Frames → S → Outcome ((Option AppRes × Option Bool) × S)
  wpc_is_cipher_key_set frames s = do
    (read, s') ← csap_attribute_read_request requests 13 16 frames s
    ok (key_set_of read.0, s')

  unfoldable pub wpc_remove_cipher_key : Frames → S → Outcome (Option AppRes × S)
  wpc_remove_cipher_key = wpc_set_cipher_key disable_key

  unfoldable pub wpc_set_authentication_key : Bytes → Frames → S → Outcome (Option AppRes × S)
  wpc_set_authentication_key key = set_attribute 14 16 key

  unfoldable pub wpc_is_authentication_key_set :
      Frames → S → Outcome ((Option AppRes × Option Bool) × S)
  wpc_is_authentication_key_set frames s = do
    (read, s') ← csap_attribute_read_request requests 14 16 frames s
    ok (key_set_of read.0, s')

  unfoldable pub wpc_remove_authentication_key : Frames → S → Outcome (Option AppRes × S)
  wpc_remove_authentication_key = wpc_set_authentication_key disable_key

  unfoldable pub wpc_get_channel_limits :
      Frames → S → Outcome ((Option AppRes × Option (ℕ × ℕ)) × S)
  wpc_get_channel_limits = get_attribute 15 2 (λ att. (get_or att 0 0, get_or att 1 0))

  unfoldable pub wpc_do_factory_reset : Frames → S → Outcome (Option AppRes × S)
  wpc_do_factory_reset frames s = do
    (res, s') ← csap_factory_reset_request requests frames s
    ok (convert_error_code fact_reset_error_code_lut res, s')

  unfoldable pub wpc_get_app_config_data_size :
      Frames → S → Outcome ((Option AppRes × Option ℕ) × S)
  wpc_get_app_config_data_size = get_attribute 16 1 first_byte

  unfoldable pub wpc_get_hw_magic : Frames → S → Outcome ((Option AppRes × Option ℕ) × S)
  wpc_get_hw_magic = get_attribute 17 2 uint16_decode_le

  unfoldable pub wpc_get_stack_profile : Frames → S → Outcome ((Option AppRes × Option ℕ) × S)
  wpc_get_stack_profile = get_attribute 18 2 uint16_decode_le

  unfoldable pub wpc_get_channel_map : Frames → S → Outcome ((Option AppRes × Option ℕ) × S)
  wpc_get_channel_map = get_attribute 21 4 uint32_decode_le

  unfoldable pub wpc_set_channel_map : ℕ → Frames → S → Outcome (Option AppRes × S)
  wpc_set_channel_map channel_map = set_attribute 21 4 (uint32_encode_le channel_map)

  -- The contents of the caller's array, of which the first `size` bytes are cleared.
  unfoldable pub wpc_get_reserved_channels :
      Bytes → ℕ → Frames → S → Outcome ((Option AppRes × Bytes) × S)
  wpc_get_reserved_channels channels size frames s =
      if ltb reserved_channels_max_num_bytes size
      then ok ((some app_res_invalid_value, channels), s)
      else if ltb (length channels) size
      then fault
      else (do
        let cleared = overlay 0 (replicate size 0) channels
        (read, s') ← csap_attribute_read_request requests 25 size frames s
        let channels' : Bytes = elim read.1 [
          | none ↦ cleared
          | some value ↦ overlay 0 value cleared
        ]
        let short : Bool = elim read.0 [ none ↦ false | some res ↦ is_pos res 4 ]
        ok (
          (
            if short
                then some app_res_invalid_value
                else convert_error_code att_read_error_code_lut read.0,
            channels',
          ),
          s',
        ))

  unfoldable pub wpc_set_reserved_channels : Bytes → ℕ → Frames → S → Outcome (Option AppRes × S)
  wpc_set_reserved_channels channels size frames s =
      if ltb reserved_channels_max_num_bytes size
      then ok (some app_res_invalid_value, s)
      else set_attribute 25 size channels frames s

  unfoldable pub set_key_pair : ℕ → Bytes → Frames → S → Outcome (Option AppRes × S)
  set_key_pair attribute_id value = set_attribute attribute_id key_pair_size value

  -- The pair's bytes, or `none` for a null pointer.
  unfoldable pub wpc_set_network_key_pair : Option Bytes → Frames → S → Outcome (Option AppRes × S)
  wpc_set_network_key_pair none frames s = ok (some app_res_internal_error, s)
  wpc_set_network_key_pair (some key_pair) frames s = set_key_pair 26 key_pair frames s

  unfoldable pub wpc_set_management_key_pair :
      Option Bytes → Frames → S → Outcome (Option AppRes × S)
  wpc_set_management_key_pair none frames s = ok (some app_res_internal_error, s)
  wpc_set_management_key_pair (some key_pair) frames s = set_key_pair 27 key_pair frames s
