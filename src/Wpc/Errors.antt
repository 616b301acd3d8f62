-- ===== src/Wpc/Errors.antt =====
-- The results of lib/api/wpc.h, and the tables of lib/wpc/wpc.c that give them for the results of the
-- node.
use c_mesh_api.Prelude.{
  List, ◌∷◌, [], Option, none, some, Bool, true, false, ℤ, pos, negsuc, if◌then◌else◌, ltb, length,
  get_or,
}

-- `app_res_e`
pub data AppRes : Type 0 where
  app_res_ok : AppRes
  app_res_stack_not_stopped : AppRes
  app_res_stack_already_stopped : AppRes
  app_res_stack_already_started : AppRes
  app_res_invalid_value : AppRes
  app_res_role_not_set : AppRes
  app_res_node_add_not_set : AppRes
  app_res_net_add_not_set : AppRes
  app_res_net_chan_not_set : AppRes
  app_res_stack_is_stopped : AppRes
  app_res_node_not_a_sink : AppRes
  app_res_unknown_dest : AppRes
  app_res_no_config : AppRes
  app_res_already_registered : AppRes
  app_res_not_registered : AppRes
  app_res_attribute_not_set : AppRes
  app_res_access_denied : AppRes
  app_res_data_error : AppRes
  app_res_no_scratchpad_start : AppRes
  app_res_no_valid_scratchpad : AppRes
  app_res_not_a_sink : AppRes
  app_res_out_of_memory : AppRes
  app_res_invalid_diag_interval : AppRes
  app_res_invalid_seq : AppRes
  app_res_invalid_start_address : AppRes
  app_res_invalid_number_of_bytes : AppRes
  app_res_invalid_scratchpad : AppRes
  app_res_invalid_reboot_delay : AppRes
  app_res_internal_error : AppRes
  app_res_operation_not_supported : AppRes

-- `res == APP_RES_OK`
abbrev pub is_app_res_ok : AppRes → Bool
is_app_res_ok app_res_ok = true
is_app_res_ok _ = false

abbrev pub att_read_error_code_lut : List AppRes
att_read_error_code_lut =
    app_res_ok ∷ app_res_internal_error ∷ app_res_stack_not_stopped ∷ app_res_internal_error
    ∷ app_res_attribute_not_set ∷ app_res_access_denied ∷ app_res_access_denied ∷ []

abbrev pub att_write_error_code_lut : List AppRes
att_write_error_code_lut =
    app_res_ok ∷ app_res_internal_error ∷ app_res_stack_not_stopped ∷ app_res_internal_error
    ∷ app_res_invalid_value ∷ app_res_internal_error ∷ app_res_access_denied ∷ []

abbrev pub fact_reset_error_code_lut : List AppRes
fact_reset_error_code_lut =
    app_res_ok ∷ app_res_stack_not_stopped ∷ app_res_internal_error ∷ app_res_access_denied ∷ []

abbrev pub app_config_read_error_code_lut : List AppRes
app_config_read_error_code_lut = app_res_ok ∷ app_res_no_config ∷ app_res_access_denied ∷ []

abbrev pub app_config_write_error_code_lut : List AppRes
app_config_write_error_code_lut =
    app_res_ok ∷ app_res_node_not_a_sink ∷ app_res_invalid_diag_interval ∷ app_res_invalid_seq
    ∷ app_res_access_denied ∷ []

abbrev pub sink_cost_error_code_lut : List AppRes
sink_cost_error_code_lut = app_res_ok ∷ app_res_node_not_a_sink ∷ app_res_access_denied ∷ []

abbrev pub scratchpad_local_start_error_code_lut : List AppRes
scratchpad_local_start_error_code_lut =
    app_res_ok ∷ app_res_stack_not_stopped ∷ app_res_invalid_value ∷ app_res_internal_error
    ∷ app_res_access_denied ∷ []

abbrev pub scratchpad_local_block_error_code_lut : List AppRes
scratchpad_local_block_error_code_lut =
    app_res_ok ∷ app_res_ok ∷ app_res_data_error ∷ app_res_stack_not_stopped
    ∷ app_res_no_scratchpad_start ∷ app_res_invalid_start_address ∷ app_res_invalid_number_of_bytes
    ∷ app_res_invalid_scratchpad ∷ []

abbrev pub scratchpad_clear_local_error_code_lut : List AppRes
scratchpad_clear_local_error_code_lut =
    app_res_ok ∷ app_res_stack_not_stopped ∷ app_res_access_denied ∷ []

abbrev pub scratchpad_update_local_error_code_lut : List AppRes
scratchpad_update_local_error_code_lut =
    app_res_ok ∷ app_res_stack_not_stopped ∷ app_res_no_valid_scratchpad ∷ app_res_access_denied
    ∷ []

abbrev pub target_scratchpad_error_code_lut : List AppRes
target_scratchpad_error_code_lut =
    app_res_ok ∷ app_res_node_not_a_sink ∷ app_res_invalid_value ∷ app_res_access_denied ∷ []

abbrev pub scratchpad_local_block_read_error_code_lut : List AppRes
scratchpad_local_block_read_error_code_lut =
    app_res_ok ∷ app_res_stack_not_stopped ∷ app_res_invalid_start_address
    ∷ app_res_invalid_number_of_bytes ∷ app_res_no_valid_scratchpad ∷ app_res_access_denied ∷ []

abbrev pub scan_neighbors_error_code_lut : List AppRes
scan_neighbors_error_code_lut = app_res_ok ∷ app_res_stack_is_stopped ∷ app_res_access_denied ∷ []

abbrev pub send_data_error_code_lut : List AppRes
send_data_error_code_lut =
    app_res_ok ∷ app_res_stack_is_stopped ∷ app_res_invalid_value ∷ app_res_invalid_value
    ∷ app_res_out_of_memory ∷ app_res_unknown_dest ∷ app_res_invalid_value ∷ app_res_internal_error
    ∷ app_res_internal_error ∷ app_res_invalid_value ∷ app_res_access_denied ∷ []

abbrev pub cdc_item_set_error_code_lut : List AppRes
cdc_item_set_error_code_lut =
    app_res_ok ∷ app_res_node_not_a_sink ∷ app_res_invalid_value ∷ app_res_out_of_memory
    ∷ app_res_data_error ∷ app_res_operation_not_supported ∷ []

abbrev pub cdc_item_get_error_code_lut : List AppRes
cdc_item_get_error_code_lut =
    app_res_ok ∷ app_res_invalid_value ∷ app_res_operation_not_supported ∷ []

abbrev pub cdc_get_item_list_error_code_lut : List AppRes
cdc_get_item_list_error_code_lut = app_res_ok ∷ app_res_operation_not_supported ∷ []

-- An error code of the node, or a negative result, as a result of the library. There is none if the
-- process ends.
unfoldable pub convert_error_code : List AppRes → Option ℤ → Option AppRes
convert_error_code lut none = none
convert_error_code lut (some (negsuc n)) = some app_res_internal_error
convert_error_code lut (some (pos error)) = some (
    if ltb error (length lut)
    then get_or lut error app_res_internal_error
    else app_res_internal_error)

-- What a function that reads a value gives: the result, and the value that is written to the
-- caller's variable if the result is that all is well.
unfoldable pub converted {ℓ κ} :
    {A : Type ℓ} {B : Type κ}
    → List AppRes
    → (A → B)
    → Option ℤ × Option A
    → Option AppRes × Option B
converted lut decode (res, value) = (
  convert_error_code lut res,
  elim value [
    | none ↦ none
    | some a ↦ (elim (convert_error_code lut res) [
      | none ↦ none
      | some ret ↦ if is_app_res_ok ret then some (decode a) else none
    ])
  ],
)
