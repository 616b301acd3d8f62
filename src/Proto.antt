-- ===== src/Proto.antt =====
-- lib/wpc_proto/internal_modules/common.c: the error codes of the protobuf interface.
mod Tests
use c_mesh_api.Wpc.Errors.{
  AppRes, app_res_ok, app_res_stack_not_stopped, app_res_stack_already_stopped,
  app_res_stack_already_started, app_res_invalid_value, app_res_role_not_set,
  app_res_node_add_not_set, app_res_net_add_not_set, app_res_net_chan_not_set,
  app_res_stack_is_stopped, app_res_node_not_a_sink, app_res_unknown_dest, app_res_no_config,
  app_res_already_registered, app_res_not_registered, app_res_attribute_not_set,
  app_res_access_denied, app_res_data_error, app_res_no_scratchpad_start,
  app_res_no_valid_scratchpad, app_res_not_a_sink, app_res_out_of_memory,
  app_res_invalid_diag_interval, app_res_invalid_seq, app_res_invalid_start_address,
  app_res_invalid_number_of_bytes, app_res_invalid_scratchpad, app_res_invalid_reboot_delay,
  app_res_internal_error, app_res_operation_not_supported,
}
use c_mesh_api.Prelude.{
  ℕ, List, ◌∷◌, [], ok, fault, Outcome, if◌then◌else◌, ltb, ◌*◌, length, get_or,
}

-- `wp_ErrorCode`, as far as the table names it.
pub data ErrorCode : Type 0 where
  error_code_ok : ErrorCode
  error_code_invalid_sink_state : ErrorCode
  error_code_invalid_param : ErrorCode
  error_code_invalid_role : ErrorCode
  error_code_invalid_network_address : ErrorCode
  error_code_invalid_network_channel : ErrorCode
  error_code_invalid_dest_address : ErrorCode
  error_code_invalid_app_config : ErrorCode
  error_code_internal_error : ErrorCode
  error_code_access_denied : ErrorCode
  error_code_invalid_data_payload : ErrorCode
  error_code_invalid_scratchpad : ErrorCode
  error_code_sink_out_of_memory : ErrorCode
  error_code_invalid_diag_interval : ErrorCode
  error_code_invalid_sequence_number : ErrorCode
  error_code_invalid_reboot_delay : ErrorCode

abbrev pub app_error_code_lut : List ErrorCode
app_error_code_lut =
    error_code_ok ∷ error_code_invalid_sink_state ∷ error_code_invalid_sink_state
    ∷ error_code_invalid_sink_state ∷ error_code_invalid_param ∷ error_code_invalid_role
    ∷ error_code_invalid_sink_state ∷ error_code_invalid_network_address
    ∷ error_code_invalid_network_channel ∷ error_code_invalid_sink_state ∷ error_code_invalid_role
    ∷ error_code_invalid_dest_address ∷ error_code_invalid_app_config ∷ error_code_internal_error
    ∷ error_code_invalid_param ∷ error_code_invalid_param ∷ error_code_access_denied
    ∷ error_code_invalid_data_payload ∷ error_code_invalid_sink_state
    ∷ error_code_invalid_scratchpad ∷ error_code_invalid_role ∷ error_code_sink_out_of_memory
    ∷ error_code_invalid_diag_interval ∷ error_code_invalid_sequence_number
    ∷ error_code_invalid_param ∷ error_code_invalid_param ∷ error_code_invalid_scratchpad
    ∷ error_code_invalid_reboot_delay ∷ error_code_internal_error ∷ []

-- The number of a constant of `app_res_e`.
abbrev pub app_res_number : AppRes → ℕ
app_res_number app_res_ok = 0
app_res_number app_res_stack_not_stopped = 1
app_res_number app_res_stack_already_stopped = 2
app_res_number app_res_stack_already_started = 3
app_res_number app_res_invalid_value = 4
app_res_number app_res_role_not_set = 5
app_res_number app_res_node_add_not_set = 6
app_res_number app_res_net_add_not_set = 7
app_res_number app_res_net_chan_not_set = 8
app_res_number app_res_stack_is_stopped = 9
app_res_number app_res_node_not_a_sink = 10
app_res_number app_res_unknown_dest = 11
app_res_number app_res_no_config = 12
app_res_number app_res_already_registered = 13
app_res_number app_res_not_registered = 14
app_res_number app_res_attribute_not_set = 15
app_res_number app_res_access_denied = 16
app_res_number app_res_data_error = 17
app_res_number app_res_no_scratchpad_start = 18
app_res_number app_res_no_valid_scratchpad = 19
app_res_number app_res_not_a_sink = 20
app_res_number app_res_out_of_memory = 21
app_res_number app_res_invalid_diag_interval = 22
app_res_number app_res_invalid_seq = 23
app_res_number app_res_invalid_start_address = 24
app_res_number app_res_invalid_number_of_bytes = 25
app_res_number app_res_invalid_scratchpad = 26
app_res_number app_res_invalid_reboot_delay = 27
app_res_number app_res_internal_error = 28
app_res_number app_res_operation_not_supported = 29

-- `sizeof(wp_ErrorCode)`
abbrev pub sizeof_error_code : ℕ
sizeof_error_code = 4

-- The bound is the size of the table in bytes.
unfoldable pub common_convert_error_code : AppRes → Outcome ErrorCode
common_convert_error_code error =
    if ltb (app_res_number error) (sizeof_error_code * length app_error_code_lut)
    then (if ltb (app_res_number error) (length app_error_code_lut)
        then ok (get_or app_error_code_lut (app_res_number error) error_code_internal_error)
        else fault)
    else ok error_code_internal_error
