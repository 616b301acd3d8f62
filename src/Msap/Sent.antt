-- ===== src/Msap/Sent.antt =====
-- The requests of lib/wpc/msap.c, as data, and what each sends.
use c_mesh_api.Request.Sent.{ReturnsOnce}
use c_mesh_api.Msap.ConfigData.{
  AppConfig, maximum_app_config_size, msap_stack_stop_request, msap_app_config_data_write_request,
  msap_app_config_data_read_request, msap_sink_cost_write_request, msap_sink_cost_read_request,
  msap_get_nbors_request, msap_scan_nbors_request, msap_config_data_item_set_request,
  msap_config_data_item_get_request, msap_config_data_item_list_items_request,
}
use c_mesh_api.Request.{Requests, Frames}
use c_mesh_api.Msap.Scratchpad.{
  Target, msap_scratchpad_start_request, msap_scratchpad_block_request,
  msap_scratchpad_status_request, msap_scratchpad_update_request, msap_scratchpad_clear_request,
  msap_scratchpad_target_write_request, msap_scratchpad_target_read_request,
  msap_scratchpad_block_read_request,
}
use c_mesh_api.Prelude.{ℕ, Bytes, Option, ◌≤◌, List, Outcome, length, ℤ, ◌>>=◌, ok, refl}

-- A call of one of the functions, with its arguments.
pub data MsapRequest : Type 0 where
  stack_stop : MsapRequest
  app_config_write : ℕ → ℕ → Bytes → ℕ → MsapRequest
  app_config_read : ℕ → MsapRequest
  sink_cost_write : ℕ → MsapRequest
  sink_cost_read : MsapRequest
  get_nbors : MsapRequest
  scan_nbors : MsapRequest
  scratchpad_start : ℕ → ℕ → MsapRequest
  scratchpad_block : ℕ → ℕ → Bytes → MsapRequest
  scratchpad_status : MsapRequest
  scratchpad_update : MsapRequest
  scratchpad_clear : MsapRequest
  target_write : Target → MsapRequest
  target_read : MsapRequest
  block_read : ℕ → ℕ → ℕ → MsapRequest
  item_set : ℕ → Bytes → ℕ → MsapRequest
  item_get : ℕ → ℕ → MsapRequest
  list_items : ℕ → MsapRequest

-- The outputs of the functions that read.
pub data MsapOutput : Type 0 where
  no_output : MsapOutput
  config_read : Option AppConfig → MsapOutput
  cost_read : Option ℕ → MsapOutput
  bytes_read : Option Bytes → MsapOutput
  target_values : Option Target → MsapOutput

-- The size is the number of bytes that the caller's array has, at least, and at most what the
-- request has room for where the function does not test it.
abbrev pub IsValid : MsapRequest → Type 0
IsValid (app_config_write seq interval config size) =
    (size ≤ length config) × (size ≤ maximum_app_config_size)
IsValid (scratchpad_block start_address number_of_bytes bytes) = number_of_bytes ≤ length bytes
IsValid (block_read start_address number_of_bytes capacity) = number_of_bytes ≤ capacity
IsValid (item_set endpoint payload payload_size) = payload_size ≤ length payload
IsValid _ = Unit

module _ {S : Type 0} (requests : Requests S) where
  abbrev with_output :
      {A : Type 0}
      → (Option A → MsapOutput)
      → Outcome ((Option ℤ × Option A) × S)
      → Outcome ((Option ℤ × MsapOutput) × S)
  with_output out o = do (r, s') ← o; ok ((r.0, out r.1), s')

  abbrev without_output : Outcome (Option ℤ × S) → Outcome ((Option ℤ × MsapOutput) × S)
  without_output o = do (r, s') ← o; ok ((r, no_output), s')

  abbrev pub msap_request : MsapRequest → Frames → S → Outcome ((Option ℤ × MsapOutput) × S)
  msap_request stack_stop frames s = without_output (msap_stack_stop_request requests frames s)
  msap_request (app_config_write seq interval config size) frames s =
      without_output (msap_app_config_data_write_request requests seq interval config size frames s)
  msap_request (app_config_read size) frames s =
      with_output config_read (msap_app_config_data_read_request requests size frames s)
  msap_request (sink_cost_write cost) frames s =
      without_output (msap_sink_cost_write_request requests cost frames s)
  msap_request sink_cost_read frames s =
      with_output cost_read (msap_sink_cost_read_request requests frames s)
  msap_request get_nbors frames s =
      with_output bytes_read (msap_get_nbors_request requests frames s)
  msap_request scan_nbors frames s = without_output (msap_scan_nbors_request requests frames s)
  msap_request (scratchpad_start len seq) frames s =
      without_output (msap_scratchpad_start_request requests len seq frames s)
  msap_request (scratchpad_block start_address number_of_bytes bytes) frames s =
      without_output
        (msap_scratchpad_block_request requests start_address number_of_bytes bytes frames s)
  msap_request scratchpad_status frames s =
      with_output bytes_read (msap_scratchpad_status_request requests frames s)
  msap_request scratchpad_update frames s =
      without_output (msap_scratchpad_update_request requests frames s)
  msap_request scratchpad_clear frames s =
      without_output (msap_scratchpad_clear_request requests frames s)
  msap_request (target_write t) frames s =
      without_output (msap_scratchpad_target_write_request requests t frames s)
  msap_request target_read frames s =
      with_output target_values (msap_scratchpad_target_read_request requests frames s)
  msap_request (block_read start_address number_of_bytes capacity) frames s =
      with_output bytes_read (
        msap_scratchpad_block_read_request requests start_address number_of_bytes capacity frames s)
  msap_request (item_set endpoint payload payload_size) frames s =
      without_output
        (msap_config_data_item_set_request requests endpoint payload payload_size frames s)
  msap_request (item_get endpoint payload_capacity) frames s =
      with_output bytes_read
        (msap_config_data_item_get_request requests endpoint payload_capacity frames s)
  msap_request (list_items command) frames s =
      with_output bytes_read (msap_config_data_item_list_items_request requests command frames s)

  module _ (log : S → List Bytes) where
    pub with_output-ReturnsOnce :
        {A : Type 0} (out : Option A → MsapOutput) (frames : Frames) (s : S)
        (o : Outcome ((Option ℤ × Option A) × S))
        → ReturnsOnce requests log frames s o
        → ReturnsOnce requests log frames s (with_output out o)
    with_output-ReturnsOnce out frames s o (a, s', e, once) = ((a.0, out a.1), s', rw e refl, once)

    pub without_output-ReturnsOnce :
        (frames : Frames) (s : S) (o : Outcome (Option ℤ × S))
        → ReturnsOnce requests log frames s o
        → ReturnsOnce requests log frames s (without_output o)
    without_output-ReturnsOnce frames s o (a, s', e, once) = ((a, no_output), s', rw e refl, once)
