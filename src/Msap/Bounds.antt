-- ===== src/Msap/Bounds.antt =====
-- All requests of lib/wpc/msap.c together, but msap_stack_start_request, which calls a callback
-- besides.
use c_mesh_api.Msap.Returns.{
  app_config_write-ReturnsOnce, scratchpad_block-ReturnsOnce, item_set-ReturnsOnce,
}
use c_mesh_api.Msap.Reads.{
  bytes_read-ReturnsOnce, block_read-ReturnsOnce, item_get-ReturnsOnce, list_items-ReturnsOnce,
  app_config_read-ReturnsOnce,
}
use c_mesh_api.WpcInternal.{timeout_confirm_ms}
use c_mesh_api.Dsap.Fragment.{frame_size}
use c_mesh_api.Request.Sent.{
  Answers, ReturnsOnce, plain_request-ReturnsOnce, reading_request-ReturnsOnce,
}
use c_mesh_api.Msap.Sent.{
  MsapRequest, IsValid, msap_request, without_output-ReturnsOnce, app_config_write, app_config_read,
  with_output-ReturnsOnce, config_read, sink_cost_write, cost_read, bytes_read, scratchpad_start,
  scratchpad_block, target_write, target_values, block_read, item_set, item_get, list_items,
  stack_stop, sink_cost_read, get_nbors, scan_nbors, scratchpad_status, scratchpad_update,
  scratchpad_clear, target_read,
}
use c_mesh_api.Request.{Requests, Frames, le32, le16}
use c_mesh_api.Msap.Scratchpad.{
  msap_scratchpad_start_request, msap_scratchpad_update_request, msap_scratchpad_clear_request,
  msap_scratchpad_target_write_request, msap_scratchpad_target_read_request,
  scratchpad_start_timeout_ms,
}
use c_mesh_api.Msap.ConfigData.{
  msap_stack_stop_request, msap_sink_cost_write_request, msap_sink_cost_read_request,
  msap_scan_nbors_request,
}
use c_mesh_api.Prelude.{◌++◌, Bytes, List, ◌≤◌, length, [], arith, ◌∷◌}

-- If the caller's arrays are as long as the sizes say, the size given for the application's
-- configuration is at most 80, the frames of the request and of the confirmation have room for a
-- payload of 199 bytes and each request is answered, with any confirmation, or ends the process, then each of the 18 functions in `MsapRequest` returns, without an
-- access out of bounds, and either sends nothing or sends one frame, which holds as many bytes as
-- its payload length announces.
pub msap_request-ReturnsOnce :
    {S : Type 0} (requests : Requests S) (log : S → List Bytes) (r : MsapRequest) (frames : Frames)
    (s : S)
    → Answers requests log
    → IsValid r
    → frame_size ≤ length frames.request
    → frame_size ≤ length frames.confirm
    → ReturnsOnce requests log frames s (msap_request requests r frames s)
unfolding msap_stack_stop_request msap_sink_cost_write_request msap_sink_cost_read_request
    msap_scan_nbors_request msap_scratchpad_start_request msap_scratchpad_update_request
    msap_scratchpad_clear_request msap_scratchpad_target_write_request
    msap_scratchpad_target_read_request
msap_request-ReturnsOnce requests log stack_stop frames s answers valid room fit =
    without_output-ReturnsOnce requests log frames s _ (
      plain_request-ReturnsOnce requests log answers 0x06 0 [] timeout_confirm_ms frames s
        (omega arith) (omega arith))
msap_request-ReturnsOnce requests log (app_config_write seq interval config size) frames s answers
      valid room fit =
    without_output-ReturnsOnce requests log frames s _ (
      app_config_write-ReturnsOnce requests log answers frames s room seq interval config size
        valid.0 valid.1)
msap_request-ReturnsOnce requests log (app_config_read size) frames s answers valid room fit =
    with_output-ReturnsOnce requests log config_read frames s _
      (app_config_read-ReturnsOnce requests log answers frames s room fit size)
msap_request-ReturnsOnce requests log (sink_cost_write cost) frames s answers valid room fit =
    without_output-ReturnsOnce requests log frames s _ (
      plain_request-ReturnsOnce requests log answers 0x38 1 (cost ∷ []) timeout_confirm_ms frames s
        (omega arith) (omega arith))
msap_request-ReturnsOnce requests log sink_cost_read frames s answers valid room fit =
    with_output-ReturnsOnce requests log cost_read frames s _ (
      reading_request-ReturnsOnce requests log answers _ 0x39 0 [] frames s (omega arith)
        (omega arith))
msap_request-ReturnsOnce requests log get_nbors frames s answers valid room fit =
    with_output-ReturnsOnce requests log bytes_read frames s _
      ((bytes_read-ReturnsOnce requests log answers frames s room fit).0)
msap_request-ReturnsOnce requests log scan_nbors frames s answers valid room fit =
    without_output-ReturnsOnce requests log frames s _ (
      plain_request-ReturnsOnce requests log answers 0x21 0 [] timeout_confirm_ms frames s
        (omega arith) (omega arith))
msap_request-ReturnsOnce requests log (scratchpad_start len seq) frames s answers valid room fit =
    without_output-ReturnsOnce requests log frames s _ (
      plain_request-ReturnsOnce requests log answers 0x17 5 (le32 len ++ (seq ∷ []))
        scratchpad_start_timeout_ms frames s (omega arith) (omega arith))
msap_request-ReturnsOnce requests log (scratchpad_block start_address number_of_bytes bytes) frames
      s answers valid room fit =
    without_output-ReturnsOnce requests log frames s _ (
      scratchpad_block-ReturnsOnce requests log answers frames s room start_address number_of_bytes
        bytes valid)
msap_request-ReturnsOnce requests log scratchpad_status frames s answers valid room fit =
    with_output-ReturnsOnce requests log bytes_read frames s _
      ((bytes_read-ReturnsOnce requests log answers frames s room fit).1)
msap_request-ReturnsOnce requests log scratchpad_update frames s answers valid room fit =
    without_output-ReturnsOnce requests log frames s _ (
      plain_request-ReturnsOnce requests log answers 0x1A 0 [] timeout_confirm_ms frames s
        (omega arith) (omega arith))
msap_request-ReturnsOnce requests log scratchpad_clear frames s answers valid room fit =
    without_output-ReturnsOnce requests log frames s _ (
      plain_request-ReturnsOnce requests log answers 0x1B 0 [] scratchpad_start_timeout_ms frames s
        (omega arith) (omega arith))
msap_request-ReturnsOnce requests log (target_write t) frames s answers valid room fit =
    without_output-ReturnsOnce requests log frames s _ (
      plain_request-ReturnsOnce requests log answers 0x26 5
        ((t.target_sequence ∷ le16 t.target_crc) ++ (t.action ∷ t.param ∷ [])) timeout_confirm_ms
        frames s (omega arith) (omega arith))
msap_request-ReturnsOnce requests log target_read frames s answers valid room fit =
    with_output-ReturnsOnce requests log target_values frames s _ (
      reading_request-ReturnsOnce requests log answers _ 0x27 0 [] frames s (omega arith)
        (omega arith))
msap_request-ReturnsOnce requests log (block_read start_address number_of_bytes capacity) frames s
      answers valid room fit =
    with_output-ReturnsOnce requests log bytes_read frames s _ (
      block_read-ReturnsOnce requests log answers frames s room fit start_address number_of_bytes
        capacity valid)
msap_request-ReturnsOnce requests log (item_set endpoint payload payload_size) frames s answers
      valid room fit =
    without_output-ReturnsOnce requests log frames s _
      (item_set-ReturnsOnce requests log answers frames s room endpoint payload payload_size valid)
msap_request-ReturnsOnce requests log (item_get endpoint payload_capacity) frames s answers valid
      room fit =
    with_output-ReturnsOnce requests log bytes_read frames s _
      (item_get-ReturnsOnce requests log answers frames s room fit endpoint payload_capacity)
msap_request-ReturnsOnce requests log (list_items command) frames s answers valid room fit =
    with_output-ReturnsOnce requests log bytes_read frames s _
      (list_items-ReturnsOnce requests log answers frames s room fit command)
