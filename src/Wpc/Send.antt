-- ===== src/Wpc/Send.antt =====
-- The sending of data and the registrations in lib/wpc/wpc.c, in the build without
-- `REGISTER_DATA_PER_ENDPOINT`.
use c_mesh_api.Util.{ms_to_internal_time}
use c_mesh_api.Wpc.Scratchpad.{encoded32}
use c_mesh_api.Msap.Callbacks.{
  Registry, msap_register_for_app_config, msap_register_for_config_data_item,
  msap_register_for_scan_neighbors_done, msap_register_for_stack_status,
  msap_unregister_from_app_config, msap_unregister_from_config_data_item,
  msap_unregister_from_scan_neighbors_done, msap_unregister_from_stack_status,
}
use c_mesh_api.Reassembly.{InternalFragment, FullPacket}
use c_mesh_api.Wpc.Errors.{
  AppRes, app_res_ok, app_res_access_denied, app_res_already_registered, app_res_invalid_value,
  app_res_not_registered, convert_error_code, send_data_error_code_lut,
}
use c_mesh_api.Wpc.Data.{encoded16}
use c_mesh_api.Reassembly.Containers.{UtList, UtHash}
use c_mesh_api.Dsap.Receive.{
  Receiver, dsap_register_for_data, dsap_unregister_for_data, dsap_set_max_fragment_duration,
}
use c_mesh_api.Request.{Requests, Frames}
use c_mesh_api.Dsap.Transmit.{Message, Sender, dsap_data_tx_request}
use c_mesh_api.Prelude.{
  ℕ, false, Bytes, ok, Option, Bool, Outcome, if◌then◌else◌, ◌%◌, ◌>>=◌, ◌^◌, ◌==◌,
}

-- `app_message_t`
pub record AppMessage (C : Type 0) : Type 0 where
  pub bytes : Bytes
  pub dst_addr : ℕ
  pub on_data_sent_cb : Option C
  pub buffering_delay : ℕ
  pub pdu_id : ℕ
  pub num_bytes : ℕ
  pub src_ep : ℕ
  pub dst_ep : ℕ
  pub hop_limit : ℕ
  pub qos : ℕ
  pub is_unack_csma_ca : Bool

-- The arguments of `dsap_data_tx_request`.
unfoldable pub message_of : {C : Type 0} → AppMessage C → Message C
message_of m = record {
  buffer = m.bytes;
  len = m.num_bytes;
  pdu_id = encoded16 m.pdu_id;
  dest_add = encoded32 m.dst_addr;
  qos = if m.qos % 2 ^ 8 == 1 then 1 else 0;
  src_ep = m.src_ep;
  dest_ep = m.dst_ep;
  on_data_sent_cb = m.on_data_sent_cb;
  buffering_delay = encoded32 (ms_to_internal_time m.buffering_delay);
  is_unack_csma_ca = m.is_unack_csma_ca;
  hop_limit = m.hop_limit;
}

module _ {C S : Type 0} (requests : Requests S) where
  unfoldable pub wpc_send_data_with_options :
      AppMessage C → Frames → Sender C S → Outcome (Option AppRes × Sender C S)
  wpc_send_data_with_options m frames t = do
    (res, t') ← dsap_data_tx_request requests (message_of m) frames t
    ok (convert_error_code send_data_error_code_lut res, t')

  unfoldable pub wpc_send_data :
      Bytes
      → ℕ
      → ℕ
      → ℕ
      → ℕ
      → ℕ
      → ℕ
      → Option C
      → ℕ
      → Frames
      → Sender C S
      → Outcome (Option AppRes × Sender C S)
  wpc_send_data bytes num_bytes pdu_id dst_addr qos src_ep dst_ep on_data_sent_cb buffering_delay =
      wpc_send_data_with_options (record {
        bytes = bytes;
        dst_addr = dst_addr;
        on_data_sent_cb = on_data_sent_cb;
        buffering_delay = buffering_delay;
        pdu_id = pdu_id;
        num_bytes = num_bytes;
        src_ep = src_ep;
        dst_ep = dst_ep;
        hop_limit = 0;
        qos = qos;
        is_unack_csma_ca = false;
      })

-- The callbacks for data.
module _ {C D Table : Type 0} where
  unfoldable pub wpc_register_for_data : D → Receiver C D Table → AppRes × Receiver C D Table
  wpc_register_for_data cb t =
      let (done, t') = dsap_register_for_data cb t in
      (if done then app_res_ok else app_res_invalid_value, t')

  unfoldable pub wpc_unregister_for_data : Receiver C D Table → AppRes × Receiver C D Table
  wpc_unregister_for_data t =
      let (done, t') = dsap_unregister_for_data t in
      (if done then app_res_ok else app_res_invalid_value, t')

module _ {C D : Type 0} (ll : UtList InternalFragment) (hh : UtHash (FullPacket ll.Head)) where
  unfoldable pub wpc_set_max_fragment_duration :
      ℕ → Receiver C D hh.Table → AppRes × Receiver C D hh.Table
  wpc_set_max_fragment_duration duration_s t =
      let (done, t') = dsap_set_max_fragment_duration ll hh duration_s t in
      (if done then app_res_ok else app_res_access_denied, t')

-- The callbacks of the management service.
module _ {F S : Type 0} (requests : Requests S) where
  unfoldable pub wpc_register_for_app_config_data : F → Registry F S → AppRes × Registry F S
  wpc_register_for_app_config_data cb t =
      let (done, t') = msap_register_for_app_config requests cb t in
      (if done then app_res_ok else app_res_already_registered, t')

  unfoldable pub wpc_unregister_from_app_config_data : Registry F S → AppRes × Registry F S
  wpc_unregister_from_app_config_data t =
      let (done, t') = msap_unregister_from_app_config requests t in
      (if done then app_res_ok else app_res_not_registered, t')

  unfoldable pub wpc_register_for_scan_neighbors_done : F → Registry F S → AppRes × Registry F S
  wpc_register_for_scan_neighbors_done cb t =
      let (done, t') = msap_register_for_scan_neighbors_done requests cb t in
      (if done then app_res_ok else app_res_invalid_value, t')

  unfoldable pub wpc_unregister_from_scan_neighbors_done : Registry F S → AppRes × Registry F S
  wpc_unregister_from_scan_neighbors_done t =
      let (done, t') = msap_unregister_from_scan_neighbors_done requests t in
      (if done then app_res_ok else app_res_invalid_value, t')

  unfoldable pub wpc_register_for_stack_status : F → Registry F S → AppRes × Registry F S
  wpc_register_for_stack_status cb t =
      let (done, t') = msap_register_for_stack_status requests cb t in
      (if done then app_res_ok else app_res_invalid_value, t')

  unfoldable pub wpc_unregister_from_stack_status : Registry F S → AppRes × Registry F S
  wpc_unregister_from_stack_status t =
      let (done, t') = msap_unregister_from_stack_status requests t in
      (if done then app_res_ok else app_res_invalid_value, t')

  unfoldable pub wpc_register_for_config_data_item : F → Registry F S → AppRes × Registry F S
  wpc_register_for_config_data_item cb t =
      let (done, t') = msap_register_for_config_data_item requests cb t in
      (if done then app_res_ok else app_res_invalid_value, t')

  unfoldable pub wpc_unregister_from_config_data_item : Registry F S → AppRes × Registry F S
  wpc_unregister_from_config_data_item t =
      let (done, t') = msap_unregister_from_config_data_item requests t in
      (if done then app_res_ok else app_res_invalid_value, t')
