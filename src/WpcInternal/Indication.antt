-- ===== src/WpcInternal/Indication.antt =====
-- The indications of lib/wpc/wpc_internal.c, and the settings of the file.
use c_mesh_api.Slip.Codec.{wrong_param_error, timeout_error}
use c_mesh_api.Prelude.{
  Bytes, Bool, Option, ℕ, Outcome, if◌then◌else◌, some, ℤ, ◌%◌, none, ok, ◌==◌, ◌>>=◌, is_pos, pos,
  ◌&&◌, ◌∷◌, [], is_neg, ltb, suc, get_or, set, true, ◌||◌, zero, ◌*◌, false, ◌+◌, ◌^◌, not,
}
use c_mesh_api.WpcInternal.{
  sizeof_frame, Bytes, Link, Statics, Answer, primitive_id, timeout_confirm_ms, answered,
  send_request_locked, timeout_indication_ms, max_frame_size, exited, msap_indication_poll_request,
  sap_confirm_offset, frame_id_of,
}

-- The handlers that `dispatch_indication` calls.
pub data Handler : Type 0 where
  dsap_data_tx_indication_handler : Handler
  dsap_data_rx_indication_handler : Handler
  dsap_data_rx_frag_indication_handler : Handler
  msap_stack_state_indication_handler : Handler
  msap_app_config_data_rx_indication_handler : Handler
  msap_scan_nbors_indication_handler : Handler
  msap_config_data_item_rx_indication_handler : Handler

-- The `switch` on the primitive id; an unknown one is logged and dropped.
unfoldable pub dispatch_indication : Bytes → Option Handler
dispatch_indication frame =
    if primitive_id frame == 2
    then some dsap_data_tx_indication_handler
    else if primitive_id frame == 3
    then some dsap_data_rx_indication_handler
    else if primitive_id frame == 16
    then some dsap_data_rx_frag_indication_handler
    else if primitive_id frame == 7
    then some msap_stack_state_indication_handler
    else if primitive_id frame == 63
    then some msap_app_config_data_rx_indication_handler
    else if primitive_id frame == 34
    then some msap_scan_nbors_indication_handler
    else if primitive_id frame == 49
    then some msap_config_data_item_rx_indication_handler
    else none

module _ {W : Type 0} (link : Link W) where
  -- The result of `Slip_send_buffer` is not used.
  unfoldable pub send_response_to_stack : ℕ → ℕ → Bool → W → Outcome W
  send_response_to_stack primitive frame_id more_ind w = do
    (sent, w') ← link.send (primitive % 256 ∷ frame_id ∷ 1 ∷ (if more_ind then 1 else 0) ∷ []) w
    ok w'

  -- `frame` is the local variable with any contents, and `cb_locked` the receiver.
  unfoldable pub handle_indication : (Bytes → ℕ → W → W) → Bytes → Bool → W → Outcome (ℤ × W)
  handle_indication cb_locked frame last_one w = do
    (res, frame', w1) ← link.receive frame sizeof_frame timeout_indication_ms w
    if is_neg res || is_pos res 0 then ok (timeout_error, w1) else (do
      let (timestamp, w2) = link.epoch w1
      let remaining_ind = get_or frame' 3 0
      w3 ←
          send_response_to_stack (primitive_id frame' + sap_confirm_offset) (frame_id_of frame')
            (ltb 0 remaining_ind && not last_one) w2
      ok (pos remaining_ind, cb_locked frame' timestamp w3))

  -- The loop of `get_indication_locked` with `max_ind` and `remaining_ind`.
  unfoldable pub indication_loop : (Bytes → ℕ → W → W) → Bytes → ℕ → ℤ → W → Outcome (ℤ × W)
  indication_loop cb_locked frame zero remaining_ind w =
      ok (if is_pos remaining_ind 0 then pos 0 else pos 1, w)
  indication_loop cb_locked frame (suc max_ind) remaining_ind w = elim (is_pos remaining_ind 0) [
    | true ↦ ok (pos 0, w)
    | false ↦ (do
      (remaining, w') ← handle_indication cb_locked frame (max_ind == 0) w
      if is_neg remaining
          then ok (remaining, w')
          else indication_loop cb_locked frame max_ind remaining w')
  ]

  -- What follows the answer to the poll request.
  unfoldable pub poll_answer :
      (Bytes → ℕ → W → W) → Bytes → ℕ → Answer → Statics W → Outcome (Option ℤ × Statics W)
  poll_answer cb_locked frame max_ind exited s = ok (none, s)
  poll_answer cb_locked frame max_ind (answered ret confirm) s =
      if is_neg ret
      then ok (some ret, s)
      else if get_or confirm 3 0 == 0
      then ok (some (pos 0), s)
      else (do
        (res, w) ← indication_loop cb_locked frame max_ind (pos 1) s.world
        ok (some res, record s { world = w }))

  -- `get_indication_locked`, with the contents of the local frames and of the local array of the
  -- request; `none` if the process ends.
  unfoldable pub get_indication_locked :
      (Bytes → ℕ → W → W) → (ℕ → Bytes) → ℕ → Statics W → Outcome (Option ℤ × Statics W)
  get_indication_locked cb_locked uninit max_ind s =
      if max_ind == 0 then ok (some wrong_param_error, s) else (do
        (answer, s') ←
            send_request_locked link (uninit max_frame_size)
              (set (set (uninit sizeof_frame) 0 msap_indication_poll_request) 2 0)
              (uninit sizeof_frame) timeout_confirm_ms s
        poll_answer cb_locked (uninit sizeof_frame) max_ind answer s')

  unfoldable pub get_indication :
      (Bytes → ℕ → W → W) → (ℕ → Bytes) → ℕ → Statics W → Outcome (Option ℤ × Statics W)
  get_indication cb_locked uninit max_ind s = do
    let s1 = record s { world = link.lock s.world }
    (res, s2) ←
        (if s.disabled_poll_request
          then ok (some (pos 0), s1)
          else get_indication_locked cb_locked uninit max_ind s1)
    elim res [
      | none ↦ ok (none, s2)
      | some r ↦ ok (some r, record s2 { world = link.unlock s2.world })
    ]

  unfoldable pub send_request_timeout :
      Bytes → Bytes → Bytes → ℕ → Statics W → Outcome (Answer × Statics W)
  send_request_timeout buffer request confirm timeout_ms s = do
    (answer, s') ←
        send_request_locked link buffer request confirm timeout_ms
          (record s { world = link.lock s.world })
    elim answer [
      | exited ↦ ok (exited, s')
      | answered r c ↦ ok (answered r c, record s' { world = link.unlock s'.world })
    ]

  unfoldable pub send_request : Bytes → Bytes → Bytes → Statics W → Outcome (Answer × Statics W)
  send_request buffer request confirm s =
      send_request_timeout buffer request confirm timeout_confirm_ms s

  unfoldable pub disable_poll_request : Bool → Statics W → Statics W
  disable_poll_request disabled s = record s { disabled_poll_request = disabled }

  -- The product is an `unsigned int`.
  unfoldable pub set_timeout_s_no_answer : ℕ → Statics W → Bool × Statics W
  set_timeout_s_no_answer duration_s s =
      let s' : Statics W =
        if s.timeout_no_answer_ms == 0 && ltb 0 duration_s
        then (let (now, w) = link.monotonic s.world in
            record s { last_successful_answer_ts = now; world = w })
        else s in
      (true, record s' { timeout_no_answer_ms = duration_s * 1000 % 2 ^ 32 })

  -- `WPC_Int_set_mtu`, with the value that `WPC_get_mtu` gives if it succeeds.
  unfoldable pub set_mtu : Option ℕ → Statics W → Statics W
  set_mtu (some mtu) s = record s { mtu = mtu }
  set_mtu none s = s

  unfoldable pub get_mtu : Statics W → ℕ
  get_mtu s = s.mtu % 256
