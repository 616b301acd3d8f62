-- ===== src/Msap/Callbacks.antt =====
-- The callbacks of lib/wpc/msap.c: registration, and the indications that call them. `F` is the
-- type of a callback, of any of the four kinds; a call is a value.
use c_mesh_api.WpcInternal.{timeout_confirm_ms}
use c_mesh_api.Attribute.{csap_attribute_read_request}
use c_mesh_api.Request.{Requests, Frames, get16, plain_request}
use c_mesh_api.Prelude.{
  ℕ, none, some, true, false, Bytes, Option, Bool, List, Outcome, [], get_or, ℤ, ◌>>=◌, ◌∷◌, drop,
  ok, if◌then◌else◌, is_pos,
}

-- The static variables of msap.c, and the state below.
pub record Registry (F S : Type 0) : Type 0 where
  pub m_app_conf_cb : Option F
  pub m_scan_neighbor_cb : Option F
  pub m_stack_status_cb : Option F
  pub m_config_data_item_cb : Option F
  pub lower : S

-- The calls of callbacks. The data are the bytes from the pointer on.
pub data CallbackCall (F : Type 0) : Type 0 where
  app_config_received : F → ℕ → ℕ → Bytes → CallbackCall F
  scan_done : F → ℕ → CallbackCall F
  stack_status : F → ℕ → CallbackCall F
  item_received : F → ℕ → Bytes → ℕ → CallbackCall F

-- Attribute 5 of the configuration service.
abbrev pub c_mtu_id : ℕ
c_mtu_id = 5

module _ {S : Type 0} (requests : Requests S) where
  -- `WPC_Int_set_mtu` with `WPC_get_mtu`: the attribute is kept if it can be read.
  unfoldable pub wpc_int_set_mtu : Frames → S → Outcome S
  wpc_int_set_mtu frames s = do
    (read, s') ← csap_attribute_read_request requests c_mtu_id 1 frames s
    ok (requests.set_mtu (elim read.1 [ none ↦ none | some value ↦ some (get_or value 0 0) ]) s')

module _ {F S : Type 0} (requests : Requests S) where
  -- `REGISTER_CB`: the result, `internal_cb` and the state.
  unfoldable pub register_cb : F → Option F → S → Bool × Option F × S
  register_cb cb internal_cb s =
      let s' = requests.lock s in
      let (res, internal_cb') : Bool × Option F = elim internal_cb [
        | some f ↦ (false, some f)
        | none ↦ (true, some cb)
      ] in
      (res, internal_cb', requests.unlock s')

  -- `UNREGISTER_CB`
  unfoldable pub unregister_cb : Option F → S → Bool × Option F × S
  unregister_cb internal_cb s =
      let s' = requests.lock s in
      let res : Bool = elim internal_cb [ some f ↦ true | none ↦ false ] in
      (res, none, requests.unlock s')

  unfoldable pub msap_register_for_app_config : F → Registry F S → Bool × Registry F S
  msap_register_for_app_config cb t =
      let (res, c, s) = register_cb cb t.m_app_conf_cb t.lower in
      (res, record t { m_app_conf_cb = c; lower = s })

  unfoldable pub msap_unregister_from_app_config : Registry F S → Bool × Registry F S
  msap_unregister_from_app_config t =
      let (res, c, s) = unregister_cb t.m_app_conf_cb t.lower in
      (res, record t { m_app_conf_cb = c; lower = s })

  unfoldable pub msap_register_for_scan_neighbors_done : F → Registry F S → Bool × Registry F S
  msap_register_for_scan_neighbors_done cb t =
      let (res, c, s) = register_cb cb t.m_scan_neighbor_cb t.lower in
      (res, record t { m_scan_neighbor_cb = c; lower = s })

  unfoldable pub msap_unregister_from_scan_neighbors_done : Registry F S → Bool × Registry F S
  msap_unregister_from_scan_neighbors_done t =
      let (res, c, s) = unregister_cb t.m_scan_neighbor_cb t.lower in
      (res, record t { m_scan_neighbor_cb = c; lower = s })

  unfoldable pub msap_register_for_stack_status : F → Registry F S → Bool × Registry F S
  msap_register_for_stack_status cb t =
      let (res, c, s) = register_cb cb t.m_stack_status_cb t.lower in
      (res, record t { m_stack_status_cb = c; lower = s })

  unfoldable pub msap_unregister_from_stack_status : Registry F S → Bool × Registry F S
  msap_unregister_from_stack_status t =
      let (res, c, s) = unregister_cb t.m_stack_status_cb t.lower in
      (res, record t { m_stack_status_cb = c; lower = s })

  unfoldable pub msap_register_for_config_data_item : F → Registry F S → Bool × Registry F S
  msap_register_for_config_data_item cb t =
      let (res, c, s) = register_cb cb t.m_config_data_item_cb t.lower in
      (res, record t { m_config_data_item_cb = c; lower = s })

  unfoldable pub msap_unregister_from_config_data_item : Registry F S → Bool × Registry F S
  msap_unregister_from_config_data_item t =
      let (res, c, s) = unregister_cb t.m_config_data_item_cb t.lower in
      (res, record t { m_config_data_item_cb = c; lower = s })

  -- The call of the callback for the stack's status, if there is one.
  abbrev pub status_call : Registry F S → ℕ → List (CallbackCall F)
  status_call t status = elim t.m_stack_status_cb [
    | none ↦ []
    | some cb ↦ stack_status cb status ∷ []
  ]

  -- The result, the calls and the state.
  unfoldable pub msap_stack_start_request :
      ℕ → Frames → Registry F S → Outcome (Option ℤ × List (CallbackCall F) × Registry F S)
  msap_stack_start_request start_option frames t = do
    (res, s) ← plain_request requests 0x05 1 (start_option ∷ []) timeout_confirm_ms frames t.lower
    ok (
      res,
      elim res [ none ↦ [] | some r ↦ if is_pos r 0 then status_call t 0 else [] ],
      record t { lower = s },
    )

  unfoldable pub msap_stack_state_indication_handler :
      Bytes → Frames → Registry F S → Outcome (List (CallbackCall F) × Registry F S)
  msap_stack_state_indication_handler frame frames t = do
    s ← wpc_int_set_mtu requests frames t.lower
    ok (status_call t (get_or frame 4 0), record t { lower = s })

  unfoldable pub msap_app_config_data_rx_indication_handler :
      Bytes → Registry F S → List (CallbackCall F)
  msap_app_config_data_rx_indication_handler frame t = elim t.m_app_conf_cb [
    | none ↦ []
    | some cb ↦ app_config_received cb (get_or frame 4 0) (get16 frame 5) (drop 7 frame) ∷ []
  ]

  unfoldable pub msap_scan_nbors_indication_handler : Bytes → Registry F S → List (CallbackCall F)
  msap_scan_nbors_indication_handler frame t = elim t.m_scan_neighbor_cb [
    | none ↦ []
    | some cb ↦ scan_done cb (get_or frame 4 0) ∷ []
  ]

  unfoldable pub msap_config_data_item_rx_indication_handler :
      Bytes → Registry F S → List (CallbackCall F)
  msap_config_data_item_rx_indication_handler frame t = elim t.m_config_data_item_cb [
    | none ↦ []
    | some cb ↦ item_received cb (get16 frame 4) (drop 7 frame) (get_or frame 6 0) ∷ []
  ]
