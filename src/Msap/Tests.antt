-- ===== src/Msap/Tests.antt =====
-- The theorems on msap.c at concrete requests.
use c_mesh_api.Msap.Convert.{
  maximum_number_of_neighbor, convert_internal_to_app_neighbors_status, NborInfo, no_nbor,
}
use c_mesh_api.Msap.Neighbors.{
  nbor_in_bytes, convert_internal_to_app_neighbors_status-nbor_in_bytes,
}
use c_mesh_api.Msap.Registry.{msap_register_for_app_config-calls}
use c_mesh_api.Msap.Bounds.{msap_request-ReturnsOnce}
use c_mesh_api.Msap.Sent.{msap_request, block_read}
use c_mesh_api.Msap.Slots.{
  registry_run, Event, register, slot_run, scan_neighbors, slots, registry_run_refines, stack_state,
  unregister,
}
use c_mesh_api.Msap.Callbacks.{
  Registry, msap_register_for_app_config, msap_unregister_from_app_config,
  msap_app_config_data_rx_indication_handler, app_config_received,
}
use c_mesh_api.Request.Sent.{Answers, ReturnsOnce}
use c_mesh_api.Request.{Frames, Requests}
use c_mesh_api.Prelude.{
  ℕ, Bytes, ok, true, false, none, List, Outcome, ◌∷◌, [], inl, pos, replicate, ℤ, ◌≡◌, sym, ◌++◌,
  ap, refl, length, arith, ◌<◌, fault, ◌⊎◌, get_or, if◌then◌else◌, ltb, ◌+◌, ◌*◌,
}
use c_mesh_api.WpcInternal.{Answer, answered}

-- A node that confirms every request. The state is the list of the requests.
abbrev confirm_all : Bytes → Bytes → ℕ → List Bytes → Outcome (Answer × List Bytes)
confirm_all request confirm timeout_ms s = ok (answered (pos 0) confirm, s ++ (request ∷ []))

abbrev res_of : Outcome (Answer × List Bytes) → ℤ
res_of (ok (answered res confirm, s)) = res
res_of _ = pos 1

abbrev confirm_of : Outcome (Answer × List Bytes) → Bytes
confirm_of (ok (answered res confirm, s)) = confirm
confirm_of _ = []

abbrev node : Requests (List Bytes)
node = record {
  send_request_timeout = confirm_all;
  get_mtu = λ s. 102;
  set_mtu = λ mtu s. s;
  lock = λ s. s;
  unlock = λ s. s;
  answer = λ request confirm timeout_ms s s' res confirm' e.
      (inl (sym (ap res_of e)), ap length (sym (ap confirm_of e)));
}

node-Answers : Answers node (λ s. s)
node-Answers request confirm timeout_ms s =
    (answered (pos 0) confirm, s ++ (request ∷ []), refl, refl)

abbrev locals : Frames
locals = record { request = replicate 202 0; confirm = replicate 202 0 }

msap_request-ReturnsOnce_example :
    ReturnsOnce node (λ s. s) locals [] (msap_request node (block_read 64 100 100) locals [])
msap_request-ReturnsOnce_example =
    msap_request-ReturnsOnce node (λ s. s) (block_read 64 100 100) locals [] node-Answers
      (omega arith) (omega arith) (omega arith)

abbrev no_callbacks : Registry ℕ (List Bytes)
no_callbacks = record {
  m_app_conf_cb = none;
  m_scan_neighbor_cb = none;
  m_stack_status_cb = none;
  m_config_data_item_cb = none;
  lower = [];
}

abbrev events : List (Event ℕ)
events =
    register scan_neighbors 70
    ∷ register stack_state 71
    ∷ register scan_neighbors 72
    ∷ unregister scan_neighbors
    ∷ unregister scan_neighbors
    ∷ []

registry_run_refines_example :
    registry_run node events no_callbacks ≡ slot_run events (slots node no_callbacks)
registry_run_refines_example = registry_run_refines node events no_callbacks

-- A callback for the application's configuration, and its indication.
abbrev indication : Bytes
indication = 0x3F ∷ 1 ∷ 84 ∷ 0 ∷ 5 ∷ 60 ∷ 0 ∷ 1 ∷ 2 ∷ 3 ∷ []

msap_register_for_app_config-calls_example :
    let (first, t1) = msap_register_for_app_config node 80 no_callbacks in
    let (second, t2) = msap_register_for_app_config node 81 t1 in
    let (third, t3) = msap_unregister_from_app_config node t2 in
    let (fourth, t4) = msap_unregister_from_app_config node t3 in
    (first ≡ true)
    × (second ≡ false)
    × (msap_app_config_data_rx_indication_handler node indication t2
        ≡ app_config_received 80 5 60 (1 ∷ 2 ∷ 3 ∷ []) ∷ [])
    × (third ≡ true)
    × (fourth ≡ false)
    × (msap_app_config_data_rx_indication_handler node indication t4 ≡ [])
msap_register_for_app_config-calls_example =
    msap_register_for_app_config-calls node 80 81 no_callbacks indication refl

-- One neighbour.
abbrev one_nbor : Bytes
one_nbor = 1 ∷ 9 ∷ 0 ∷ 0 ∷ 0 ∷ 80 ∷ 60 ∷ 3 ∷ 2 ∷ 1 ∷ 10 ∷ 11 ∷ 5 ∷ 0 ∷ []

convert_internal_to_app_neighbors_status-nbor_in_bytes_example :
    ((maximum_number_of_neighbor < 1) × (convert_internal_to_app_neighbors_status one_nbor ≡ fault))
    ⊎ ((nbors : List NborInfo) × (convert_internal_to_app_neighbors_status one_nbor ≡ ok (1, nbors))
        × (length nbors ≡ maximum_number_of_neighbor)
        × ((j : ℕ)
            → get_or nbors j no_nbor
              ≡ (if ltb j 1 then nbor_in_bytes one_nbor (1 + j * 13) else no_nbor)))
convert_internal_to_app_neighbors_status-nbor_in_bytes_example =
    convert_internal_to_app_neighbors_status-nbor_in_bytes one_nbor
