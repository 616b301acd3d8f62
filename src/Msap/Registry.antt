-- ===== src/Msap/Registry.antt =====
-- What a registration with lib/wpc/msap.c is for.
use c_mesh_api.Msap.Callbacks.{
  msap_register_for_app_config, msap_unregister_from_app_config, register_cb, unregister_cb,
  msap_app_config_data_rx_indication_handler, Registry, app_config_received,
}
use c_mesh_api.Request.{Requests, get16}
use c_mesh_api.Prelude.{Bytes, ◌≡◌, none, true, false, get_or, drop, ◌∷◌, [], refl}

module _ {F S : Type 0} (requests : Requests S) where
  -- A callback that is registered where there is none is called by the indications, with what the
  -- frame says; a second registration and a second end of the registration give false and change
  -- no callback; after the end of the registration there are no calls.
  pub msap_register_for_app_config-calls :
      (cb other : F) (t : Registry F S) (frame : Bytes)
      → t.m_app_conf_cb ≡ none
      → let (first, t1) = msap_register_for_app_config requests cb t in
        let (second, t2) = msap_register_for_app_config requests other t1 in
        let (third, t3) = msap_unregister_from_app_config requests t2 in
        let (fourth, t4) = msap_unregister_from_app_config requests t3 in
        (first ≡ true)
        × (second ≡ false)
        × (msap_app_config_data_rx_indication_handler requests frame t2
            ≡ app_config_received cb (get_or frame 4 0) (get16 frame 5) (drop 7 frame) ∷ [])
        × (third ≡ true)
        × (fourth ≡ false)
        × (msap_app_config_data_rx_indication_handler requests frame t4 ≡ [])
  unfolding msap_register_for_app_config msap_unregister_from_app_config register_cb unregister_cb
      msap_app_config_data_rx_indication_handler
  msap_register_for_app_config-calls cb other t frame h = rw h (refl, refl, refl, refl, refl, refl)
