-- ===== src/Msap/Slots.antt =====
-- The four callbacks of lib/wpc/msap.c as a map from their kinds.
use c_mesh_api.Msap.Callbacks.{
  Registry, msap_register_for_app_config, msap_unregister_from_app_config, register_cb,
  unregister_cb, msap_register_for_scan_neighbors_done, msap_unregister_from_scan_neighbors_done,
  msap_register_for_stack_status, msap_unregister_from_stack_status,
  msap_register_for_config_data_item, msap_unregister_from_config_data_item,
}
use c_mesh_api.Request.{Requests}
use c_mesh_api.Prelude.{
  Bool, List, Option, if◌then◌else◌, some, true, ◌∷◌, [], false, none, not, ◌≡◌, ap₂, refl, ◌∙◌, ap,
}

pub data Kind : Type 0 where
  app_config : Kind
  scan_neighbors : Kind
  stack_state : Kind
  config_data_item : Kind

abbrev pub same : Kind → Kind → Bool
same app_config app_config = true
same scan_neighbors scan_neighbors = true
same stack_state stack_state = true
same config_data_item config_data_item = true
same _ _ = false

each_kind :
    (holds : Kind → Type 0)
    → holds app_config
    → holds scan_neighbors
    → holds stack_state
    → holds config_data_item
    → (k : Kind) → holds k
each_kind holds a b c d app_config = a
each_kind holds a b c d scan_neighbors = b
each_kind holds a b c d stack_state = c
each_kind holds a b c d config_data_item = d

pub data Event (F : Type 0) : Type 0 where
  register : Kind → F → Event F
  unregister : Kind → Event F

-- What is seen of a call: its result, and the callbacks after it.
pub record Seen (F : Type 0) : Type 0 where
  pub result : Bool
  pub app_conf_cb : Option F
  pub scan_neighbor_cb : Option F
  pub stack_status_cb : Option F
  pub config_data_item_cb : Option F

abbrev pub is_none : {F : Type 0} → Option F → Bool
is_none none = true
is_none (some f) = false

-- A callback that is there stays.
abbrev pub or_new : {F : Type 0} → Option F → F → Option F
or_new none cb = some cb
or_new (some f) cb = some f

module _ {F S : Type 0} (requests : Requests S) where
  abbrev pub registry_step : Event F → Registry F S → Bool × Registry F S
  registry_step (register app_config cb) = msap_register_for_app_config requests cb
  registry_step (register scan_neighbors cb) = msap_register_for_scan_neighbors_done requests cb
  registry_step (register stack_state cb) = msap_register_for_stack_status requests cb
  registry_step (register config_data_item cb) = msap_register_for_config_data_item requests cb
  registry_step (unregister app_config) = msap_unregister_from_app_config requests
  registry_step (unregister scan_neighbors) = msap_unregister_from_scan_neighbors_done requests
  registry_step (unregister stack_state) = msap_unregister_from_stack_status requests
  registry_step (unregister config_data_item) = msap_unregister_from_config_data_item requests

  abbrev pub slots : Registry F S → Kind → Option F
  slots t app_config = t.m_app_conf_cb
  slots t scan_neighbors = t.m_scan_neighbor_cb
  slots t stack_state = t.m_stack_status_cb
  slots t config_data_item = t.m_config_data_item_cb

  -- After each call its result, and the callbacks that the four variables then hold.
  abbrev pub registry_run : List (Event F) → Registry F S → List (Seen F)
  registry_run [] t = []
  registry_run (e ∷ es) t =
      let (r, t') = registry_step e t in
      record {
        result = r;
        app_conf_cb = t'.m_app_conf_cb;
        scan_neighbor_cb = t'.m_scan_neighbor_cb;
        stack_status_cb = t'.m_stack_status_cb;
        config_data_item_cb = t'.m_config_data_item_cb;
      }
      ∷ registry_run es t'

module _ {F : Type 0} where
  abbrev pub slot_step : Event F → (Kind → Option F) → Bool × (Kind → Option F)
  slot_step (register k cb) m = (is_none (m k), λ j. if same j k then or_new (m k) cb else m j)
  slot_step (unregister k) m = (not (is_none (m k)), λ j. if same j k then none else m j)

  abbrev pub seen_map : Bool → (Kind → Option F) → Seen F
  seen_map r m = record {
    result = r;
    app_conf_cb = m app_config;
    scan_neighbor_cb = m scan_neighbors;
    stack_status_cb = m stack_state;
    config_data_item_cb = m config_data_item;
  }

  abbrev pub slot_run : List (Event F) → (Kind → Option F) → List (Seen F)
  slot_run [] m = []
  slot_run (e ∷ es) m = let (r, m') = slot_step e m in seen_map r m' ∷ slot_run es m'

  seen_map_eq :
      (r r' : Bool) (m m' : Kind → Option F)
      → r ≡ r'
      → ((k : Kind) → m k ≡ m' k)
      → seen_map r m ≡ seen_map r' m'
  seen_map_eq r r' m m' e h =
      rw (e, h app_config, h scan_neighbors, h stack_state, h config_data_item) refl

module _ {F S : Type 0} (requests : Requests S) where
  register_cb-or_new :
      (cb : F) (c : Option F) (s : S)
      → ((register_cb requests cb c s).0 ≡ is_none c)
        × ((register_cb requests cb c s).1 ≡ or_new c cb)
  unfolding register_cb
  register_cb-or_new cb none s = (refl, refl)
  register_cb-or_new cb (some f) s = (refl, refl)

  unregister_cb-none :
      (c : Option F) (s : S)
      → ((unregister_cb requests c s).0 ≡ not (is_none c)) × ((unregister_cb requests c s).1 ≡ none)
  unfolding unregister_cb
  unregister_cb-none none s = (refl, refl)
  unregister_cb-none (some f) s = (refl, refl)

  registry_step-register :
      (k : Kind) (cb : F) (t : Registry F S)
      → ((registry_step requests (register k cb) t).0 ≡ is_none (slots requests t k))
        × ((j : Kind)
            → slots requests (registry_step requests (register k cb) t).1 j
              ≡ (if same j k then or_new (slots requests t k) cb else slots requests t j))
  unfolding msap_register_for_app_config msap_register_for_scan_neighbors_done
      msap_register_for_stack_status msap_register_for_config_data_item
  registry_step-register app_config cb t =
      let (a, b) = register_cb-or_new cb t.m_app_conf_cb t.lower in
      (a, each_kind _ b refl refl refl)
  registry_step-register scan_neighbors cb t =
      let (a, b) = register_cb-or_new cb t.m_scan_neighbor_cb t.lower in
      (a, each_kind _ refl b refl refl)
  registry_step-register stack_state cb t =
      let (a, b) = register_cb-or_new cb t.m_stack_status_cb t.lower in
      (a, each_kind _ refl refl b refl)
  registry_step-register config_data_item cb t =
      let (a, b) = register_cb-or_new cb t.m_config_data_item_cb t.lower in
      (a, each_kind _ refl refl refl b)

  registry_step-unregister :
      (k : Kind) (t : Registry F S)
      → ((registry_step requests (unregister k) t).0 ≡ not (is_none (slots requests t k)))
        × ((j : Kind)
            → slots requests (registry_step requests (unregister k) t).1 j
              ≡ (if same j k then none else slots requests t j))
  unfolding msap_unregister_from_app_config msap_unregister_from_scan_neighbors_done
      msap_unregister_from_stack_status msap_unregister_from_config_data_item
  registry_step-unregister app_config t =
      let (a, b) = unregister_cb-none t.m_app_conf_cb t.lower in (a, each_kind _ b refl refl refl)
  registry_step-unregister scan_neighbors t =
      let (a, b) = unregister_cb-none t.m_scan_neighbor_cb t.lower in
      (a, each_kind _ refl b refl refl)
  registry_step-unregister stack_state t =
      let (a, b) = unregister_cb-none t.m_stack_status_cb t.lower in
      (a, each_kind _ refl refl b refl)
  registry_step-unregister config_data_item t =
      let (a, b) = unregister_cb-none t.m_config_data_item_cb t.lower in
      (a, each_kind _ refl refl refl b)

  registry_run-slots :
      (es : List (Event F)) (t : Registry F S) (m : Kind → Option F)
      → ((k : Kind) → slots requests t k ≡ m k)
      → registry_run requests es t ≡ slot_run es m
  registry_run-slots [] t m h = refl
  registry_run-slots (register k cb ∷ es) t m h =
      let (a, b) = registry_step-register k cb t in
      let t' : Registry F S = (registry_step requests (register k cb) t).1 in
      let m' : Kind → Option F = (slot_step (register k cb) m).1 in
      let same' : (j : Kind) → slots requests t' j ≡ m' j = λ j. b j ∙ (rw (h k, h j) refl) in
      ap₂ ◌∷◌ (seen_map_eq _ _ (slots requests t') m' (a ∙ ap is_none (h k)) same')
        (registry_run-slots es t' m' same')
  registry_run-slots (unregister k ∷ es) t m h =
      let (a, b) = registry_step-unregister k t in
      let t' : Registry F S = (registry_step requests (unregister k) t).1 in
      let m' : Kind → Option F = (slot_step (unregister k) m).1 in
      let same' : (j : Kind) → slots requests t' j ≡ m' j = λ j. b j ∙ (rw (h j) refl) in
      ap₂ ◌∷◌ (seen_map_eq _ _ (slots requests t') m' (a ∙ ap (λ x. not (is_none x)) (h k)) same')
        (registry_run-slots es t' m' same')

  -- In any sequence of registrations and ends of registrations of the four kinds, each call gives
  -- the result, and leaves in the four variables the callbacks, that a map from kinds to callbacks
  -- gives: a registration succeeds and keeps the new callback if the kind has none, and leaves the
  -- old one otherwise, the end of one succeeds if there is a callback and leaves none, and no
  -- other kind changes.
  pub registry_run_refines :
      (es : List (Event F)) (t : Registry F S)
      → registry_run requests es t ≡ slot_run es (slots requests t)
  registry_run_refines es t = registry_run-slots es t (slots requests t) (λ k. refl)
