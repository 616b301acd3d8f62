-- ===== src/Attribute/Tests.antt =====
-- The round trip of an attribute with a node that stores attributes.
use c_mesh_api.Attribute.Node.{Store, node, node-Recalls, node-Stores}
use c_mesh_api.Msap.Mtu.{msap_stack_state_indication_handler-unit}
use c_mesh_api.Msap.Callbacks.{Registry, msap_stack_state_indication_handler, stack_status}
use c_mesh_api.Attribute.{
  csap_attribute_write_request, [], csap_attribute_read, csap_attribute_write, pos, some,
  csap_attribute_read_request, none, Requests, get_or,
}
use c_mesh_api.Attribute.RoundTrip.{csap_attribute_write_request-read}
use c_mesh_api.Request.{Frames, Requests}
use c_mesh_api.Prelude.{
  ℕ, Bytes, ok, if◌then◌else◌, ◌≡◌, [], pos, replicate, ◌==◌, ◌∷◌, arith, some, refl, none, get_or,
}

abbrev locals : Frames
locals = record { request = replicate 50 0; confirm = replicate 50 0 }

-- The MTU is written and read with one byte.
csap_attribute_write_request-read_example :
    (s' : Store) × (s'' : Store) × (csap_attribute_write_request
        (node csap_attribute_write)
        5
        1
        (90 ∷ [])
        locals
        (λ i. [])
      ≡ ok (some (pos 0), s'))
    × (csap_attribute_read_request (node csap_attribute_write) 5 1 locals s'
        ≡ ok ((some (pos 0), some (90 ∷ [])), s''))
csap_attribute_write_request-read_example =
    csap_attribute_write_request-read (node csap_attribute_write) (λ s. s) 5 1 1 (90 ∷ []) locals
      locals (λ i. []) (node-Stores csap_attribute_write)
      (node-Recalls csap_attribute_write csap_attribute_read refl) (omega arith) (omega arith)
      (omega arith) (omega arith) (omega arith) (omega arith)

-- The transmission unit of the node has 102 bytes, and a callback waits for the state.
abbrev with_unit : Store
with_unit id = if id == 5 then 102 ∷ [] else []

abbrev one_callback : Registry ℕ Store
one_callback = record {
  m_app_conf_cb = none;
  m_scan_neighbor_cb = none;
  m_stack_status_cb = some 71;
  m_config_data_item_cb = none;
  lower = with_unit;
}

abbrev state_indication : Bytes
state_indication = 0x07 ∷ 1 ∷ 2 ∷ 0 ∷ 1 ∷ []

-- The unit is kept in the store under an id that no attribute has.
abbrev keeping : Requests Store
keeping = record (node csap_attribute_write) {
  get_mtu = λ s. get_or (s 65536) 0 0;
  set_mtu =
      λ mtu s id. elim mtu [ none ↦ s id | some unit ↦ if id == 65536 then unit ∷ [] else s id ];
}

msap_stack_state_indication_handler-unit_example :
    (s' : Store) × (msap_stack_state_indication_handler keeping state_indication locals one_callback
      ≡ ok (stack_status 71 1 ∷ [], record one_callback { lower = s' }))
    × (keeping.get_mtu s' ≡ 102)
msap_stack_state_indication_handler-unit_example =
    msap_stack_state_indication_handler-unit keeping (λ s. s) state_indication locals one_callback
      102 (node-Recalls csap_attribute_write csap_attribute_read refl) (λ unit s h. refl)
      (omega arith) refl (omega arith) (omega arith)
