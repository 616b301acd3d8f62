-- ===== src/Msap/Mtu.antt =====
-- The transmission unit after an indication of the stack's state, in lib/wpc/msap.c.
use c_mesh_api.Attribute.RoundTrip.{Recalls, attribute_read_request-recalled}
use c_mesh_api.Request.{Requests, Frames, payload_offset}
use c_mesh_api.Attribute.{csap_attribute_read_request, csap_attribute_read, attribute_read_request}
use c_mesh_api.Msap.Callbacks.{
  msap_stack_state_indication_handler, wpc_int_set_mtu, Registry, c_mtu_id, status_call,
}
use c_mesh_api.Prelude.{
  ℕ, ◌∷◌, some, Bytes, ◌≡◌, [], ◌+◌, ◌≤◌, length, ok, pos, get_or, arith, ◌∙◌, refl, ◌<◌, ◌^◌,
}

-- Below the services, `WPC_Int_get_mtu` gives the byte that was set last.
abbrev pub KeepsMtu : {S : Type 0} → Requests S → Type 0
KeepsMtu {S = S} requests =
    (unit : ℕ) (s : S) → unit < 2 ^ 8 → requests.get_mtu (requests.set_mtu (some unit) s) ≡ unit

-- If the node gives back the attribute of its transmission unit, which is one byte, and
-- wpc_internal.c gives the unit that was set last, then the handler of the stack's state returns,
-- with the call of the callback, leaves the callbacks as they are, and the transmission unit is
-- that byte from then on.
pub msap_stack_state_indication_handler-unit :
    {F S : Type 0} (requests : Requests S) (stored : S → ℕ → Bytes) (frame : Bytes)
    (frames : Frames) (t : Registry F S) (unit : ℕ)
    → Recalls requests stored csap_attribute_read
    → KeepsMtu requests
    → unit < 2 ^ 8
    → stored t.lower c_mtu_id ≡ unit ∷ []
    → payload_offset + 2 ≤ length frames.request
    → 8 ≤ length frames.confirm
    → (s' : S) × (msap_stack_state_indication_handler requests frame frames t
        ≡ ok (status_call requests t (get_or frame 4 0), record t { lower = s' }))
      × (requests.get_mtu s' ≡ unit)
unfolding msap_stack_state_indication_handler wpc_int_set_mtu csap_attribute_read_request
msap_stack_state_indication_handler-unit requests stored frame frames t unit recalls keeps small e r
      c =
    let (s', read) =
      attribute_read_request-recalled requests stored csap_attribute_read c_mtu_id 1 frames t.lower
        recalls (omega arith) r (rw e c) in
    let read' : attribute_read_request requests csap_attribute_read c_mtu_id 1 frames t.lower
        ≡ ok ((some (pos 0), some (unit ∷ [])), s') =
      read ∙ rw e refl in
    (requests.set_mtu (some unit) s', rw read' refl, keeps unit s' small)
