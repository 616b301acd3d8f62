-- ===== src/Attribute/Node.antt =====
-- A node that stores the attributes that are written with one primitive, and gives them back with
-- each other one.
use c_mesh_api.Request.Frame.{overlay-append, take-append_eq}
use c_mesh_api.Attribute.{confirm_attribute_length}
use c_mesh_api.Attribute.RoundTrip.{Stores, Recalls}
use c_mesh_api.Request.{Requests, get16, confirm_result}
use c_mesh_api.WpcInternal.{Answer, answered}
use c_mesh_api.Prelude.{
  ℕ, Bytes, ok, true, false, Outcome, [], ◌∷◌, pos, if◌then◌else◌, overlay, ℤ, ◌+◌, ◌==◌, ◌≡◌,
  get_or, inl, length, Bool-cases, arith, replicate, sym, take, ◌≤◌, ap, drop, get_or-replicate,
  length-replicate, inr, refl, ◌∙◌, length-overlay, length-append,
}

abbrev pub Store : Type 0
Store = ℕ → Bytes

abbrev pub stored_after : Bytes → Store → Store
stored_after request s id =
    if id == get16 request 3 then take (get_or request 5 0) (drop 6 request) else s id

-- The confirmation of a read: result, id, length and bytes, as far as there is room.
abbrev pub recall_frame : Bytes → Bytes → Bytes
recall_frame value confirm = overlay 0 (0 ∷ 0 ∷ 0 ∷ 0 ∷ 0 ∷ 0 ∷ length value ∷ value) confirm

abbrev pub store_send : ℕ → Bytes → Bytes → ℕ → Store → Outcome (Answer × Store)
store_send write request confirm timeout_ms s =
    if get_or request 0 0 == write
    then ok (answered (pos 0) (replicate (length confirm) 0), stored_after request s)
    else ok (answered (pos 0) (recall_frame (s (get16 request 3)) confirm), s)

abbrev pub res_of : Outcome (Answer × Store) → ℤ
res_of (ok (answered res confirm, s)) = res
res_of _ = pos 1

abbrev pub confirm_of : Outcome (Answer × Store) → Bytes
confirm_of (ok (answered res confirm, s)) = confirm
confirm_of _ = []

pub store_send-answer :
    (write : ℕ) (request confirm : Bytes) (timeout_ms : ℕ) (s : Store)
    → (res_of (store_send write request confirm timeout_ms s) ≡ pos 0)
      × (length (confirm_of (store_send write request confirm timeout_ms s)) ≡ length confirm)
store_send-answer write request confirm timeout_ms s =
    elim (Bool-cases (get_or request 0 0 == write)) [
      | inl q ↦ rw q (refl, length-replicate (length confirm) 0)
      | inr q ↦ rw q (
        refl,
        length-overlay 0
            (0 ∷ 0 ∷ 0 ∷ 0 ∷ 0 ∷ 0 ∷ length (s (get16 request 3)) ∷ s (get16 request 3)) confirm,
      )
    ]

abbrev pub node : ℕ → Requests Store
node write = record {
  send_request_timeout = store_send write;
  get_mtu = λ s. 102;
  set_mtu = λ mtu s. s;
  lock = λ s. s;
  unlock = λ s. s;
  answer = λ request confirm timeout_ms s s' res confirm' e.
      let (a, b) = store_send-answer write request confirm timeout_ms s in
      (inl (sym (ap res_of e) ∙ a), ap length (sym (ap confirm_of e)) ∙ b);
}

pub node-Stores : (write : ℕ) → Stores (node write) (λ s. s) write
node-Stores write request confirm s h =
    let q : (get_or request 0 0 == write) ≡ true = ground arith in
    let here : (get16 request 3 == get16 request 3) ≡ true = ground arith in
    (
      replicate (length confirm) 0,
      stored_after request s,
      rw q refl,
      get_or-replicate (length confirm) 3 0,
      rw here refl,
    )

recall_frame-value :
    (value confirm : Bytes)
    → 7 + length value ≤ length confirm
    → (confirm_result (recall_frame value confirm) ≡ 0)
      × (confirm_attribute_length (recall_frame value confirm) ≡ length value)
      × (length value ≤ length (drop 7 (recall_frame value confirm)))
      × (take (length value) (drop 7 (recall_frame value confirm)) ≡ value)
recall_frame-value value confirm h =
    let rest : Bytes = drop (7 + length value) confirm in
    let e = overlay-append (0 ∷ 0 ∷ 0 ∷ 0 ∷ 0 ∷ 0 ∷ length value ∷ value) confirm (omega arith) in
    (
      rw e refl,
      rw e refl,
      rw e (
          omega (
            arith,
            length-append value
                (drop (length (0 ∷ 0 ∷ 0 ∷ 0 ∷ 0 ∷ 0 ∷ length value ∷ value)) confirm),
          )),
      rw e (
          take-append_eq (length value) value
            (drop (length (0 ∷ 0 ∷ 0 ∷ 0 ∷ 0 ∷ 0 ∷ length value ∷ value)) confirm) refl),
    )

pub node-Recalls : (write read : ℕ) → (read == write) ≡ false → Recalls (node write) (λ s. s) read
node-Recalls write read other request confirm s h room =
    let q : (get_or request 0 0 == write) ≡ false = ground arith in
    let (a, b, c, d) = recall_frame-value (s (get16 request 3)) confirm room in
    (recall_frame (s (get16 request 3)) confirm, s, rw q refl, a, b, c, d)
