-- ===== src/WpcInternal/Poll.antt =====
-- How many indications a poll reads.
use c_mesh_api.Slip.Codec.{timeout_error}
use c_mesh_api.WpcInternal.Indication.{handle_indication, indication_loop, send_response_to_stack}
use c_mesh_api.WpcInternal.{Link, sizeof_frame, timeout_indication_ms}
use c_mesh_api.Prelude.{
  true, false, ℕ, Bytes, ◌≡◌, suc, ℤ, Bool, ok, if◌then◌else◌, ◌≤◌, is_neg, ◌+◌, pos, returned, ap,
  ok-injective, Bool-cases, arith, is_pos, ◌||◌, inl, inr, sym, ◌==◌, zero, ◌∙◌, ◌≢◌, ◌⊎◌,
}

module _ {W : Type 0} (link : Link W) (cb_locked : Bytes → ℕ → W → W) (read : W → ℕ) where
  -- `read` counts the indications that are handed over, and nothing else changes it.
  abbrev pub IsCount : Type 0
  IsCount =
      ((frame : Bytes) (timestamp : ℕ) (w : W) → read (cb_locked frame timestamp w) ≡ suc (read w))
      × ((w : W) → read (link.epoch w).1 ≡ read w)
      × ((bytes : Bytes) (w w' : W) (r : ℤ) → link.send bytes w ≡ ok (r, w') → read w' ≡ read w)
      × ((frame received : Bytes) (n t : ℕ) (w w' : W) (r : ℤ)
          → link.receive frame n t w ≡ ok (r, received, w')
          → read w' ≡ read w)

  -- An error reads nothing, and an indication is one.
  read-handle_indication :
      (frame : Bytes) (last_one : Bool) (w w' : W) (r : ℤ)
      → IsCount
      → handle_indication link cb_locked frame last_one w ≡ ok (r, w')
      → read w' ≡ (if is_neg r then read w else suc (read w))
  unfolding handle_indication send_response_to_stack
  read-handle_indication frame last_one w w' r (c, e, s, v) h =
      let (x, g, k) = returned (link.receive frame sizeof_frame timeout_indication_ms w) _ h in
      let same : read x.2 ≡ read w = v frame x.1 sizeof_frame timeout_indication_ms w x.2 x.0 g in
      elim (Bool-cases (is_neg x.0 || is_pos x.0 0)) [
        | inl q ↦
            let t = ok-injective (timeout_error, x.2) (r, w') (rw q at k) in
            sym (ap (λ y. read y.1) t)
            ∙ same
            ∙ ap (λ y. if is_neg y.0 then read w else suc (read w)) t
        | inr q ↦
            let (w3, g3, k3) = returned _ _ (rw q at k) in
            let (y, g4, k4) = returned (link.send _ (link.epoch x.2).1) _ g3 in
            let t = ok-injective _ (r, w') k3 in
            let u = ok-injective y.1 w3 k4 in
            sym (ap (λ z. read z.1) t)
            ∙ c x.1 (link.epoch x.2).0 w3
            ∙ ap suc (sym (ap read u) ∙ s _ (link.epoch x.2).1 y.1 y.0 g4 ∙ e x.2 ∙ same)
            ∙ ap (λ z. if is_neg z.0 then read w else suc (read w)) t
      ]

  -- If `cb_locked` adds one to a count that nothing else changes, the loop of
  -- `get_indication_locked` hands over at most `max_ind` indications, and exactly as many if it
  -- returns 1.
  pub indication_loop_count :
      (frame : Bytes) (max_ind : ℕ) (remaining : ℤ) (w w' : W) (res : ℤ)
      → IsCount
      → indication_loop link cb_locked frame max_ind remaining w ≡ ok (res, w')
      → (read w' ≤ read w + max_ind) × ((res ≢ pos 1) ⊎ (read w' ≡ read w + max_ind))
  unfolding indication_loop
  indication_loop_count frame zero remaining w w' res c h =
      let t : w ≡ w' = ap (λ x. x.1) (ok-injective _ (res, w') h) in
      let e : read w ≡ read w' = ap read t in (omega arith, inr (omega arith))
  indication_loop_count frame (suc max_ind) remaining w w' res c h =
      elim (Bool-cases (is_pos remaining 0)) [
        | inl q ↦
            let t = ok-injective (pos 0, w) (res, w') (rw (indication_loop, q) at h) in
            let e : read w ≡ read w' = ap (λ x. read x.1) t in
            (omega arith, inl (λ d. let z : pos 0 ≡ pos 1 = ap (λ x. x.0) t ∙ d in ground arith))
        | inr q ↦
            let (x, g, k) =
              returned (handle_indication link cb_locked frame (max_ind == 0) w) _
                (rw (indication_loop, q) at h) in
            let one = read-handle_indication frame (max_ind == 0) w x.1 x.0 c g in
            elim (Bool-cases (is_neg x.0)) [
              | inl n ↦
                  let t = ok-injective x (res, w') (rw n at k) in
                  let e : read x.1 ≡ read w' = ap (λ x. read x.1) t in
                  let o : read x.1 ≡ read w = rw n at one in
                  (
                    omega arith,
                    inl (λ d. let z : true ≡ false = sym n ∙ ap is_neg (ap (λ y. y.0) t ∙ d) in cc),
                  )
              | inr n ↦
                  let o : read x.1 ≡ suc (read w) = rw n at one in
                  let (most, exact) =
                    indication_loop_count frame max_ind x.0 x.1 w' res c (rw n at k) in
                  (omega arith, elim exact [ inl d ↦ inl d | inr f ↦ inr (omega arith) ])
            ]
      ]
