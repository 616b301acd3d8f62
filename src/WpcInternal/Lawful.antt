-- ===== src/WpcInternal/Lawful.antt =====
-- The result of a request is 0 or negative, and the caller's `confirm` keeps its size.
use c_mesh_api.WpcInternal.Confirm.{is_failure, IsRead, check_confirm-give_back, after_receive}
use c_mesh_api.Slip.Codec.{gen_error, sync_error}
use c_mesh_api.WpcInternal.{
  answered, exited, matched, again, give_back, exit, Answer, Link, copy_confirm, Statics,
  confirm_loop, end_turn, send_request_locked, confirm_turn, gen_error, Turn, frame_bytes,
  max_confirm_attempt, confirm_fuel, max_frame_size, check_if_timeout_reached_locked,
}
use c_mesh_api.Prelude.{
  ℕ, Bytes, ok, zero, suc, inl, inr, pos, true, false, Bool, if◌then◌else◌, ◌≡◌, Outcome, length,
  returned, ◌⊎◌, Bool-cases, is_neg, subst, ap, leb, ltb, refl, set, ok-injective, ◌&&◌, ◌+◌, sym,
  ◌%◌, overlay, take, ◌∙◌, length-overlay,
}

-- What holds of an answer to a request with these contents of `confirm`.
abbrev pub IsLawful : Bytes → Answer → Type 0
IsLawful confirm (answered code confirm') =
    ((code ≡ pos 0) ⊎ (is_neg code ≡ true)) × (length confirm' ≡ length confirm)
IsLawful confirm exited = Unit

IsLawful-gave_up :
    (b : Bool) (confirm : Bytes)
    → IsLawful confirm (if b then exited else answered gen_error confirm)
IsLawful-gave_up true confirm = tt
IsLawful-gave_up false confirm = (inr refl, refl)

length-copy_confirm :
    (confirm buffer : Bytes) (size : ℕ) (out : Bytes)
    → copy_confirm confirm buffer size ≡ ok out
    → length out ≡ length confirm
unfolding copy_confirm
length-copy_confirm confirm buffer size out h =
    elim (Bool-cases (leb size (length confirm) && leb size (length buffer))) [
      | inl q ↦
          ap length (sym (ok-injective (overlay 0 (take size buffer) confirm) out (rw q at h)))
          ∙ length-overlay 0 (take size buffer) confirm
      | inr q ↦ absurd (let k = rw q at h in cc)
    ]

module _ {W : Type 0} (link : Link W) where
  IsLawful-by :
      (confirm : Bytes) (a b : Answer) (s s' : Statics W)
      → IsLawful confirm a
      → (let o : Outcome (Answer × Statics W) = ok (a, s) in o) ≡ ok (b, s')
      → IsLawful confirm b
  IsLawful-by confirm a b s s' l h =
      subst (IsLawful confirm) (ap (λ x. x.0) (ok-injective (a, s) (b, s') h)) l

  end_turn-IsLawful :
      (request confirm : Bytes) (timeout_ms : ℕ) (buffer : Bytes) (attempt retries : ℕ)
      (s : Statics W) (next : ℕ → ℕ → Outcome (Answer × Statics W)) (t : Turn) (buffer' : Bytes)
      (s1 : Statics W) (answer : Answer) (s' : Statics W)
      → ((a r : ℕ) → next a r ≡ ok (answer, s') → IsLawful confirm answer)
      → (is_failure link t ≡ true)
        ⊎ IsRead link request timeout_ms buffer attempt retries s.world t buffer'
      → end_turn link next confirm buffer' s1 t ≡ ok (answer, s')
      → IsLawful confirm answer
  unfolding end_turn
  end_turn-IsLawful request confirm timeout_ms buffer attempt retries s next (again a r) buffer' s1
        answer s' ih c h =
      ih a r h
  end_turn-IsLawful request confirm timeout_ms buffer attempt retries s next (give_back code)
        buffer' s1 answer s' ih (inl c) h =
      IsLawful-by confirm (answered code confirm) answer s1 s' (inr c, refl) h
  end_turn-IsLawful request confirm timeout_ms buffer attempt retries s next (give_back code)
        buffer' s1 answer s' ih (inr (k, w', e, c)) h =
      absurd (check_confirm-give_back request buffer' k attempt retries code c)
  end_turn-IsLawful request confirm timeout_ms buffer attempt retries s next exit buffer' s1 answer
        s' ih c h =
      IsLawful-by confirm exited answer s1 s' tt h
  end_turn-IsLawful request confirm timeout_ms buffer attempt retries s next (matched n) buffer' s1
        answer s' ih c h =
      let (out, g, l) = returned (copy_confirm confirm buffer' n) _ h in
      IsLawful-by confirm (answered (pos 0) out) answer s1 s'
        (inl refl, length-copy_confirm confirm buffer' n out g) l

  confirm_loop-IsLawful :
      (fuel : ℕ) (request confirm : Bytes) (timeout_ms : ℕ) (buffer : Bytes) (attempt retries : ℕ)
      (s : Statics W) (answer : Answer) (s' : Statics W)
      → confirm_loop link fuel request confirm timeout_ms buffer attempt retries s ≡ ok (answer, s')
      → IsLawful confirm answer
  unfolding confirm_loop confirm_turn
  confirm_loop-IsLawful zero request confirm timeout_ms buffer attempt retries s answer s' h =
      absurd (cc)
  confirm_loop-IsLawful (suc fuel) request confirm timeout_ms buffer attempt retries s answer s' h =
      elim (Bool-cases (ltb attempt max_confirm_attempt)) [
        | inr q ↦
            IsLawful-by confirm (answered sync_error confirm) answer s s' (inr refl, refl)
              (rw (confirm_loop, q) at h)
        | inl q ↦
            let (turn, e, k) =
              returned (confirm_turn link request timeout_ms buffer attempt retries s) _
                (rw (confirm_loop, q) at h) in
            let (r, e', k') =
              returned (link.receive buffer max_frame_size timeout_ms s.world) _ e in
            end_turn-IsLawful request confirm timeout_ms buffer attempt retries s
              (λ a b. confirm_loop link fuel request confirm timeout_ms turn.1 a b turn.2) turn.0
              turn.1 turn.2 answer s'
              (λ a b.
                confirm_loop-IsLawful fuel request confirm timeout_ms turn.1 a b turn.2 answer s')
              (after_receive link request timeout_ms buffer attempt retries s r.0 r.1 r.2 e' k') k
      ]

  pub send_request_locked-IsLawful :
      (buffer request confirm : Bytes) (timeout_ms : ℕ) (s : Statics W) (answer : Answer)
      (s' : Statics W)
      → send_request_locked link buffer request confirm timeout_ms s ≡ ok (answer, s')
      → IsLawful confirm answer
  unfolding send_request_locked
  send_request_locked-IsLawful buffer request confirm timeout_ms s answer s' h =
      let (bytes, _, h1) = returned (frame_bytes (set request 1 s.frame_id)) _ h in
      let (r, _, h2) = returned (link.send bytes s.world) _ h1 in
      let s1 : Statics W = record s { frame_id = (s.frame_id + 1) % 256; world = r.1 } in
      elim (Bool-cases (is_neg r.0)) [
        | inr q ↦
            confirm_loop-IsLawful confirm_fuel (set request 1 s.frame_id) confirm timeout_ms buffer
              0 0 s1 answer s' (rw q at h2)
        | inl q ↦
            let (exiting, s2) : Bool × Statics W = check_if_timeout_reached_locked link s1 in
            IsLawful-by confirm (if exiting then exited else answered gen_error confirm) answer s2
              s' (IsLawful-gave_up exiting confirm) (rw q at h2)
      ]
