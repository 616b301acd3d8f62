-- ===== src/WpcInternal/Confirm.antt =====
-- What a request that succeeds returns.
use c_mesh_api.Slip.Codec.{gen_error, sync_error, wrong_crc_from_host, wrong_crc}
use c_mesh_api.WpcInternal.{
  Link, check_confirm, confirm_loop, failed_receive, return_or_exit, Statics, max_frame_size,
  matched, answered, primitive_id, sap_confirm_offset, frame_id_of, copy_confirm, Turn,
  confirm_turn, again, give_back, check_if_timeout_reached_locked, exit, resend,
  max_confirm_attempt, frame_bytes, end_turn, received_turn, Answer, gen_error, exited,
  send_request_locked, max_crc_request_error_retries, confirm_fuel,
}
use c_mesh_api.Prelude.{
  ◌==ℤ◌, ℕ, Bytes, ℤ, ◌≡◌, negsuc, ok, ◌≢◌, arith, pos, suc, ◌+◌, zero, is_neg, true, Bool-cases,
  inl, inr, Bool, ltb, false, refl, returned, ok-injective, if◌then◌else◌, sym, Outcome, ap, ◌⊎◌,
  ◌∙◌, [], ◌<◌, length, ◌≤◌, get_or, set, ◌%◌, ◌∷◌,
}

-- A round that ends with a frame has read it, and it is the confirmation.
check_confirm-matched :
    (request rec_confirm : Bytes) (size attempt retries : ℕ) {n : ℕ}
    → check_confirm request rec_confirm size attempt retries ≡ matched n
    → (n ≡ size)
      × (primitive_id rec_confirm ≡ primitive_id request + sap_confirm_offset)
      × (frame_id_of rec_confirm ≡ frame_id_of request)
unfolding check_confirm
check_confirm-matched request rec_confirm size attempt retries h = ground arith

pub check_confirm-give_back :
    (request rec_confirm : Bytes) (size attempt retries : ℕ) (code : ℤ)
    → check_confirm request rec_confirm size attempt retries ≢ give_back code
unfolding check_confirm
check_confirm-give_back request rec_confirm size attempt retries code = λ h. ground arith

abbrev code_of : Answer → ℤ
code_of (answered code confirm) = code
code_of exited = negsuc 0

code_of-gave_up :
    (b : Bool) (confirm : Bytes)
    → code_of (if b then exited else answered gen_error confirm) ≡ negsuc 0
code_of-gave_up true confirm = refl
code_of-gave_up false confirm = refl

abbrev confirm_of : Answer → Bytes
confirm_of (answered code confirm) = confirm
confirm_of exited = []

get_or-set : (xs : Bytes) (i v : ℕ) → i < length xs → get_or (set xs i v) i 0 ≡ v
get_or-set [] i v h = absurd (omega arith)
get_or-set (x ∷ xs) zero v h = refl
get_or-set (x ∷ xs) (suc i) v h = get_or-set xs i v (omega arith)

module _ {W : Type 0} (link : Link W) where
  -- Some call of the framing gives a confirmation of `request`, and `confirm` holds it.
  abbrev pub IsConfirmed : Bytes → Bytes → ℕ → Bytes → Type 0
  IsConfirmed request confirm timeout_ms confirm' =
      (before : Bytes) × (received : Bytes) × (n : ℕ) × (w : W) × (w' : W) × (link.receive before
          max_frame_size timeout_ms w
        ≡ ok (pos n, received, w'))
      × (primitive_id received ≡ primitive_id request + sap_confirm_offset)
      × (frame_id_of received ≡ frame_id_of request)
      × (copy_confirm confirm received n ≡ ok confirm')

  -- A turn that a receive error can end in.
  abbrev pub is_failure : Turn → Bool
  is_failure (again a r) = true
  is_failure (give_back code) = is_neg code
  is_failure exit = true
  is_failure (matched n) = false

  is_failure-return_or_exit :
      (code : ℤ) (s : Statics W)
      → is_neg code ≡ true
      → is_failure (return_or_exit link code s).0 ≡ true
  unfolding return_or_exit
  is_failure-return_or_exit code s h =
      elim (Bool-cases (check_if_timeout_reached_locked link s).0) [
        | inl e ↦ rw e refl
        | inr e ↦ rw e h
      ]

  pick :
      (b : Bool) (x y : Turn × Statics W)
      → is_failure x.0 ≡ true
      → is_failure y.0 ≡ true
      → is_failure (if b then x else y).0 ≡ true
  pick true x y h k = h
  pick false x y h k = k

  is_failure-resend :
      (request : Bytes) (attempt retries : ℕ) (s : Statics W) {t : Turn} {s' : Statics W}
      → resend link request attempt retries s ≡ ok (t, s')
      → is_failure t ≡ true
  unfolding resend
  is_failure-resend request attempt retries s {t} {s'} h =
      let (bytes, _, h1) = returned (frame_bytes request) _ h in
      let (r, _, h2) = returned (link.send bytes s.world) _ h1 in
      sym (ap (λ x. is_failure x.0) (ok-injective _ (t, s') h2))
      ∙ pick (is_neg r.0) _ _ (is_failure-return_or_exit gen_error (record s { world = r.1 }) refl)
          refl

  is_failure-failed_receive :
      (request : Bytes) (attempt retries : ℕ) (code : ℤ) (s : Statics W) {t : Turn} {s' : Statics W}
      → is_neg code ≡ true
      → failed_receive link request attempt retries code s ≡ ok (t, s')
      → is_failure t ≡ true
  unfolding failed_receive
  is_failure-failed_receive request attempt retries code s {t} {s'} n h =
      elim (Bool-cases (code ==ℤ wrong_crc_from_host)) [
        | inl q ↦ elim (Bool-cases (ltb retries max_crc_request_error_retries)) [
          | inl r ↦ is_failure-resend request attempt retries s (rw (failed_receive, q, r) at h)
          | inr r ↦
              sym (
                ap (λ x. is_failure x.0)
                  (ok-injective (give_back code, s) (t, s') (rw (failed_receive, q, r) at h)))
              ∙ n
        ]
        | inr q ↦ elim (Bool-cases (code ==ℤ wrong_crc)) [
          | inl r ↦
              sym (
                ap (λ x. is_failure x.0)
                  (ok-injective (give_back code, s) (t, s') (rw (failed_receive, q, r) at h)))
              ∙ n
          | inr r ↦
              sym (
                ap (λ x. is_failure x.0)
                  (ok-injective (return_or_exit link code s) (t, s')
                    (rw (failed_receive, q, r) at h)))
              ∙ is_failure-return_or_exit code s n
        ]
      ]

  -- What a round read, if it did not fail.
  abbrev pub IsRead : Bytes → ℕ → Bytes → ℕ → ℕ → W → Turn → Bytes → Type 0
  IsRead request timeout_ms buffer attempt retries w t buffer' =
      (n : ℕ) × (w' : W) × (link.receive buffer max_frame_size timeout_ms w
        ≡ ok (pos n, buffer', w'))
      × (check_confirm request buffer' n attempt retries ≡ t)

  pub after_receive :
      (request : Bytes) (timeout_ms : ℕ) (buffer : Bytes) (attempt retries : ℕ) (s : Statics W)
      (size : ℤ) (received : Bytes) (w : W) {t : Turn} {buffer' : Bytes} {s' : Statics W}
      → link.receive buffer max_frame_size timeout_ms s.world ≡ ok (size, received, w)
      → received_turn link request attempt retries s size received w ≡ ok (t, buffer', s')
      → (is_failure t ≡ true) ⊎ IsRead request timeout_ms buffer attempt retries s.world t buffer'
  unfolding received_turn
  after_receive request timeout_ms buffer attempt retries s (pos n) received w {t} {buffer'} {s'} e
        h =
      let now : ℕ × W = link.monotonic w in
      let same =
        ok-injective
          (
            check_confirm request received n attempt retries,
            received,
            record s { world = now.1; last_successful_answer_ts = now.0 },
          )
          (t, buffer', s') h in
      inr (
        n,
        w,
        e ∙ ap (λ x. ok (pos n, x.1, w)) same,
        ap (λ x. check_confirm request x.1 n attempt retries) (sym same) ∙ ap (λ x. x.0) same,
      )
  after_receive request timeout_ms buffer attempt retries s (negsuc e) received w {t} {buffer'} {s'}
        r h =
      let (x, f, k) =
        returned (failed_receive link request attempt retries (negsuc e) (record s { world = w })) _
          h in
      inl (
        sym (ap (λ y. is_failure y.0) (ok-injective (x.0, received, x.1) (t, buffer', s') k))
        ∙ is_failure-failed_receive request attempt retries (negsuc e) (record s { world = w }) refl
            f)

  end_turn-pos :
      (request confirm : Bytes) (timeout_ms : ℕ) (buffer : Bytes) (attempt retries : ℕ)
      (s : Statics W) (next : ℕ → ℕ → Outcome (Answer × Statics W)) (t : Turn) (buffer' : Bytes)
      (s1 : Statics W) {confirm' : Bytes} {s' : Statics W}
      → ((a r : ℕ)
          → next a r ≡ ok (answered (pos 0) confirm', s')
          → IsConfirmed request confirm timeout_ms confirm')
      → (is_failure t ≡ true) ⊎ IsRead request timeout_ms buffer attempt retries s.world t buffer'
      → end_turn link next confirm buffer' s1 t ≡ ok (answered (pos 0) confirm', s')
      → IsConfirmed request confirm timeout_ms confirm'
  unfolding end_turn
  end_turn-pos request confirm timeout_ms buffer attempt retries s next (again a r) buffer' s1 ih c
        h =
      ih a r h
  end_turn-pos request confirm timeout_ms buffer attempt retries s next (give_back code) buffer' s1
        {confirm'} {s'} ih (inl c) h =
      let zero_code : code ≡ pos 0 =
        ap (λ x. code_of x.0)
          (ok-injective (answered code confirm, s1) (answered (pos 0) confirm', s') h) in
      absurd (cc)
  end_turn-pos request confirm timeout_ms buffer attempt retries s next (give_back code) buffer' s1
        ih (inr (k, w', e, c)) h =
      absurd (check_confirm-give_back request buffer' k attempt retries code c)
  end_turn-pos request confirm timeout_ms buffer attempt retries s next exit buffer' s1 {confirm'}
        {s'} ih c h =
      absurd (
        let e : negsuc 0 ≡ pos 0 =
          ap (λ x. code_of x.0) (ok-injective (exited, s1) (answered (pos 0) confirm', s') h) in
        cc)
  end_turn-pos request confirm timeout_ms buffer attempt retries s next (matched n) buffer' s1 ih
        (inl c) h =
      absurd (cc)
  end_turn-pos request confirm timeout_ms buffer attempt retries s next (matched n) buffer' s1
        {confirm'} {s'} ih (inr (k, w', e, c)) h =
      let (same, p, f) = check_confirm-matched request buffer' k attempt retries c in
      let (out, g, l) = returned (copy_confirm confirm buffer' n) _ h in
      (
        buffer,
        buffer',
        k,
        s.world,
        w',
        e,
        p,
        f,
        ap (copy_confirm confirm buffer') (sym same)
            ∙ g
            ∙ ap ok (
                ap (λ x. confirm_of x.0)
                  (ok-injective (answered (pos 0) out, s1) (answered (pos 0) confirm', s') l)),
      )

  confirm_loop-pos :
      (fuel : ℕ) (request confirm : Bytes) (timeout_ms : ℕ) (buffer : Bytes) (attempt retries : ℕ)
      (s : Statics W) {confirm' : Bytes} {s' : Statics W}
      → confirm_loop link fuel request confirm timeout_ms buffer attempt retries s
        ≡ ok (answered (pos 0) confirm', s')
      → IsConfirmed request confirm timeout_ms confirm'
  unfolding confirm_loop confirm_turn
  confirm_loop-pos zero request confirm timeout_ms buffer attempt retries s h = absurd (cc)
  confirm_loop-pos (suc fuel) request confirm timeout_ms buffer attempt retries s {confirm'} {s'}
        h =
      elim (Bool-cases (ltb attempt max_confirm_attempt)) [
        | inr q ↦ absurd (
            let sync : sync_error ≡ pos 0 =
              ap (λ x. code_of x.0)
                (ok-injective (answered sync_error confirm, s) (answered (pos 0) confirm', s')
                  (rw (confirm_loop, q) at h)) in
            cc)
        | inl q ↦
            let (turn, e, k) =
              returned (confirm_turn link request timeout_ms buffer attempt retries s) _
                (rw (confirm_loop, q) at h) in
            let (r, e', k') =
              returned (link.receive buffer max_frame_size timeout_ms s.world) _ e in
            end_turn-pos request confirm timeout_ms buffer attempt retries s
              (λ a b. confirm_loop link fuel request confirm timeout_ms turn.1 a b turn.2) turn.0
              turn.1 turn.2
              (λ a b. confirm_loop-pos fuel request confirm timeout_ms turn.1 a b turn.2)
              (after_receive request timeout_ms buffer attempt retries s r.0 r.1 r.2 e' k') k
      ]

  -- If `send_request_locked` returns 0, then some call of `Slip_get_buffer` has given a frame with
  -- the primitive id of the confirmation of the request and with the frame id that the request was
  -- sent with, and `confirm` is that frame, written over the contents it had.
  pub send_request_locked-IsConfirmed :
      (buffer request confirm : Bytes) (timeout_ms : ℕ) (s s' : Statics W) (confirm' : Bytes)
      → 2 ≤ length request
      → send_request_locked link buffer request confirm timeout_ms s
        ≡ ok (answered (pos 0) confirm', s')
      → (frame_id_of (set request 1 s.frame_id) ≡ s.frame_id)
        × IsConfirmed (set request 1 s.frame_id) confirm timeout_ms confirm'
  unfolding send_request_locked
  send_request_locked-IsConfirmed buffer request confirm timeout_ms s s' confirm' n h =
      let (bytes, _, h1) = returned (frame_bytes (set request 1 s.frame_id)) _ h in
      let (r, _, h2) = returned (link.send bytes s.world) _ h1 in
      let s1 : Statics W = record s { frame_id = (s.frame_id + 1) % 256; world = r.1 } in
      (
        get_or-set request 1 s.frame_id (omega arith),
        elim (Bool-cases (is_neg r.0)) [
          | inr q ↦
              confirm_loop-pos confirm_fuel (set request 1 s.frame_id) confirm timeout_ms buffer 0 0
                s1 (rw q at h2)
          | inl q ↦ absurd (
              let zero_code : negsuc 0 ≡ pos 0 =
                sym (code_of-gave_up (check_if_timeout_reached_locked link s1).0 confirm)
                ∙ ap (λ x. code_of x.0)
                    (ok-injective _ (answered (pos 0) confirm', s') (rw q at h2)) in
              cc)
        ],
      )
