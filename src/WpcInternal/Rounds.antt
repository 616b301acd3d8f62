-- ===== src/WpcInternal/Rounds.antt =====
-- The rounds of a request come to an end.
use c_mesh_api.Slip.Codec.{wrong_crc_from_host, sync_error, wrong_crc, gen_error}
use c_mesh_api.WpcInternal.{
  Link, Turn, confirm_loop, again, confirm_turn, Statics, max_crc_request_error_retries,
  max_frame_size, max_confirm_attempt, check_confirm, copy_confirm, end_turn, failed_receive,
  frame_bytes, received_turn, resend, return_or_exit, send_request_locked, Answer,
  check_if_timeout_reached_locked, wrong_crc_from_host, answered, give_back, confirm_fuel, matched,
  exit,
}
use c_mesh_api.Prelude.{
  ◌==ℤ◌, ℕ, Bytes, ◌≡◌, ◌+◌, ◌≢◌, unfinished, ◌<◌, ◌≤◌, ◌-◌, arith, suc, zero, Bool, Bool-cases,
  >>=-returns, Outcome, ltb, true, ℤ, ◌==◌, if◌then◌else◌, inr, ok, pos, set, ◌&&◌, false, inl,
  is_neg, negsuc, returned, sym, ◌||◌, ap, refl, ok-injective, ◌%◌, ◌∙◌,
}

-- The turn makes one of the two counters larger, the second one within its bound, or it is the
-- last one.
abbrev is_next : ℕ → ℕ → Turn → Bool
is_next attempt retries (again a r) =
    (a == attempt + 1 && r == retries)
    || (a == attempt && r == retries + 1 && ltb retries max_crc_request_error_retries)
is_next attempt retries (give_back code) = true
is_next attempt retries exit = true
is_next attempt retries (matched n) = true

is_next-check_confirm :
    (request buffer : Bytes) (n attempt retries : ℕ)
    → is_next attempt retries (check_confirm request buffer n attempt retries) ≡ true
unfolding check_confirm
is_next-check_confirm request buffer n attempt retries = ground arith

frame_bytes-returns : (frame : Bytes) → frame_bytes frame ≢ unfinished
unfolding frame_bytes
frame_bytes-returns frame = λ h. ground arith

copy_confirm-returns : (confirm buffer : Bytes) (n : ℕ) → copy_confirm confirm buffer n ≢ unfinished
unfolding copy_confirm
copy_confirm-returns confirm buffer n = λ h. ground arith

module _ {W : Type 0} (link : Link W) where
  pick :
      (attempt retries : ℕ) (b : Bool) (x y : Turn × Statics W)
      → is_next attempt retries x.0 ≡ true
      → is_next attempt retries y.0 ≡ true
      → is_next attempt retries (if b then x else y).0 ≡ true
  pick attempt retries true x y h k = h
  pick attempt retries false x y h k = k

  is_next-return_or_exit :
      (attempt retries : ℕ) (code : ℤ) (s : Statics W)
      → is_next attempt retries (return_or_exit link code s).0 ≡ true
  unfolding return_or_exit
  is_next-return_or_exit attempt retries code s =
      elim (Bool-cases (check_if_timeout_reached_locked link s).0) [
        | inl e ↦ rw e refl
        | inr e ↦ rw e refl
      ]

  is_next-resend :
      (request : Bytes) (attempt retries : ℕ) (s : Statics W) {t : Turn} {s' : Statics W}
      → ltb retries max_crc_request_error_retries ≡ true
      → resend link request attempt retries s ≡ ok (t, s')
      → is_next attempt retries t ≡ true
  unfolding resend
  is_next-resend request attempt retries s {t} {s'} l h =
      let (bytes, _, h1) = returned (frame_bytes request) _ h in
      let (r, _, h2) = returned (link.send bytes s.world) _ h1 in
      sym (ap (λ x. is_next attempt retries x.0) (ok-injective _ (t, s') h2))
      ∙ pick attempt retries (is_neg r.0) _ _
          (is_next-return_or_exit attempt retries gen_error (record s { world = r.1 }))
          (ground arith)

  is_next-failed_receive :
      (request : Bytes) (attempt retries : ℕ) (code : ℤ) (s : Statics W) {t : Turn} {s' : Statics W}
      → failed_receive link request attempt retries code s ≡ ok (t, s')
      → is_next attempt retries t ≡ true
  unfolding failed_receive
  is_next-failed_receive request attempt retries code s {t} {s'} h =
      elim (Bool-cases (code ==ℤ wrong_crc_from_host)) [
        | inl q ↦ elim (Bool-cases (ltb retries max_crc_request_error_retries)) [
          | inl r ↦ is_next-resend request attempt retries s r (rw (failed_receive, q, r) at h)
          | inr r ↦ sym (
              ap (λ x. is_next attempt retries x.0)
                (ok-injective (give_back code, s) (t, s') (rw (failed_receive, q, r) at h)))
        ]
        | inr q ↦ elim (Bool-cases (code ==ℤ wrong_crc)) [
          | inl r ↦ sym (
              ap (λ x. is_next attempt retries x.0)
                (ok-injective (give_back code, s) (t, s') (rw (failed_receive, q, r) at h)))
          | inr r ↦
              sym (
                ap (λ x. is_next attempt retries x.0)
                  (ok-injective (return_or_exit link code s) (t, s')
                    (rw (failed_receive, q, r) at h)))
              ∙ is_next-return_or_exit attempt retries code s
        ]
      ]

  is_next-received_turn :
      (request : Bytes) (attempt retries : ℕ) (s : Statics W) (size : ℤ) (received : Bytes) (w : W)
      (t : Turn × Bytes × Statics W)
      → received_turn link request attempt retries s size received w ≡ ok t
      → is_next attempt retries t.0 ≡ true
  unfolding received_turn
  is_next-received_turn request attempt retries s (pos n) received w t h =
      sym (ap (λ x. is_next attempt retries x.0) (ok-injective _ t h))
      ∙ is_next-check_confirm request received n attempt retries
  is_next-received_turn request attempt retries s (negsuc e) received w t h =
      let (x, f, k) =
        returned (failed_receive link request attempt retries (negsuc e) (record s { world = w })) _
          h in
      sym (ap (λ x. is_next attempt retries x.0) (ok-injective (x.0, received, x.1) t k))
      ∙ is_next-failed_receive request attempt retries (negsuc e) (record s { world = w }) f

  module _ (sends : (b : Bytes) (w : W) → link.send b w ≢ unfinished) where
    resend-returns :
        (request : Bytes) (attempt retries : ℕ) (s : Statics W)
        → resend link request attempt retries s ≢ unfinished
    unfolding resend
    resend-returns request attempt retries s =
        >>=-returns (frame_bytes request) _ (frame_bytes-returns request)
          (λ bytes _. >>=-returns (link.send bytes s.world) _ (sends bytes s.world) (λ r _ h. cc))

    failed_receive-returns :
        (request : Bytes) (attempt retries : ℕ) (code : ℤ) (s : Statics W)
        → failed_receive link request attempt retries code s ≢ unfinished
    unfolding failed_receive
    failed_receive-returns request attempt retries code s = λ h.
        let no = resend-returns request attempt retries s in
        elim (Bool-cases (code ==ℤ wrong_crc_from_host)) [
          | inl q ↦ elim (Bool-cases (ltb retries max_crc_request_error_retries)) [
            | inl r ↦ no (rw (failed_receive, q, r) at h)
            | inr r ↦
                (let k : ok (give_back code, s) ≡ unfinished = rw (failed_receive, q, r) at h in cc)
          ]
          | inr q ↦ elim (Bool-cases (code ==ℤ wrong_crc)) [
            | inl r ↦
                (let k : ok (give_back code, s) ≡ unfinished = rw (failed_receive, q, r) at h in cc)
            | inr r ↦
                (let k : ok (return_or_exit link code s) ≡ unfinished =
                    rw (failed_receive, q, r) at h in
                  cc)
          ]
        ]

    received_turn-returns :
        (request : Bytes) (attempt retries : ℕ) (s : Statics W) (size : ℤ) (received : Bytes)
        (w : W)
        → received_turn link request attempt retries s size received w ≢ unfinished
    unfolding received_turn
    received_turn-returns request attempt retries s (pos n) received w = λ h. cc
    received_turn-returns request attempt retries s (negsuc e) received w =
        >>=-returns
          (failed_receive link request attempt retries (negsuc e) (record s { world = w })) _
          (failed_receive-returns request attempt retries (negsuc e) (record s { world = w }))
          (λ r _ h. cc)

    end_turn-returns :
        (next : ℕ → ℕ → Outcome (Answer × Statics W)) (confirm buffer : Bytes) (s : Statics W)
        (attempt retries : ℕ) (t : Turn)
        → is_next attempt retries t ≡ true
        → ((a r : ℕ) → is_next attempt retries (again a r) ≡ true → next a r ≢ unfinished)
        → end_turn link next confirm buffer s t ≢ unfinished
    unfolding end_turn
    end_turn-returns next confirm buffer s attempt retries (again a r) h k = k a r h
    end_turn-returns next confirm buffer s attempt retries (give_back code) h k = λ e. cc
    end_turn-returns next confirm buffer s attempt retries exit h k = λ e. cc
    end_turn-returns next confirm buffer s attempt retries (matched n) h k =
        >>=-returns (copy_confirm confirm buffer n) _ (copy_confirm-returns confirm buffer n)
          (λ c _ e. cc)

    module _
        (receives : (b : Bytes) (t : ℕ) (w : W)
          → link.receive b max_frame_size t w ≢ unfinished) where
      confirm_loop-returns :
          (fuel : ℕ) (request confirm : Bytes) (timeout_ms : ℕ) (buffer : Bytes)
          (attempt retries : ℕ) (s : Statics W)
          → attempt ≤ max_confirm_attempt
          → retries ≤ max_crc_request_error_retries
          → max_confirm_attempt - attempt + (max_crc_request_error_retries - retries) < fuel
          → confirm_loop link fuel request confirm timeout_ms buffer attempt retries s ≢ unfinished
      unfolding confirm_loop confirm_turn
      confirm_loop-returns zero request confirm timeout_ms buffer attempt retries s l m n =
          absurd (omega arith)
      confirm_loop-returns (suc fuel) request confirm timeout_ms buffer attempt retries s l m n =
          elim (Bool-cases (ltb attempt max_confirm_attempt)) [
            | inr q ↦ λ h.
                (let k : ok (answered sync_error confirm, s) ≡ unfinished =
                    rw (confirm_loop, q) at h in
                  cc)
            | inl q ↦
                rw (confirm_loop, q)
                  (>>=-returns (confirm_turn link request timeout_ms buffer attempt retries s) _
                    (>>=-returns (link.receive buffer max_frame_size timeout_ms s.world) _
                      (receives buffer timeout_ms s.world)
                      (λ r _. received_turn-returns request attempt retries s r.0 r.1 r.2))
                    (λ t e.
                      let (r, _, k) =
                        returned (link.receive buffer max_frame_size timeout_ms s.world) _ e in
                      end_turn-returns _ confirm t.1 t.2 attempt retries t.0
                        (is_next-received_turn request attempt retries s r.0 r.1 r.2 t k)
                        (λ a b g.
                          confirm_loop-returns fuel request confirm timeout_ms t.1 a b t.2
                            (ground arith) (ground arith) (ground arith))))
          ]

      -- If sending a frame and waiting for one always return, `send_request_locked` returns as
      -- well, for every request and whatever is received.
      pub send_request_locked-returns :
          (buffer request confirm : Bytes) (timeout_ms : ℕ) (s : Statics W)
          → send_request_locked link buffer request confirm timeout_ms s ≢ unfinished
      unfolding send_request_locked
      send_request_locked-returns buffer request confirm timeout_ms s =
          >>=-returns (frame_bytes (set request 1 s.frame_id)) _
            (frame_bytes-returns (set request 1 s.frame_id))
            (λ bytes _. >>=-returns (link.send bytes s.world) _ (sends bytes s.world) (λ r _.
              elim (Bool-cases (is_neg r.0)) [
                | inl q ↦ rw q (λ h. cc)
                | inr q ↦ rw q (
                    confirm_loop-returns confirm_fuel (set request 1 s.frame_id) confirm timeout_ms
                      buffer 0 0 (record s { frame_id = (s.frame_id + 1) % 256; world = r.1 })
                      (omega arith) (omega arith) (omega arith))
              ]))
