-- ===== src/Wpc/Stack/Restart.antt =====
-- WPC_start_stack of lib/wpc/wpc.c with a node that answers in time.
use c_mesh_api.Wpc.Stack.Status.{Prompt, StartsStack, TellsStatus, status_told, status_asked}
use c_mesh_api.Request.Frame.{frame_of, fill_request-frame_of}
use c_mesh_api.Msap.Callbacks.{msap_stack_start_request, Registry, status_call}
use c_mesh_api.Wpc.Errors.{app_res_ok, AppRes, is_app_res_ok, app_res_internal_error}
use c_mesh_api.Wpc.OneByte.{HasRoom}
use c_mesh_api.Wpc.Stack.Wait.{Ticks, status_loop-asked}
use c_mesh_api.Wpc.Stack.{Control, status_loop, get_stack_status, wpc_start_stack, start_error}
use c_mesh_api.Request.{Requests, Frames, confirm_result, plain_request}
use native.Mathlib.Nat.{lt_of_mul-lt-mul_left}
use c_mesh_api.WpcInternal.{answered, timeout_confirm_ms}
use c_mesh_api.Prelude.{
  ℕ, some, true, zero, suc, pos, Bytes, ok, ◌≡◌, ◌≤◌, ◌+◌, ◌*◌, refl, ◌<◌, arith, ltb, inl,
  Bool-cases, inr, leb, ◌>>=◌, ◌∙◌, ap, ◌^◌, ◌%◌, ◌∷◌, [], ok-injective, sym,
}

module _ {S : Type 0} (requests : Requests S) (control : Control S) (time : S → ℕ) (k d : ℕ) where
  module _ (ticks : Ticks requests control time k) (prompt : Prompt requests control time k d)
      (frames : ℕ → Frames) (room : (i : ℕ) → HasRoom (frames i)) where
    status_loop-done :
        (fuel timeout : ℕ) (res : AppRes) (s : S)
        → 0 < fuel
        → is_app_res_ok res ≡ true
        → status_loop requests control fuel frames timeout res s ≡ ok (some res, s)
    unfolding status_loop
    status_loop-done zero timeout res s h p = absurd (omega arith)
    status_loop-done (suc fuel) timeout res s h p = rw (status_loop, p) refl

    pub status_loop-up :
        (boot timeout fuel : ℕ) (res : AppRes) (s : S)
        → TellsStatus requests control time k d boot
        → boot + 2 * d < k * timeout
        → time s ≤ boot + 2 * d
        → boot + 2 < time s + fuel
        → 1 < fuel
        → (res' : AppRes) × (s' : S) × (status_loop requests control fuel frames timeout res s
            ≡ ok (some res', s'))
          × (is_app_res_ok res' ≡ true)
    status_loop-up boot timeout zero res s tells b h f g = absurd (omega arith)
    status_loop-up boot timeout (suc fuel) res s tells b h f g =
        let now : ℕ = (control.get_timestamp_ms_monotonic s).0 in
        let s1 : S = (control.get_timestamp_ms_monotonic s).1 in
        let (x, y, z) = ticks s in
        let early : now < timeout = lt_of_mul-lt-mul_left k (omega arith) in
        let q : ltb now timeout ≡ true = ground arith in
        elim (Bool-cases (is_app_res_ok res)) [
          | inl p ↦ (res, s, status_loop-done (suc fuel) timeout res s (omega arith) p, p)
          | inr p ↦ elim (Bool-cases (leb boot (time s1))) [
            | inl r ↦
                let (value, s2, e) =
                  status_told requests control time k d boot (frames fuel) s1 tells (room fuel)
                    (ground arith) in
                (
                  app_res_ok,
                  s2,
                  status_loop-asked requests control fuel frames timeout res s s2 (some value) p q
                        app_res_ok e
                      ∙ status_loop-done fuel timeout app_res_ok s2 (omega arith) refl,
                  refl,
                )
            | inr r ↦
                let before : time s1 < boot = ground arith in
                let (res', value, s2, e, a, c) =
                  status_asked requests control time k d (frames fuel) s1 prompt (room fuel) in
                let (res2, s3, e', p') =
                  status_loop-up boot timeout fuel res' s2 tells b (omega arith) (omega arith)
                    (omega arith) in
                (
                  res2,
                  s3,
                  status_loop-asked requests control fuel frames timeout res s s2 value p q res' e
                      ∙ e',
                  p',
                )
          ]
        ]

    get_stack_status-status_loop :
        (fuel timeout : ℕ) (res : AppRes) (s s' : S)
        → ((control.get_timestamp_ms_monotonic s).0 + 2000) % 2 ^ 64 ≡ timeout
        → status_loop requests control fuel frames timeout app_res_internal_error
            (control.get_timestamp_ms_monotonic s).1
          ≡ ok (some res, s')
        → get_stack_status requests control fuel frames 2 s ≡ ok (some (is_app_res_ok res), s')
    unfolding get_stack_status
    get_stack_status-status_loop fuel timeout res s s' t e = rw (t, e, ◌>>=◌) refl

    get_stack_status-up :
        (boot fuel : ℕ) (s : S)
        → TellsStatus requests control time k d boot
        → time s ≤ boot + d
        → time s + 2000 * k < k * 2 ^ 64
        → boot + 2 * d + k ≤ time s + 2000 * k
        → boot + 2 < time s + fuel
        → 1 < fuel
        → (s' : S) × (get_stack_status requests control fuel frames 2 s ≡ ok (some true, s'))
    get_stack_status-up boot fuel s tells late width b f g =
        let now : ℕ = (control.get_timestamp_ms_monotonic s).0 in
        let s1 : S = (control.get_timestamp_ms_monotonic s).1 in
        let (x, y, z) = ticks s in
        let tick = prompt.1 s in
        let fits : now + 2000 < 2 ^ 64 = lt_of_mul-lt-mul_left k (omega arith) in
        let end : (now + 2000) % 2 ^ 64 ≡ now + 2000 = omega arith in
        let (res, s2, e, p) =
          status_loop-up boot (now + 2000) fuel app_res_internal_error s1 tells (omega arith)
            (omega arith) (omega arith) g in
        (
          s2,
          get_stack_status-status_loop fuel (now + 2000) res s s2 end e
              ∙ ap (λ b. ok (some b, s2)) p,
        )

    start_answered :
        {F : Type 0} (fuel : ℕ) (first : Frames) (t : Registry F S) (reply : Bytes) (s s' : S)
        → HasRoom first
        → requests.send_request_timeout
            (frame_of 0x05 1 (0 ∷ []) first.request)
            first.confirm
            timeout_confirm_ms
            t.lower
          ≡ ok (answered (pos 0) reply, s)
        → confirm_result reply ≡ 0
        → get_stack_status requests control fuel frames 2 s ≡ ok (some true, s')
        → wpc_start_stack requests control fuel first frames t
          ≡ ok (some app_res_ok, status_call requests t 0, record t { lower = s' })
    unfolding wpc_start_stack msap_stack_start_request plain_request start_error
    start_answered fuel first t reply s s' (r, c) e z up =
        rw (fill_request-frame_of 0x05 1 (0 ∷ []) first.request (omega arith))
          (rw (e, ◌>>=◌, z, up) (rw z refl))

    -- If the node answers the request to start its stack with result 0 and tells the state of the
    -- stack from `delay` ticks later on, every request is answered, perhaps with an error, in at
    -- most `d` ticks, and `delay + 2 * d` is at most 1999 milliseconds, then `WPC_start_stack`
    -- returns `APP_RES_OK` with fuel for `delay` ticks, and has called the callback for the stack's
    -- status, if there is one; this while the clock is more than two seconds from the end of its 64
    -- bits.
    pub wpc_start_stack-up :
        {F : Type 0} (delay fuel : ℕ) (first : Frames) (t : Registry F S)
        → StartsStack requests control time k d
        → TellsStatus requests control time k d (time t.lower + delay)
        → delay + 2 * d + k ≤ 2000 * k
        → time t.lower + d + 2000 * k < k * 2 ^ 64
        → delay + 2 < fuel
        → HasRoom first
        → (t' : Registry F S) × (wpc_start_stack requests control fuel first frames t
            ≡ ok (some app_res_ok, status_call requests t 0, t'))
    wpc_start_stack-up delay fuel first t starts tells short width f (r, c) =
        let frame : Bytes = frame_of 0x05 1 (0 ∷ []) first.request in
        let (reply, s1, e, z) = starts frame first.confirm t.lower refl in
        let (res2, reply2, s2, e2, a, b) =
          prompt.0 frame first.confirm timeout_confirm_ms t.lower in
        let same : s1 ≡ s2 =
          ap (λ x. x.1)
            (ok-injective (answered (pos 0) reply, s1) (answered res2 reply2, s2) (sym e ∙ e2)) in
        let after : time s1 ≡ time s2 = ap time same in
        let (s3, e3) =
          get_stack_status-up (time t.lower + delay) fuel s1 tells (omega arith) (omega arith)
            (omega arith) (omega arith) (omega arith) in
        (record t { lower = s3 }, start_answered fuel first t reply s1 s3 (r, c) e z e3)
