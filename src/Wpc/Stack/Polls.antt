-- ===== src/Wpc/Stack/Polls.antt =====
-- WPC_stop_stack of lib/wpc/wpc.c returns, and the polls go on.
use c_mesh_api.Wpc.OneByte.{HasRoom}
use c_mesh_api.Wpc.Errors.{
  AppRes, app_res_internal_error, app_res_stack_already_stopped, is_app_res_ok,
  app_res_access_denied, app_res_ok,
}
use c_mesh_api.Wpc.Stack.{
  Control, get_stack_status, stop_request, wait_for_reboot, wpc_stop_stack, StopTimeout, after_stop,
}
use c_mesh_api.Request.{Requests, Frames}
use native.Mathlib.Nat.{mul-le-mul_left, mod-le}
use mathlib.Core.Option
use c_mesh_api.Wpc.Stack.Wait.{
  Ticks, Answered, Later, status_loop-Later, msap_stack_stop_request-Later, wait_loop-returns,
}
use c_mesh_api.Prelude.{
  ℕ, none, some, true, false, ok, ◌*◌, ◌≤◌, ◌<◌, Option, ◌+◌, ℤ, ◌%◌, arith, ◌^◌, is_pos,
  if◌then◌else◌, ◌≡◌, not, refl, ◌⊎◌, Bool-cases, Option-cases, inl, inr,
}

-- The end of a span of time that begins at the reading `now`.
end_of_span :
    (k now span fuel t m : ℕ) → k * now ≤ t → k * span < fuel → k * ((now + span) % m) < t + fuel
end_of_span k now span fuel t m h l =
    let b : k * ((now + span) % m) ≤ k * (now + span) = mul-le-mul_left k (mod-le (now + span) m) in
    omega arith

module _ {S : Type 0} (requests : Requests S) (control : Control S) (time : S → ℕ) (k : ℕ)
    (ticks : Ticks requests control time k) (replies : Answered requests control time k) (fuel : ℕ)
    (frames : ℕ → Frames) (room : (i : ℕ) → HasRoom (frames i)) where
  get_stack_status-Later :
      (timeout_s : ℕ) (s : S)
      → k * (timeout_s % 2 ^ 16 * 1000) < fuel
      → Later requests control time k s (get_stack_status requests control fuel frames timeout_s s)
  unfolding get_stack_status
  get_stack_status-Later timeout_s s h =
      let (a, b, c) = ticks s in
      let now : ℕ = (control.get_timestamp_ms_monotonic s).0 in
      let s1 : S = (control.get_timestamp_ms_monotonic s).1 in
      let l = end_of_span k now (timeout_s % 2 ^ 16 * 1000) fuel (time s) (2 ^ 64) a h in
      let (res, s2, e, t) =
        status_loop-Later requests control time k replies ticks frames room fuel
          ((now + timeout_s % 2 ^ 16 * 1000) % 2 ^ 64) app_res_internal_error s1 (omega arith)
          (omega arith) in
      (Option.map is_app_res_ok res, s2, rw e refl, omega arith)

  wait_for_reboot-Later :
      (timeout_s : ℕ) (s : S)
      → k * 500 < fuel
      → k * (timeout_s % 2 ^ 16 * 1000) < fuel
      → Later requests control time k s (wait_for_reboot requests control fuel frames timeout_s s)
  unfolding wait_for_reboot
  wait_for_reboot-Later timeout_s s w h =
      let (a, b, c) = ticks s in
      let now : ℕ = (control.get_timestamp_ms_monotonic s).0 in
      let s1 : S = (control.get_timestamp_ms_monotonic s).1 in
      let l = end_of_span k now 500 fuel (time s) (2 ^ 64) a w in
      let (s2, e, t) =
        wait_loop-returns requests control time k ticks fuel ((now + 500) % 2 ^ 64) s1 (omega arith)
          (omega arith) in
      let (up, s3, e', t') = get_stack_status-Later timeout_s s2 h in
      (
        Option.map (λ b. if not b then app_res_internal_error else app_res_ok) up,
        s3,
        rw e (rw e' refl),
        omega arith,
      )

  after_stop-Later :
      (answer : Option ℤ) (timeout_s : ℕ) (s : S)
      → k * 500 < fuel
      → k * (timeout_s % 2 ^ 16 * 1000) < fuel
      → Later requests control time k s (after_stop requests control fuel frames timeout_s answer s)
  unfolding after_stop
  after_stop-Later none timeout_s s w h = (none, s, refl, omega arith)
  after_stop-Later (some res) timeout_s s w h = elim (Bool-cases (is_pos res 1)) [
    | inl q ↦ (some app_res_stack_already_stopped, s, rw (after_stop, q) refl, omega arith)
    | inr q ↦ elim (Bool-cases (is_pos res 128)) [
      | inl r ↦ (some app_res_access_denied, s, rw (after_stop, q, r) refl, omega arith)
      | inr r ↦ rw (after_stop, q, r) (wait_for_reboot-Later timeout_s s w h)
    ]
  ]

  stop_request-Later :
      (first : Frames) (timeout_s : ℕ) (s : S)
      → HasRoom first
      → k * 500 < fuel
      → k * (timeout_s % 2 ^ 16 * 1000) < fuel
      → Later requests control time k s
          (stop_request requests control fuel first frames timeout_s s)
  unfolding stop_request
  stop_request-Later first timeout_s s r w h =
      let (answer, s1, e, t) =
        msap_stack_stop_request-Later requests control time k replies first s r in
      let (res, s2, e', t') = after_stop-Later answer timeout_s s1 w h in
      (res, s2, rw e e', omega arith)

  -- If each request is answered, with whatever it is, or ends the process, each reading of the clock
  -- takes one of the `k` ticks of a millisecond at least, time does not go back, the local frames
  -- have room, and there is fuel for the ticks of half a second and for those of the time out that
  -- is kept, modulo 2 ^ 16 seconds, then `WPC_stop_stack` returns, with the polls not disabled, or
  -- the process has ended.
  pub wpc_stop_stack-polls :
      (first : Frames) (t : StopTimeout S)
      → HasRoom first
      → k * 500 < fuel
      → k * (t.m_timeout_after_stop_task_s % 2 ^ 16 * 1000) < fuel
      → (res : Option AppRes) × (t' : StopTimeout S) × (wpc_stop_stack requests control fuel first
            frames t
          ≡ ok (res, t'))
        × ((res ≡ none) ⊎ (control.is_poll_disabled t'.below ≡ false))
  unfolding wpc_stop_stack
  wpc_stop_stack-polls first t r w h =
      let (res, s, e, l) =
        stop_request-Later first t.m_timeout_after_stop_task_s
          (control.disable_poll_request true t.below) r w h in
      (
        res,
        record t {
          below = elim res [ none ↦ s | some res' ↦ control.disable_poll_request false s ];
        },
        rw e refl,
        elim (Option-cases res) [
          | inl q ↦ inl q
          | inr (res', q) ↦ inr (rw q (control.disable_poll_request_lem false s))
        ],
      )
