-- ===== src/Wpc/Stack/Forever.antt =====
-- WPC_stop_stack of lib/wpc/wpc.c after WPC_set_max_poll_fail_duration with a duration of which the
-- low 16 bits are 0.
use c_mesh_api.Msap.ConfigData.{msap_stack_stop_request}
use c_mesh_api.Wpc.Errors.{
  AppRes, app_res_internal_error, app_res_ok, is_app_res_ok, app_res_stack_already_stopped,
  app_res_access_denied,
}
use c_mesh_api.Wpc.Stack.{
  Control, get_stack_status, status_loop, after_stop, wait_for_reboot, wait_loop,
  wpc_set_max_poll_fail_duration, wpc_stop_stack, StopTimeout, stop_request,
}
use c_mesh_api.Request.{Requests, Frames}
use mathlib.Core.Option
use c_mesh_api.Prelude.{
  ℕ, none, some, true, false, zero, suc, ok, ◌≤◌, ◌<◌, Option, ◌^◌, Bool, ◌%◌, ◌≡◌, ltb, ◌+◌,
  returned, sym, ℤ, ◌*◌, ap, arith, ◌≢◌, ok-injective, Bool-cases, if◌then◌else◌, ◌∙◌, is_pos, not,
  refl, inl, inr, subst, Outcome,
}

module _ {S : Type 0} (requests : Requests S) (control : Control S) where
  -- The clock is one of 64 bits, and does not go back from one reading to the next.
  abbrev pub Monotonic : Type 0
  Monotonic =
      (s : S)
      → ((control.get_timestamp_ms_monotonic s).0
          ≤ (control.get_timestamp_ms_monotonic (control.get_timestamp_ms_monotonic s).1).0)
        × ((control.get_timestamp_ms_monotonic s).0 < 2 ^ 64)

  status_loop-late :
      (fuel : ℕ) (frames : ℕ → Frames) (timeout : ℕ) (s s' : S) (res : Option AppRes)
      → ltb (control.get_timestamp_ms_monotonic s).0 timeout ≡ false
      → status_loop requests control fuel frames timeout app_res_internal_error s ≡ ok (res, s')
      → res ≡ some app_res_internal_error
  unfolding status_loop
  status_loop-late zero frames timeout s s' res q e = cc
  status_loop-late (suc fuel) frames timeout s s' res q e =
      let over : status_loop requests control (suc fuel) frames timeout app_res_internal_error s
          ≡ ok (some app_res_internal_error, (control.get_timestamp_ms_monotonic s).1) =
        rw (status_loop, q) refl in
      sym (
        ap (λ r. r.0)
          (ok-injective (some app_res_internal_error, (control.get_timestamp_ms_monotonic s).1)
            (res, s') (sym over ∙ e)))

  -- The duration is kept where it is accepted.
  duration-kept :
      (duration_s : ℕ) (t : StopTimeout S)
      → (wpc_set_max_poll_fail_duration requests control duration_s t).0 ≡ app_res_ok
      → (wpc_set_max_poll_fail_duration requests control duration_s t).1.m_timeout_after_stop_task_s
        ≡ duration_s
  unfolding wpc_set_max_poll_fail_duration
  duration-kept duration_s t h =
      elim (Bool-cases (control.set_timeout_s_no_answer duration_s t.below).0) [
        | inl q ↦ rw q refl
        | inr q ↦ absurd (let h' = rw q at h in cc)
      ]

  result_not_ok :
      (s s' : S) (res : AppRes) (r : Option AppRes)
      → res ≢ app_res_ok
      → (let o : Outcome (Option AppRes × S) = ok (some res, s) in o) ≡ ok (r, s')
      → r ≢ some app_res_ok
  result_not_ok s s' res r h e = λ n. h (let p : res ≡ app_res_ok = cc in p)

  module _ (monotonic : Monotonic) (fuel : ℕ) (frames : ℕ → Frames) where
    get_stack_status-late :
        (timeout_s : ℕ) (s s' : S) (up : Option Bool)
        → timeout_s % 2 ^ 16 ≡ 0
        → get_stack_status requests control fuel frames timeout_s s ≡ ok (up, s')
        → up ≡ some false
    unfolding get_stack_status
    get_stack_status-late timeout_s s s' up z e =
        let (m, b) = monotonic s in
        let now : ℕ = (control.get_timestamp_ms_monotonic s).0 in
        let s1 : S = (control.get_timestamp_ms_monotonic s).1 in
        let end : (now + timeout_s % 2 ^ 16 * 1000) % 2 ^ 64 ≡ now = omega arith in
        let past : ltb (control.get_timestamp_ms_monotonic s1).0
              ((now + timeout_s % 2 ^ 16 * 1000) % 2 ^ 64)
            ≡ false =
          ground arith in
        let ((res, s2), e1, e2) =
          returned
            (status_loop requests control fuel frames ((now + timeout_s % 2 ^ 16 * 1000) % 2 ^ 64)
              app_res_internal_error s1)
            _ e in
        let failed =
          status_loop-late fuel frames ((now + timeout_s % 2 ^ 16 * 1000) % 2 ^ 64) s1 s2 res past
            e1 in
        sym (ap (λ r. r.0) (ok-injective (Option.map is_app_res_ok res, s2) (up, s') e2))
        ∙ ap (Option.map is_app_res_ok) failed

    wait_for_reboot-late :
        (timeout_s : ℕ) (s s' : S) (res : Option AppRes)
        → timeout_s % 2 ^ 16 ≡ 0
        → wait_for_reboot requests control fuel frames timeout_s s ≡ ok (res, s')
        → res ≡ some app_res_internal_error
    unfolding wait_for_reboot
    wait_for_reboot-late timeout_s s s' res z e =
        let (s2, e1, e2) =
          returned
            (wait_loop requests control fuel
              (((control.get_timestamp_ms_monotonic s).0 + 500) % 2 ^ 64)
              (control.get_timestamp_ms_monotonic s).1)
            _ e in
        let ((up, s3), e3, e4) =
          returned (get_stack_status requests control fuel frames timeout_s s2) _ e2 in
        let down = get_stack_status-late timeout_s s2 s3 up z e3 in
        sym (
          ap (λ r. r.0)
            (ok-injective
              (Option.map (λ b. if not b then app_res_internal_error else app_res_ok) up, s3)
              (res, s') e4))
        ∙ ap (Option.map (λ b. if not b then app_res_internal_error else app_res_ok)) down

    after_stop-late :
        (answer : Option ℤ) (timeout_s : ℕ) (s s' : S) (res : Option AppRes)
        → timeout_s % 2 ^ 16 ≡ 0
        → after_stop requests control fuel frames timeout_s answer s ≡ ok (res, s')
        → res ≢ some app_res_ok
    unfolding after_stop
    after_stop-late none timeout_s s s' res z e = λ n. cc
    after_stop-late (some r) timeout_s s s' res z e = elim (Bool-cases (is_pos r 1)) [
      | inl q ↦
          result_not_ok s s' app_res_stack_already_stopped res (λ n. cc) (rw (after_stop, q) at e)
      | inr q ↦ elim (Bool-cases (is_pos r 128)) [
        | inl p ↦
            result_not_ok s s' app_res_access_denied res (λ n. cc) (rw (after_stop, q, p) at e)
        | inr p ↦
            let failed = wait_for_reboot-late timeout_s s s' res z (rw (after_stop, q, p) at e) in
            λ n. cc
      ]
    ]

    -- With a duration of which the low 16 bits are 0, zero among them, that
    -- `WPC_set_max_poll_fail_duration` has accepted, `WPC_stop_stack` never returns `APP_RES_OK`,
    -- whatever the node answers, if the clock has 64 bits and does not go back between two readings.
    pub wpc_stop_stack-fails :
        (duration_s : ℕ) (first : Frames) (t : StopTimeout S) (res : Option AppRes)
        (t' : StopTimeout S)
        → duration_s % 2 ^ 16 ≡ 0
        → (wpc_set_max_poll_fail_duration requests control duration_s t).0 ≡ app_res_ok
        → wpc_stop_stack requests control fuel first frames
            (wpc_set_max_poll_fail_duration requests control duration_s t).1
          ≡ ok (res, t')
        → res ≢ some app_res_ok
    unfolding wpc_stop_stack stop_request
    wpc_stop_stack-fails duration_s first t res t' z kept e =
        let t1 : StopTimeout S = (wpc_set_max_poll_fail_duration requests control duration_s t).1 in
        let z' : t1.m_timeout_after_stop_task_s % 2 ^ 16 ≡ 0 =
          ap (λ n. n % 2 ^ 16) (duration-kept duration_s t kept) ∙ z in
        let ((f_res, s), e1, e2) =
          returned
            (stop_request requests control fuel first frames t1.m_timeout_after_stop_task_s
              (control.disable_poll_request true t1.below))
            _ e in
        let ((answer, s1), e3, e4) =
          returned
            (msap_stack_stop_request requests first (control.disable_poll_request true t1.below)) _
            e1 in
        let failed = after_stop-late answer t1.m_timeout_after_stop_task_s s1 s f_res z' e4 in
        let same : f_res ≡ res =
          ap (λ r. r.0)
            (ok-injective
              (
                f_res,
                record t1 {
                  below = elim f_res [ none ↦ s | some r ↦ control.disable_poll_request false s ];
                },
              )
              (res, t') e2) in
        subst (λ r. r ≢ some app_res_ok) same failed
