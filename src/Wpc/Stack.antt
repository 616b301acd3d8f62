-- ===== src/Wpc/Stack.antt =====
-- The start and the stop of the node's stack in lib/wpc/wpc.c, and the limits of time. The loops
-- that wait take fuel, one unit for each test of their condition.
pub mod Wait
pub mod Polls
pub mod Forever
pub mod Status
pub mod Restart
pub mod Clock
use mathlib.Core.Option
use c_mesh_api.Wpc.Management.{wpc_get_stack_status}
use c_mesh_api.Msap.ConfigData.{msap_stack_stop_request}
use c_mesh_api.Msap.Callbacks.{Registry, CallbackCall, msap_stack_start_request}
use c_mesh_api.Wpc.Errors.{
  AppRes, app_res_ok, is_app_res_ok, app_res_access_denied, app_res_stack_already_started,
  app_res_stack_already_stopped, app_res_internal_error, app_res_net_add_not_set,
  app_res_node_add_not_set, app_res_role_not_set,
}
use c_mesh_api.Request.{Requests, Frames}
use c_mesh_api.Prelude.{
  ℕ, none, some, true, false, zero, suc, pos, negsuc, ok, Bool, Option, Outcome, ◌≡◌, if◌then◌else◌,
  unfinished, ◌>>=◌, List, ltb, ◌%◌, ◌+◌, is_pos, ◌==◌, ◌^◌, ◌*◌, ◌/◌, not, ℤ,
}

-- What is used of lib/wpc/wpc_internal.c and lib/platform beside requests.
pub record Control (S : Type 0) : Type 0 where
  -- `WPC_Int_set_timeout_s_no_answer`
  pub set_timeout_s_no_answer : ℕ → S → Bool × S
  -- `WPC_Int_disable_poll_request`, and the flag that it sets
  pub disable_poll_request : Bool → S → S
  pub is_poll_disabled : S → Bool
  -- `Platform_get_timestamp_ms_monotonic`
  pub get_timestamp_ms_monotonic : S → ℕ × S
  pub disable_poll_request_lem :
      (disabled : Bool) (s : S) → is_poll_disabled (disable_poll_request disabled s) ≡ disabled

-- `m_timeout_after_stop_task_s`, and the state below.
pub record StopTimeout (S : Type 0) : Type 0 where
  pub m_timeout_after_stop_task_s : ℕ
  pub below : S

-- `DEFAULT_TIMEOUT_AFTER_STOP_STACK_S`
abbrev pub default_timeout_after_stop_stack_s : ℕ
default_timeout_after_stop_stack_s = 60

-- What `WPC_start_stack` makes of a result that is not negative, `none` if it goes on. The masks
-- are quotients.
unfoldable pub start_error : ℕ → Option AppRes
start_error res =
    if res % 2 == 1
    then some app_res_stack_already_started
    else if res / 2 % 2 == 1
    then some app_res_net_add_not_set
    else if res / 4 % 2 == 1
    then some app_res_node_add_not_set
    else if res / 8 % 2 == 1
    then some app_res_role_not_set
    else if not (res == 0)
    then some app_res_internal_error
    else none

module _ {S : Type 0} (requests : Requests S) (control : Control S) where
  unfoldable pub wpc_set_max_poll_fail_duration : ℕ → StopTimeout S → AppRes × StopTimeout S
  wpc_set_max_poll_fail_duration duration_s t =
      let (done, s) = control.set_timeout_s_no_answer duration_s t.below in
      if done
      then (app_res_ok, record { m_timeout_after_stop_task_s = duration_s; below = s })
      else (app_res_access_denied, record t { below = s })

  -- The loop of `get_stack_status`: fuel, the local variables of the calls, the end of the time, and
  -- `res`. The result is `res`, or `none` if the process ends.
  unfoldable pub status_loop : ℕ → (ℕ → Frames) → ℕ → AppRes → S → Outcome (Option AppRes × S)
  status_loop zero frames timeout res s = unfinished
  status_loop (suc fuel) frames timeout res s = elim (is_app_res_ok res) [
    | true ↦ ok (some res, s)
    | false ↦
        let (now, s') = control.get_timestamp_ms_monotonic s in
        elim (ltb now timeout) [
          | false ↦ ok (some res, s')
          | true ↦ (do
            (r, s'') ← wpc_get_stack_status requests (frames fuel) s'
            elim r.0 [
              | none ↦ ok (none, s'')
              | some res' ↦ status_loop fuel frames timeout res' s''
            ])
        ]
  ]

  -- The argument is a `uint16_t`, and the end of the time 64 bits wide.
  unfoldable pub get_stack_status : ℕ → (ℕ → Frames) → ℕ → S → Outcome (Option Bool × S)
  get_stack_status fuel frames timeout_s s = do
    let (now, s') = control.get_timestamp_ms_monotonic s
    (res, s'') ←
        status_loop fuel frames ((now + timeout_s % 2 ^ 16 * 1000) % 2 ^ 64) app_res_internal_error
          s'
    ok (Option.map is_app_res_ok res, s'')

  -- The active wait.
  unfoldable pub wait_loop : ℕ → ℕ → S → Outcome S
  wait_loop zero end_wait s = unfinished
  wait_loop (suc fuel) end_wait s =
      let (now, s') = control.get_timestamp_ms_monotonic s in
      elim (ltb now end_wait) [ true ↦ wait_loop fuel end_wait s' | false ↦ ok s' ]

  -- The branch of `WPC_stop_stack` that waits: the result.
  unfoldable pub wait_for_reboot : ℕ → (ℕ → Frames) → ℕ → S → Outcome (Option AppRes × S)
  wait_for_reboot fuel frames timeout_s s = do
    let (now, s1) = control.get_timestamp_ms_monotonic s
    s2 ← wait_loop fuel ((now + 500) % 2 ^ 64) s1
    (up, s3) ← get_stack_status fuel frames timeout_s s2
    ok (Option.map (λ b. if not b then app_res_internal_error else app_res_ok) up, s3)

  -- What `WPC_stop_stack` makes of the result of the request, `none` if the process ended.
  unfoldable pub after_stop : ℕ → (ℕ → Frames) → ℕ → Option ℤ → S → Outcome (Option AppRes × S)
  after_stop fuel frames timeout_s none s = ok (none, s)
  after_stop fuel frames timeout_s (some res) s = elim (is_pos res 1) [
    | true ↦ ok (some app_res_stack_already_stopped, s)
    | false ↦ elim (is_pos res 128) [
      | true ↦ ok (some app_res_access_denied, s)
      | false ↦ wait_for_reboot fuel frames timeout_s s
    ]
  ]

  -- The part of `WPC_stop_stack` between the two calls of `WPC_Int_disable_poll_request`.
  unfoldable pub stop_request : ℕ → Frames → (ℕ → Frames) → ℕ → S → Outcome (Option AppRes × S)
  stop_request fuel first frames timeout_s s = do
    (answer, s') ← msap_stack_stop_request requests first s
    after_stop fuel frames timeout_s answer s'

  -- The result is `none` if the process ends, and the polls stay as they are then.
  unfoldable pub wpc_stop_stack :
      ℕ → Frames → (ℕ → Frames) → StopTimeout S → Outcome (Option AppRes × StopTimeout S)
  wpc_stop_stack fuel first frames t = do
    (f_res, s) ←
        stop_request fuel first frames t.m_timeout_after_stop_task_s
          (control.disable_poll_request true t.below)
    ok (
      f_res,
      record t {
        below = elim f_res [ none ↦ s | some res ↦ control.disable_poll_request false s ];
      },
    )

  -- The result, the calls of callbacks and the state.
  unfoldable pub wpc_start_stack :
      {F : Type 0}
      → ℕ
      → Frames
      → (ℕ → Frames)
      → Registry F S
      → Outcome (Option AppRes × List (CallbackCall F) × Registry F S)
  wpc_start_stack fuel first frames t = do
    (answer, calls, t') ← msap_stack_start_request requests 0 first t
    elim answer [
      | none ↦ ok (none, calls, t')
      | some (negsuc n) ↦ ok (some app_res_internal_error, calls, t')
      | some (pos res) ↦ elim (start_error res) [
        | some error ↦ ok (some error, calls, t')
        | none ↦ (do
          (up, s) ← get_stack_status fuel frames 2 t'.lower
          ok (
            Option.map (λ b. if not b then app_res_internal_error else app_res_ok) up,
            calls,
            record t' { lower = s },
          ))
      ]
    ]
