-- ===== src/Wpc/Stack/Wait.antt =====
-- The loops of lib/wpc/wpc.c that wait for the node end.
use c_mesh_api.Wpc.OneByte.{HasRoom, read_frame, attribute_read_request-returns}
use c_mesh_api.WpcInternal.{Answer}
use c_mesh_api.Wpc.Configuration.{first_byte}
use c_mesh_api.Wpc.Errors.{AppRes, is_app_res_ok, converted, att_read_error_code_lut}
use c_mesh_api.Msap.ConfigData.{msap_stack_stop_request}
use c_mesh_api.Wpc.Management.{wpc_get_stack_status, read_single_byte_msap}
use c_mesh_api.Request.Frame.{frame_of, fill_request-frame_of}
use c_mesh_api.Attribute.{msap_attribute_read_request, msap_attribute_read}
use c_mesh_api.WpcInternal.{Answer, timeout_confirm_ms}
use c_mesh_api.Wpc.Stack.{Control, wait_loop, status_loop}
use c_mesh_api.Request.{Requests, Frames, confirm_result, plain_request, on_confirm}
use native.Mathlib.Nat.{mul-le-mul_left}
use c_mesh_api.Prelude.{
  ℕ, none, some, true, false, zero, suc, pos, Bytes, ok, Outcome, ◌*◌, ◌<◌, ◌≡◌, ◌≤◌, ◌+◌, arith,
  Bool-cases, ltb, inr, inl, refl, Option, ◌∙◌, [],
}

-- A round of the loop of `get_stack_status` that asks for the status.
module _ {S : Type 0} (requests : Requests S) (control : Control S) (fuel : ℕ) (frames : ℕ → Frames)
    (timeout : ℕ) (res : AppRes) (s s' : S) (value : Option ℕ) (p : is_app_res_ok res ≡ false)
    (q : ltb (control.get_timestamp_ms_monotonic s).0 timeout ≡ true) where
  pub status_loop-asked :
      (res' : AppRes)
      → wpc_get_stack_status requests (frames fuel) (control.get_timestamp_ms_monotonic s).1
        ≡ ok ((some res', value), s')
      → status_loop requests control (suc fuel) frames timeout res s
        ≡ status_loop requests control fuel frames timeout res' s'
  unfolding status_loop
  status_loop-asked res' e = rw (status_loop, p, q) (rw e refl)

  status_loop-exited :
      wpc_get_stack_status requests (frames fuel) (control.get_timestamp_ms_monotonic s).1
        ≡ ok ((none, value), s')
      → status_loop requests control (suc fuel) frames timeout res s ≡ ok (none, s')
  unfolding status_loop
  status_loop-exited e = rw (status_loop, p, q) (rw e refl)

module _ {S : Type 0} (requests : Requests S) (control : Control S) (time : S → ℕ) (k : ℕ) where
  -- `time` counts ticks, of which a millisecond has `k`, and each reading of the clock takes one at
  -- least.
  abbrev pub Ticks : Type 0
  Ticks =
      (s : S)
      → (k * (control.get_timestamp_ms_monotonic s).0 ≤ time s)
        × (time s < k * (control.get_timestamp_ms_monotonic s).0 + k)
        × (time s < time (control.get_timestamp_ms_monotonic s).1)

  -- Each request is answered, or the process ends, and time does not go back.
  abbrev pub Answered : Type 0
  Answered =
      (request confirm : Bytes) (timeout_ms : ℕ) (s : S)
      → (answer : Answer) × (s' : S) × (requests.send_request_timeout request confirm timeout_ms s
          ≡ ok (answer, s'))
        × (time s ≤ time s')

  abbrev pub Later : {A : Type 0} → S → Outcome (A × S) → Type 0
  Later {A} s o = (a : A) × (s' : S) × (o ≡ ok (a, s')) × (time s ≤ time s')

  module _ (ticks : Ticks) where
    pub wait_loop-returns :
        (fuel end_wait : ℕ) (s : S)
        → 0 < fuel
        → k * end_wait < time s + fuel
        → (s' : S) × (wait_loop requests control fuel end_wait s ≡ ok s') × (time s ≤ time s')
    unfolding wait_loop
    wait_loop-returns zero end_wait s h l = absurd (omega arith)
    wait_loop-returns (suc fuel) end_wait s h l =
        let now : ℕ = (control.get_timestamp_ms_monotonic s).0 in
        let s1 : S = (control.get_timestamp_ms_monotonic s).1 in
        let (a, b, c) = ticks s in
        elim (Bool-cases (ltb now end_wait)) [
          | inr q ↦ (s1, rw (wait_loop, q) refl, omega arith)
          | inl q ↦
              let before : now + 1 ≤ end_wait = ground arith in
              let m : k * (now + 1) ≤ k * end_wait = mul-le-mul_left k before in
              let (s', e, t) = wait_loop-returns fuel end_wait s1 (omega arith) (omega arith) in
              (s', rw (wait_loop, q) e, omega arith)
        ]

  module _ (replies : Answered) where
    pub wpc_get_stack_status-Later :
        (frames : Frames) (s : S)
        → HasRoom frames
        → Later s (wpc_get_stack_status requests frames s)
    unfolding wpc_get_stack_status read_single_byte_msap msap_attribute_read_request
    wpc_get_stack_status-Later frames s room =
        let (answer, s', e, t) =
          replies (read_frame requests msap_attribute_read 1 frames) frames.confirm
            timeout_confirm_ms s in
        let (read, e', k) =
          attribute_read_request-returns requests msap_attribute_read 1 frames s s' answer room e in
        (converted att_read_error_code_lut first_byte read, s', rw e' refl, t)

    pub msap_stack_stop_request-Later :
        (frames : Frames) (s : S)
        → HasRoom frames
        → Later s (msap_stack_stop_request requests frames s)
    unfolding msap_stack_stop_request plain_request
    msap_stack_stop_request-Later frames s (r, c) =
        let frame : Bytes = frame_of 0x06 0 [] frames.request in
        let (answer, s', e, t) = replies frame frames.confirm timeout_confirm_ms s in
        (
          (on_confirm tt (λ confirm. (some (pos (confirm_result confirm)), tt)) answer).0,
          s',
          rw (fill_request-frame_of 0x06 0 [] frames.request (omega arith)) (rw e refl),
          t,
        )

    module _ (ticks : Ticks) (frames : ℕ → Frames) (room : (i : ℕ) → HasRoom (frames i)) where
      asked-Later :
          (fuel timeout : ℕ) (res : AppRes) (s s' : S) (r : Option AppRes × Option ℕ)
          → is_app_res_ok res ≡ false
          → ltb (control.get_timestamp_ms_monotonic s).0 timeout ≡ true
          → wpc_get_stack_status requests (frames fuel) (control.get_timestamp_ms_monotonic s).1
            ≡ ok (r, s')
          → ((res' : AppRes) → Later s' (status_loop requests control fuel frames timeout res' s'))
          → time s ≤ time s'
          → Later s (status_loop requests control (suc fuel) frames timeout res s)
      asked-Later fuel timeout res s s' (none, value) p q e rest t = (
        none,
        s',
        status_loop-exited requests control fuel frames timeout res s s' value p q e,
        t,
      )
      asked-Later fuel timeout res s s' (some res', value) p q e rest t =
          let (f, s'', e', t') = rest res' in
          (
            f,
            s'',
            status_loop-asked requests control fuel frames timeout res s s' value p q res' e ∙ e',
            omega arith,
          )

      pub status_loop-Later :
          (fuel timeout : ℕ) (res : AppRes) (s : S)
          → 0 < fuel
          → k * timeout < time s + fuel
          → Later s (status_loop requests control fuel frames timeout res s)
      unfolding status_loop
      status_loop-Later zero timeout res s h l = absurd (omega arith)
      status_loop-Later (suc fuel) timeout res s h l =
          let now : ℕ = (control.get_timestamp_ms_monotonic s).0 in
          let s1 : S = (control.get_timestamp_ms_monotonic s).1 in
          let (a, b, c) = ticks s in
          elim (Bool-cases (is_app_res_ok res)) [
            | inl p ↦ (some res, s, rw (status_loop, p) refl, omega arith)
            | inr p ↦ elim (Bool-cases (ltb now timeout)) [
              | inr q ↦ (some res, s1, rw (status_loop, p, q) refl, omega arith)
              | inl q ↦
                  let before : now + 1 ≤ timeout = ground arith in
                  let m : k * (now + 1) ≤ k * timeout = mul-le-mul_left k before in
                  let (r, s2, e, t) = wpc_get_stack_status-Later (frames fuel) s1 (room fuel) in
                  asked-Later fuel timeout res s s2 r p q e
                    (λ res'. status_loop-Later fuel timeout res' s2 (omega arith) (omega arith))
                    (omega arith)
            ]
          ]
