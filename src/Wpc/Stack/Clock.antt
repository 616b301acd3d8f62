-- ===== src/Wpc/Stack/Clock.antt =====
-- A node that answers each request in one tick of a clock, which each reading moves on as well.
use c_mesh_api.Request.Frame.{overlay-append}
use c_mesh_api.Wpc.Stack.Status.{Prompt, StartsStack, TellsStatus}
use c_mesh_api.Wpc.Stack.Forever.{Monotonic}
use c_mesh_api.Wpc.Stack.Wait.{Answered, Ticks}
use c_mesh_api.Wpc.Stack.{Control}
use c_mesh_api.Request.{Requests, confirm_result}
use c_mesh_api.WpcInternal.{Answer, answered}
use c_mesh_api.Prelude.{
  ℕ, Bytes, Bool, ok, true, Outcome, [], ◌∷◌, pos, if◌then◌else◌, overlay, ℤ, ◌+◌, arith, inl, ltb,
  refl, ◌≡◌, sym, ◌^◌, ap, ◌-◌, length, ◌∙◌, length-overlay, ◌*◌,
}

pub record Clocked : Type 0 where
  pub tick : ℕ
  pub is_disabled : Bool

abbrev pub next_tick : Clocked → Clocked
next_tick s = record s { tick = s.tick + 1 }

-- The confirmation: result 0, and an attribute of one byte.
abbrev pub one_byte_reply : Bytes → Bytes
one_byte_reply confirm = overlay 0 (0 ∷ 0 ∷ 0 ∷ 0 ∷ 0 ∷ 0 ∷ 1 ∷ 1 ∷ []) confirm

one_byte_reply-result : (confirm : Bytes) → confirm_result (one_byte_reply confirm) ≡ 0
one_byte_reply-result [] = refl
one_byte_reply-result (a ∷ []) = refl
one_byte_reply-result (a ∷ b ∷ []) = refl
one_byte_reply-result (a ∷ b ∷ c ∷ []) = refl
one_byte_reply-result (a ∷ b ∷ c ∷ d ∷ rest) = refl

abbrev pub tick_answer : Bytes → Clocked → Outcome (Answer × Clocked)
tick_answer confirm s = ok (answered (pos 0) (one_byte_reply confirm), next_tick s)

abbrev pub tick_result : Outcome (Answer × Clocked) → ℤ
tick_result (ok (answered res confirm, s)) = res
tick_result _ = pos 1

abbrev pub tick_reply : Outcome (Answer × Clocked) → Bytes
tick_reply (ok (answered res confirm, s)) = confirm
tick_reply _ = []

abbrev pub tick_state : Clocked → Outcome (Answer × Clocked) → Clocked
tick_state t (ok (a, s)) = s
tick_state t _ = t

abbrev pub tick_node : Requests Clocked
tick_node = record {
  send_request_timeout = λ request confirm timeout_ms s. tick_answer confirm s;
  get_mtu = λ s. 102;
  set_mtu = λ mtu s. s;
  lock = λ s. s;
  unlock = λ s. s;
  answer = λ request confirm timeout_ms s s' res confirm' e. (
    inl (sym (ap tick_result e)),
    ap length (sym (ap tick_reply e))
        ∙ length-overlay 0 (0 ∷ 0 ∷ 0 ∷ 0 ∷ 0 ∷ 0 ∷ 1 ∷ 1 ∷ []) confirm,
  );
}

-- The clock shows `shown` of the ticks.
abbrev pub tick_control : (ℕ → ℕ) → Control Clocked
tick_control shown = record {
  set_timeout_s_no_answer = λ duration_s s. (true, s);
  disable_poll_request = λ b s. record s { is_disabled = b };
  is_poll_disabled = λ s. s.is_disabled;
  get_timestamp_ms_monotonic = λ s. (shown s.tick, next_tick s);
  disable_poll_request_lem = λ b s. refl;
}

-- A clock of 64 bits that stops at its end; a tick takes 600 milliseconds.
abbrev pub last_reading : ℕ → ℕ
last_reading t = if ltb (600 * t) (2 ^ 64) then 600 * t else 2 ^ 64 - 1

pub tick_control-Ticks : Ticks tick_node (tick_control (λ t. t)) (λ s. s.tick) 1
tick_control-Ticks s = (omega arith, omega arith, omega arith)

pub tick_control-Monotonic : Monotonic tick_node (tick_control last_reading)
tick_control-Monotonic s = (ground arith, ground arith)

pub tick_node-Answered : Answered tick_node (tick_control (λ t. t)) (λ s. s.tick) 1
tick_node-Answered request confirm timeout_ms s =
    (answered (pos 0) (one_byte_reply confirm), next_tick s, refl, omega arith)

pub tick_node-Prompt : Prompt tick_node (tick_control (λ t. t)) (λ s. s.tick) 1 1
tick_node-Prompt = (
  λ request confirm timeout_ms s.
      (pos 0, one_byte_reply confirm, next_tick s, refl, omega arith, omega arith),
  λ s. omega arith,
)

pub tick_node-TellsStatus :
    (boot : ℕ) → TellsStatus tick_node (tick_control (λ t. t)) (λ s. s.tick) 1 1 boot
tick_node-TellsStatus boot request confirm s h i b fits =
    let e = overlay-append (0 ∷ 0 ∷ 0 ∷ 0 ∷ 0 ∷ 0 ∷ 1 ∷ 1 ∷ []) confirm (omega arith) in
    (one_byte_reply confirm, next_tick s, refl, rw e refl, rw e refl)

pub tick_node-StartsStack : StartsStack tick_node (tick_control (λ t. t)) (λ s. s.tick) 1 1
tick_node-StartsStack request confirm s h =
    (one_byte_reply confirm, next_tick s, refl, one_byte_reply-result confirm)
