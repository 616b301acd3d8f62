-- ===== src/WpcInternal/Tests.antt =====
-- The theorems on requests over a line that gives frames from a list.
use c_mesh_api.WpcInternal.Poll.{IsCount, indication_loop_count}
use c_mesh_api.WpcInternal.Indication.{indication_loop, handle_indication, send_response_to_stack}
use c_mesh_api.WpcInternal.Rounds.{send_request_locked-returns}
use c_mesh_api.WpcInternal.Confirm.{IsConfirmed, send_request_locked-IsConfirmed}
use c_mesh_api.Slip.Codec.{timeout_error}
use c_mesh_api.WpcInternal.{
  Link, frame_id_of, send_request_locked, Statics, confirm_loop, confirm_turn, received_turn,
  end_turn, check_confirm, copy_confirm, frame_bytes, answered,
}
use c_mesh_api.Prelude.{
  ℕ, Bytes, List, ok, set, ℤ, ◌∷◌, [], false, pos, ◌≡◌, length, overlay, replicate, arith, refl,
  ◌≢◌, unfinished, suc, ◌≤◌, ap, ◌+◌, sym, ◌⊎◌, ok-injective,
}

-- The state is the frames to come; the clock stands still, and sending succeeds.
abbrev next_frame : Bytes → List Bytes → ℤ × Bytes × List Bytes
next_frame buffer [] = (timeout_error, buffer, [])
next_frame buffer (f ∷ fs) = (pos (length f), overlay 0 f buffer, fs)

abbrev line : Link (List Bytes)
line = record {
  send = λ bytes w. ok (pos 0, w);
  receive = λ buffer len timeout_ms w. ok (next_frame buffer w);
  monotonic = λ w. (1000, w);
  epoch = λ w. (2000, w);
  lock = λ w. w;
  unlock = λ w. w;
  close = λ w. w;
}

abbrev with_frames : ℕ → List Bytes → Statics (List Bytes)
with_frames id frames = record {
  frame_id = id;
  last_successful_answer_ts = 0;
  timeout_no_answer_ms = 60000;
  mtu = 102;
  disabled_poll_request = false;
  world = frames;
}

abbrev request : Bytes
request = 1 ∷ 0 ∷ 0 ∷ []

abbrev late : Bytes
late = 129 ∷ 4 ∷ 1 ∷ 9 ∷ []

abbrev right : Bytes
right = 129 ∷ 5 ∷ 1 ∷ 0 ∷ []

-- A confirmation with an earlier frame id is passed over.
confirmed :
    send_request_locked line
      (replicate 206 0)
      request
      (replicate 4 7)
      500
      (with_frames 5 (late ∷ right ∷ []))
    ≡ ok (answered (pos 0) right, record (with_frames 6 []) { last_successful_answer_ts = 1000 })
unfolding send_request_locked confirm_loop confirm_turn received_turn end_turn check_confirm
    copy_confirm frame_bytes
confirmed = refl

send_request_locked-IsConfirmed_example :
    (frame_id_of (set request 1 5) ≡ 5)
    × IsConfirmed line (set request 1 5) (replicate 4 7) 500 right
send_request_locked-IsConfirmed_example =
    send_request_locked-IsConfirmed line (replicate 206 0) request (replicate 4 7) 500
      (with_frames 5 (late ∷ right ∷ []))
      (record (with_frames 6 []) { last_successful_answer_ts = 1000 }) right (omega arith) confirmed

send_request_locked-returns_example :
    send_request_locked line
      (replicate 206 0)
      request
      (replicate 4 7)
      500
      (with_frames 5 (late ∷ right ∷ []))
    ≢ unfinished
send_request_locked-returns_example =
    send_request_locked-returns line (λ b w h. cc) (λ b t w h. cc) (replicate 206 0) request
      (replicate 4 7) 500 (with_frames 5 (late ∷ right ∷ []))

-- A line whose state also counts what `cb_locked` gets.
abbrev counting : Link (List Bytes × ℕ)
counting = record {
  send = λ bytes w. ok (pos 0, w);
  receive = λ buffer len timeout_ms w. (let r = next_frame buffer w.0 in ok (r.0, r.1, (r.2, w.1)));
  monotonic = λ w. (1000, w);
  epoch = λ w. (2000, w);
  lock = λ w. w;
  unlock = λ w. w;
  close = λ w. w;
}

abbrev hand_over : Bytes → ℕ → List Bytes × ℕ → List Bytes × ℕ
hand_over frame timestamp w = (w.0, suc w.1)

abbrev two : List Bytes × ℕ
two = ((3 ∷ 8 ∷ 1 ∷ 1 ∷ []) ∷ (3 ∷ 9 ∷ 1 ∷ 1 ∷ []) ∷ [], 0)

polled : indication_loop counting hand_over (replicate 4 0) 2 (pos 1) two ≡ ok (pos 1, ([], 2))
unfolding indication_loop handle_indication send_response_to_stack
polled = refl

hand_over-IsCount : IsCount counting hand_over (λ w. w.1)
hand_over-IsCount = (
  λ frame timestamp w. refl,
  λ w. refl,
  λ bytes w w' r h. ap (λ x. x.1.1) (sym (ok-injective (pos 0, w) (r, w') h)),
  λ frame received n t w w' r h. ap (λ x. x.2.1) (sym (ok-injective _ (r, received, w') h)),
)

indication_loop_count_example : (2 ≤ 0 + 2) × ((pos 1 ≢ pos 1) ⊎ (2 ≡ 0 + 2))
indication_loop_count_example =
    indication_loop_count counting hand_over (λ w. w.1) (replicate 4 0) 2 (pos 1) two ([], 2)
      (pos 1) hand_over-IsCount polled
