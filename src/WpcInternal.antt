-- ===== src/WpcInternal.antt =====
-- lib/wpc/wpc_internal.c: requests and their confirmations, and the polling of indications.
-- The serial framing, the clock, the locks and the receiver of the indications are the record
-- `Link`, with a state `W` for all that is outside of this file; a frame `wpc_frame_t` is its bytes:
-- primitive id, frame id, payload length and payload. A request that finds the node silent for too
-- long ends the process; then the answer is `exited`.
pub mod Indication
pub mod Confirm
pub mod Lawful
pub mod Rounds
pub mod Poll
mod Tests
use c_mesh_api.Slip.Codec.{wrong_crc_from_host, gen_error, sync_error, wrong_crc}
use c_mesh_api.Reassembly.{sub64}
use c_mesh_api.Prelude.{
  ℕ, Bool, Bytes, ℤ, ◌+◌, Outcome, get_or, if◌then◌else◌, leb, ltb, not, set, unfinished, ◌==ℤ◌,
  ◌>>=◌, length, negsuc, ok, suc, ◌%◌, ◌==◌, is_neg, pos, take, true, ◌&&◌, false, fault, overlay,
  zero,
}

pub record Link (W : Type 0) : Type 0 where
  -- `Slip_send_buffer`
  pub send : Bytes → W → Outcome (ℤ × W)
  -- `Slip_get_buffer` with the buffer, its size and the time out: the result and the buffer
  pub receive : Bytes → ℕ → ℕ → W → Outcome (ℤ × Bytes × W)
  -- `Platform_get_timestamp_ms_monotonic` and `Platform_get_timestamp_ms_epoch`
  pub monotonic : W → ℕ × W
  pub epoch : W → ℕ × W
  -- `Platform_lock_request`, `Platform_unlock_request` and `Platform_close`
  pub lock : W → W
  pub unlock : W → W
  pub close : W → W

-- The static variables of the file, and `frame_id` of `send_request_locked`; the rest is `world`.
pub record Statics (W : Type 0) : Type 0 where
  pub frame_id : ℕ
  pub last_successful_answer_ts : ℕ
  pub timeout_no_answer_ms : ℕ
  pub mtu : ℕ
  pub disabled_poll_request : Bool
  pub world : W

-- The result with what is in `confirm`, or the end of the process.
pub data Answer : Type 0 where
  answered : ℤ → Bytes → Answer
  exited : Answer

-- The longest payload, that of a fragment received, has 201 bytes.
abbrev pub sizeof_frame : ℕ
sizeof_frame = 204

abbrev pub max_frame_size : ℕ
max_frame_size = sizeof_frame + 2

abbrev pub max_confirm_attempt : ℕ
max_confirm_attempt = 50

abbrev pub max_crc_request_error_retries : ℕ
max_crc_request_error_retries = 3

abbrev pub timeout_confirm_ms : ℕ
timeout_confirm_ms = 500

abbrev pub timeout_indication_ms : ℕ
timeout_indication_ms = 500

abbrev pub sap_confirm_offset : ℕ
sap_confirm_offset = 128

abbrev pub msap_indication_poll_request : ℕ
msap_indication_poll_request = 4

abbrev pub primitive_id : Bytes → ℕ
primitive_id frame = get_or frame 0 0

abbrev pub frame_id_of : Bytes → ℕ
frame_id_of frame = get_or frame 1 0

abbrev pub payload_length : Bytes → ℕ
payload_length frame = get_or frame 2 0

-- The bytes of a frame that are sent.
unfoldable pub frame_bytes : Bytes → Outcome Bytes
frame_bytes frame =
    if leb (payload_length frame + 3) (length frame)
    then ok (take (payload_length frame + 3) frame)
    else fault

-- How one round of the loop in `send_request_locked` ends.
pub data Turn : Type 0 where
  -- with the new values of `attempt` and `crc_request_retries`
  again : ℕ → ℕ → Turn
  give_back : ℤ → Turn
  exit : Turn
  -- with `confirm_size`
  matched : ℕ → Turn

-- The test of a received frame.
unfoldable pub check_confirm : Bytes → Bytes → ℕ → ℕ → ℕ → Turn
check_confirm request rec_confirm size attempt retries =
    if not (primitive_id rec_confirm == primitive_id request + sap_confirm_offset)
    then again (attempt + 1) retries
    else if not (frame_id_of rec_confirm == frame_id_of request)
    then again (attempt + 1) retries
    else matched size

-- `memcpy (confirm, buffer, confirm_size)`
unfoldable pub copy_confirm : Bytes → Bytes → ℕ → Outcome Bytes
copy_confirm confirm buffer size =
    if leb size (length confirm) && leb size (length buffer)
    then ok (overlay 0 (take size buffer) confirm)
    else fault

-- Rounds of the loop of `send_request_locked` that are enough.
abbrev pub confirm_fuel : ℕ
confirm_fuel = max_confirm_attempt + max_crc_request_error_retries + 1

module _ {W : Type 0} (link : Link W) where
  -- True if the process ends.
  unfoldable pub check_if_timeout_reached_locked : Statics W → Bool × Statics W
  check_if_timeout_reached_locked s =
      if ltb 0 s.timeout_no_answer_ms
      then (let (now, w) = link.monotonic s.world in
          if ltb s.timeout_no_answer_ms (sub64 now s.last_successful_answer_ts)
          then (true, record s { world = link.close (link.unlock w) })
          else (false, record s { world = w }))
      else (false, s)

  unfoldable pub return_or_exit : ℤ → Statics W → Turn × Statics W
  return_or_exit code s =
      let (exiting, s') = check_if_timeout_reached_locked s in
      (if exiting then exit else give_back code, s')

  -- The request is sent once more.
  unfoldable pub resend : Bytes → ℕ → ℕ → Statics W → Outcome (Turn × Statics W)
  resend request attempt retries s = do
    bytes ← frame_bytes request
    (sent, w) ← link.send bytes s.world
    ok (
        if is_neg sent
        then return_or_exit gen_error (record s { world = w })
        else (again attempt (retries + 1), record s { world = w }))

  -- What follows a receive error.
  unfoldable pub failed_receive : Bytes → ℕ → ℕ → ℤ → Statics W → Outcome (Turn × Statics W)
  failed_receive request attempt retries code s =
      if code ==ℤ wrong_crc_from_host
      then (if ltb retries max_crc_request_error_retries
          then resend request attempt retries s
          else ok (give_back code, s))
      else if code ==ℤ wrong_crc
      then ok (give_back code, s)
      else ok (return_or_exit code s)

  -- What a round does with the result of `Slip_get_buffer`.
  unfoldable pub received_turn :
      Bytes → ℕ → ℕ → Statics W → ℤ → Bytes → W → Outcome (Turn × Bytes × Statics W)
  received_turn request attempt retries s (negsuc e) buffer w = do
    (turn, s') ← failed_receive request attempt retries (negsuc e) (record s { world = w })
    ok (turn, buffer, s')
  received_turn request attempt retries s (pos n) buffer w =
      let (now, w') = link.monotonic w in
      ok (
        check_confirm request buffer n attempt retries,
        buffer,
        record s { world = w'; last_successful_answer_ts = now },
      )

  -- One round of the loop.
  unfoldable pub confirm_turn :
      Bytes → ℕ → Bytes → ℕ → ℕ → Statics W → Outcome (Turn × Bytes × Statics W)
  confirm_turn request timeout_ms buffer attempt retries s = do
    (size, buffer', w) ← link.receive buffer max_frame_size timeout_ms s.world
    received_turn request attempt retries s size buffer' w

  -- The end of a round: another one, or the answer.
  unfoldable pub end_turn :
      (ℕ → ℕ → Outcome (Answer × Statics W))
      → Bytes
      → Bytes
      → Statics W
      → Turn
      → Outcome (Answer × Statics W)
  end_turn next confirm buffer s (again attempt retries) = next attempt retries
  end_turn next confirm buffer s (give_back code) = ok (answered code confirm, s)
  end_turn next confirm buffer s exit = ok (exited, s)
  end_turn next confirm buffer s (matched size) = do
    confirm' ← copy_confirm confirm buffer size
    ok (answered (pos 0) confirm', s)

  -- The loop and what follows it; the first number is fuel.
  unfoldable pub confirm_loop :
      ℕ → Bytes → Bytes → ℕ → Bytes → ℕ → ℕ → Statics W → Outcome (Answer × Statics W)
  confirm_loop zero request confirm timeout_ms buffer attempt retries s = unfinished
  confirm_loop (suc fuel) request confirm timeout_ms buffer attempt retries s =
      elim (ltb attempt max_confirm_attempt) [
        | false ↦ ok (answered sync_error confirm, s)
        | true ↦ (do
          (turn, buffer', s') ← confirm_turn request timeout_ms buffer attempt retries s
          end_turn
              (λ attempt' retries'.
                confirm_loop fuel request confirm timeout_ms buffer' attempt' retries' s')
              confirm buffer' s' turn)
      ]

  -- `send_request_locked`; `buffer` is the local array, with any contents. The request is written
  -- its frame id; no caller reads it afterwards.
  unfoldable pub send_request_locked :
      Bytes → Bytes → Bytes → ℕ → Statics W → Outcome (Answer × Statics W)
  send_request_locked buffer request confirm timeout_ms s = do
    let request' = set request 1 s.frame_id
    bytes ← frame_bytes request'
    (sent, w) ← link.send bytes s.world
    let s' : Statics W = record s { frame_id = (s.frame_id + 1) % 256; world = w }
    if is_neg sent
        then (let (exiting, s'') = check_if_timeout_reached_locked s' in
            ok (if exiting then exited else answered gen_error confirm, s''))
        else confirm_loop confirm_fuel request' confirm timeout_ms buffer 0 0 s'
