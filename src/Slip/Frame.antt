-- ===== src/Slip/Frame.antt =====
-- lib/wpc/slip.c: `Slip_send_buffer`, `Slip_get_buffer` and `Slip_init`.
-- The serial line is a parameter: a function that writes a buffer, and the results that the read
-- function gives one after the other. Arrays on the stack begin with the contents `uninit`.
pub mod Send
pub mod Receive
pub mod RoundTrip
use c_mesh_api.Prelude.{
  ℕ, zero, suc, ◌+◌, ◌-◌, ◌*◌, ◌≤◌, ◌<◌, Bool, true, false, ◌&&◌, ◌||◌, Option, none, some, List,
  [], ◌∷◌, ◌++◌, Bytes, length, take, overlay, ltb, leb, ◌==◌, if◌then◌else◌, ℤ, pos, negsuc,
  is_pos, Outcome, ok, fault, unfinished, ◌>>=◌, load, store, ◌%◌, ◌^◌,
}
use c_mesh_api.Slip.Codec.{
  end_slip_octet, gen_error, timeout_error, wrong_param_error, offset_by, slip_encode, slip_decode,
}

-- `MAX_SIZE_ENCODED_BUFFER` of a `uint32_t`
abbrev pub max_size_encoded_buffer : ℕ → ℕ
max_size_encoded_buffer initial_len = (initial_len * 2 % 2 ^ 32 + 2 + 4) % 2 ^ 32

-- `for (int i = 0; i < 3; i++) encoded_buffer[i] = END_SLIP_OCTET`
unfoldable pub put_start : Bytes → Outcome Bytes
put_start out = do
  out1 ← store out 0 end_slip_octet
  out2 ← store out1 1 end_slip_octet
  store out2 2 end_slip_octet

-- `Slip_send_buffer`; `S` is the state of the line.
module _ {S : Type 0} (write_function : Bytes → S → ℤ × S) (uninit : ℕ → Bytes) where
  -- `write_function (encoded_buffer, total)`, and the test of its result.
  unfoldable pub write_encoded : Bytes → ℕ → S → ℤ × S
  write_encoded encoded total line =
      let (written_size, line') = write_function (take total encoded) line in
      (if is_pos written_size total then pos 0 else gen_error, line')

  unfoldable pub slip_send_buffer : Bytes → S → Outcome (ℤ × S)
  slip_send_buffer buffer line = do
    let len = length buffer
    let out = uninit (max_size_encoded_buffer len)
    out1 ← put_start out
    (size, out2) ← slip_encode buffer out1 3 (max_size_encoded_buffer len - 3)
    last ← offset_by 3 size
    out3 ← store out2 last end_slip_octet
    total ← offset_by 4 size
    ok (write_encoded out3 total line)

-- A result of `read_function`: 0, 1 with the byte read, or another value.
pub data ReadEvent : Type 0 where
  timeout : ReadEvent
  byte : ℕ → ReadEvent
  failed : ReadEvent

-- The variables of the loop of `Slip_get_buffer`.
pub record Receiving : Type 0 where
  pub buffer : Bytes
  pub size : ℕ
  pub started : Bool

-- What a round of the loop does: go on, leave by `break`, or return a code.
pub data Round : Type 0 where
  continue : Receiving → Round
  break : Receiving → Round
  return : ℤ → Round

-- `receiving_buffer[size] = read; size++`, and the test that follows.
unfoldable pub receive_byte : ℕ → Receiving → Outcome Round
receive_byte c r = do
  buffer' ← store r.buffer r.size c
  let r' = record r { buffer = buffer'; size = r.size + 1 }
  ok (if ltb (length r.buffer) (r.size + 1) then return gen_error else continue r')

unfoldable pub receive_end : Receiving → Round
receive_end r =
    if r.started
    then (if ltb r.size 4 then continue (record r { size = 0 }) else break r)
    else continue (record r { started = true })

unfoldable pub receive_event : ReadEvent → Receiving → Outcome Round
receive_event timeout r = ok (return timeout_error)
receive_event failed r = ok (continue r)
receive_event (byte c) r =
    if c == end_slip_octet
    then ok (receive_end r)
    else if r.started
    then receive_byte c r
    else ok (continue r)

-- A frame in the receiving buffer with its size, or the code returned; and the events left.
pub data Received : Type 0 where
  frame : Bytes → ℕ → Received
  code : ℤ → Received

unfoldable pub receive_loop : List ReadEvent → Receiving → Outcome (Received × List ReadEvent)
receive_loop [] r = unfinished
receive_loop (e ∷ events) r = do
  round ← receive_event e r
  elim round [
    | continue r' ↦ receive_loop events r'
    | break r' ↦ ok (frame r'.buffer r'.size, events)
    | return c ↦ ok (code c, events)
  ]

-- `memcpy (to, from, n)` between two arrays.
unfoldable pub copy_into : ℕ → Bytes → Bytes → Outcome Bytes
copy_into n from to =
    if leb n (length from) && leb n (length to) then ok (overlay 0 (take n from) to) else fault

-- The decoding of a received frame, and the copy to the caller's array `buffer`, which should have
-- the `len` bytes that are announced.
unfoldable pub deliver : Bytes → ℕ → Received → Outcome (ℤ × Bytes)
deliver buffer len (code c) = ok (c, buffer)
deliver buffer len (frame receiving size) = do
  (decoded_size, receiving') ← slip_decode receiving size
  elim decoded_size [
    | pos n ↦
        if ltb 0 n && leb n len
        then (do buffer' ← copy_into n receiving' buffer; ok (pos n, buffer'))
        else ok (pos n, buffer)
    | negsuc n ↦ ok (negsuc n, buffer)
  ]

module _ (uninit : ℕ → Bytes) where
  abbrev pub ready : ℕ → Receiving
  ready len = record { buffer = uninit (max_size_encoded_buffer len); size = 0; started = false }

  -- The result, the caller's buffer and the events left.
  unfoldable pub slip_get_buffer : Bytes → ℕ → List ReadEvent → Outcome (ℤ × Bytes × List ReadEvent)
  slip_get_buffer buffer len events = do
    (received, left) ← receive_loop events (ready len)
    (result, buffer') ← deliver buffer len received
    ok (result, buffer', left)

-- The two function pointers of the module, null at the start.
pub record Functions (W R : Type 0) : Type 0 where
  pub write_function : Option W
  pub read_function : Option R

-- `Slip_init`: null pointers are refused.
unfoldable pub slip_init : {W R : Type 0} → Option W → Option R → Functions W R → ℤ × Functions W R
slip_init (some write) (some read) f =
    (pos 0, record { write_function = some write; read_function = some read })
slip_init _ _ f = (wrong_param_error, f)
