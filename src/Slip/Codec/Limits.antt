-- ===== src/Slip/Codec/Limits.antt =====
-- The encoder beyond its limits: the 8-bit index wraps, and a buffer that is too small is not
-- recognised by `Slip_encode`.
use native.Mathlib.Nat.{zero-add}
use native.Mathlib.Decide.{dec_le}
use c_mesh_api.Slip.Codec.Escape.{escape, escape_byte}
use c_mesh_api.Slip.Codec.{
  Encoding, encode_byte, encode_loop, put_byte, slip_encode_buffer, end_slip_octet, end_subs_octet,
  esc_slip_octet, esc_subs_octet, slip_encode, wrong_buffer_size, append_crc, is_minus_one,
  offset_by, crc_bytes,
}
use c_mesh_api.Prelude.{
  ℕ, Bytes, if◌then◌else◌, length, set, store, ◌<◌, ◌≤◌, ◌+◌, ◌==◌, ◌≡◌, arith, ok, ◌%◌, false,
  length-set, pos, true, ◌^◌, ◌∷◌, length-append, ◌∙◌, [], ◌++◌, ◌||◌, ap, ◌&&◌, ltb, fault,
}

-- The state after one byte is stored.
abbrev stored : ℕ → ℕ → Encoding → Encoding
stored base b e = record { buffer = set e.buffer (base + e.write) b; write = (e.write + 1) % 2 ^ 8 }

put_byte-stored :
    (base len b : ℕ) (e : Encoding)
    → e.write < len
    → base + e.write < length e.buffer
    → put_byte base len b e ≡ ok (true, stored base b e)
unfolding put_byte store
put_byte-stored base len b e h k = ground arith

put_byte_full :
    (base len b : ℕ) (e : Encoding) → len ≤ e.write → put_byte base len b e ≡ ok (false, e)
unfolding put_byte
put_byte_full base len b e h = ground arith

abbrev stored_escaped : ℕ → ℕ → Encoding → Encoding
stored_escaped base c e =
    if c == end_slip_octet
    then stored base end_subs_octet (stored base esc_slip_octet e)
    else if c == esc_slip_octet
    then stored base esc_subs_octet (stored base esc_slip_octet e)
    else stored base c e

encode_byte-stored_escaped :
    (base len c : ℕ) (e : Encoding)
    → e.write < 256
    → 256 ≤ len
    → base + 256 ≤ length e.buffer
    → encode_byte base len c e ≡ ok (true, stored_escaped base c e)
unfolding encode_byte
encode_byte-stored_escaped base len c e w h k = ground (
  arith,
  put_byte-stored base len c e,
  put_byte-stored base len esc_slip_octet e,
  put_byte-stored base len end_subs_octet (stored base esc_slip_octet e),
  put_byte-stored base len esc_subs_octet (stored base esc_slip_octet e),
  length-set e.buffer (base + e.write) esc_slip_octet,
)

stored_escaped_write :
    (base c : ℕ) (e : Encoding)
    → e.write < 256
    → (stored_escaped base c e).write ≡ (e.write + length (escape_byte c)) % 256
stored_escaped_write base c e w = ground arith

length-stored_escaped :
    (base c : ℕ) (e : Encoding) → length (stored_escaped base c e).buffer ≡ length e.buffer
length-stored_escaped base c e = ground (
  arith,
  length-set e.buffer (base + e.write) esc_slip_octet,
  length-set e.buffer (base + e.write) c,
  length-set (set e.buffer (base + e.write) esc_slip_octet) (base + (e.write + 1) % 2 ^ 8)
      end_subs_octet,
  length-set (set e.buffer (base + e.write) esc_slip_octet) (base + (e.write + 1) % 2 ^ 8)
      esc_subs_octet,
)

encode_loop_wraps :
    (base len : ℕ) (xs : Bytes) (e : Encoding)
    → e.write < 256
    → 256 ≤ len
    → base + 256 ≤ length e.buffer
    → (out : Bytes) × (encode_loop base len xs e
        ≡ ok (pos ((e.write + length (escape xs)) % 256), out))
unfolding encode_loop escape
encode_loop_wraps base len [] e w h k = (e.buffer, ground arith)
encode_loop_wraps base len (x ∷ xs) e w h k =
    let e' = stored_escaped base x e in
    let written = stored_escaped_write base x e w in
    let sizes = length-append (escape_byte x) (escape xs) in
    let (out, later) =
      encode_loop_wraps base len xs e' (rw written (omega arith)) h
        (rw (length-stored_escaped base x e) k) in
    let count : (e'.write + length (escape xs)) % 256
        ≡ (e.write + length (escape_byte x ++ escape xs)) % 256 =
      omega (arith, written, sizes) in
    (
      out,
      rw (encode_byte-stored_escaped base len x e w h k) (later ∙ ap (λ n. ok (pos n, out)) count),
    )

-- Into a region of at least 256 bytes `slip_encode_buffer` never reports a lack of room: whatever
-- the input, it returns the length of the escaped bytes modulo 256.
pub slip_encode_buffer_wraps :
    (base len : ℕ) (xs out : Bytes)
    → 256 ≤ len
    → base + 256 ≤ length out
    → (out' : Bytes) × (slip_encode_buffer xs out base len
        ≡ ok (pos (length (escape xs) % 256), out'))
unfolding slip_encode_buffer
slip_encode_buffer_wraps base len xs out h k =
    rw zero-add at
      (encode_loop_wraps base len xs (record { buffer = out; write = 0 }) (omega arith) h k)

-- The state in which a byte that does not fit leaves the array.
abbrev cut_off : ℕ → ℕ → ℕ → Encoding → Encoding
cut_off base len c e =
    if (c == end_slip_octet || c == esc_slip_octet) && ltb e.write len
    then stored base esc_slip_octet e
    else e

encode_byte-cut_off :
    (base len c : ℕ) (e : Encoding)
    → len < 256
    → base + len ≤ length e.buffer
    → len < e.write + length (escape_byte c)
    → encode_byte base len c e ≡ ok (false, cut_off base len c e)
unfolding encode_byte
encode_byte-cut_off base len c e h k l = ground (
  arith,
  put_byte_full base len c e,
  put_byte_full base len esc_slip_octet e,
  put_byte-stored base len esc_slip_octet e,
  put_byte_full base len end_subs_octet (stored base esc_slip_octet e),
  put_byte_full base len esc_subs_octet (stored base esc_slip_octet e),
)

encode_byte_fits :
    (base len c : ℕ) (e : Encoding)
    → len < 256
    → base + len ≤ length e.buffer
    → e.write + length (escape_byte c) ≤ len
    → encode_byte base len c e ≡ ok (true, stored_escaped base c e)
unfolding encode_byte
encode_byte_fits base len c e h k l = ground (
  arith,
  put_byte-stored base len c e,
  put_byte-stored base len esc_slip_octet e,
  put_byte-stored base len end_subs_octet (stored base esc_slip_octet e),
  put_byte-stored base len esc_subs_octet (stored base esc_slip_octet e),
  length-set e.buffer (base + e.write) esc_slip_octet,
)

encode_loop_full :
    (base len : ℕ) (xs : Bytes) (e : Encoding)
    → len < 256
    → base + len ≤ length e.buffer
    → e.write ≤ len
    → len < e.write + length (escape xs)
    → (out : Bytes) × (encode_loop base len xs e ≡ ok (wrong_buffer_size, out))
unfolding encode_loop escape
encode_loop_full base len [] e h k w l = absurd (omega arith)
encode_loop_full base len (x ∷ xs) e h k w l =
    let sizes = length-append (escape_byte x) (escape xs) in
    elim (dec_le (e.write + length (escape_byte x)) len) [
      | yes fits ↦
          let e' = stored_escaped base x e in
          let written = stored_escaped_write base x e (omega arith) in
          let (out, later) =
            encode_loop_full base len xs e' h (rw (length-stored_escaped base x e) k)
              (omega (arith, written)) (omega (arith, written)) in
          (out, rw (encode_byte_fits base len x e h k fits) later)
      | no over ↦
          ((cut_off base len x e).buffer, rw (encode_byte-cut_off base len x e h k (omega arith)))
    ]

-- A region of less than 256 bytes that the escaped frame does not fit makes `slip_encode_buffer`
-- report it, and `Slip_encode`, which looks for another code, goes on with the negative result as
-- an offset: it writes before the array when the region starts in the first six bytes of it.
pub slip_encode_too_small :
    (frame out : Bytes) (base len : ℕ)
    → len < 256
    → base + len ≤ length out
    → len < length (escape frame)
    → base < 6
    → slip_encode frame out base len ≡ fault
unfolding slip_encode slip_encode_buffer append_crc is_minus_one offset_by crc_bytes
slip_encode_too_small frame out base len h k l b =
    let (out', full) =
      encode_loop_full base len frame (record { buffer = out; write = 0 }) h k (omega arith)
        (rw zero-add l) in
    rw full (ground arith)
