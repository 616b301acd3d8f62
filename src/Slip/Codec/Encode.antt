-- ===== src/Slip/Codec/Encode.antt =====
-- `slip_encode_buffer` and `Slip_encode` write the escaped bytes, where these fit.
use native.Mathlib.Nat.{zero-add}
use c_mesh_api.Prelude.{
  All, ◌%◌, sym, ℕ, ◌+◌, ◌-◌, ◌≤◌, ◌<◌, ◌^◌, [], ◌∷◌, ◌++◌, ◌≡◌, refl, Bytes, length, length-append,
  drop, drop-drop, length-drop, append_assoc, ◌∙◌, ap, arith, true, pos, ok, store-append,
}
use c_mesh_api.Slip.Crc.{crc_from_buffer}
use c_mesh_api.Slip.Codec.{
  esc_slip_octet, end_subs_octet, esc_subs_octet, put_byte, encode_byte, encode_loop,
  slip_encode_buffer, offset_by, room_left, is_minus_one, append_crc, crc_bytes, slip_encode,
}
use c_mesh_api.Slip.Codec.Escape.{escape_byte, escape, escape-append, length-escape-le}

put_byte_lem :
    (base len b w r : ℕ) (out room : Bytes)
    → base + w ≡ length out
    → w < len
    → w < 255
    → put_byte base len b (record { buffer = out ++ (r ∷ room); write = w })
      ≡ ok (true, record { buffer = out ++ (b ∷ room); write = w + 1 })
unfolding put_byte
put_byte_lem base len b w r out room e h k = ground (arith, store-append out room r b (base + w))

-- One byte goes out as its escaped form.
encode_byte-escape_byte :
    (base len c w : ℕ) (out room : Bytes)
    → base + w ≡ length out
    → length (escape_byte c) ≤ length room
    → w + length (escape_byte c) ≤ len
    → w + length (escape_byte c) < 256
    → encode_byte base len c (record { buffer = out ++ room; write = w })
      ≡ ok (
        true,
        record {
          buffer = (out ++ escape_byte c) ++ drop (length (escape_byte c)) room;
          write = w + length (escape_byte c);
        },
      )
unfolding encode_byte
encode_byte-escape_byte base len c w out [] e h k l = ground arith
encode_byte-escape_byte base len c w out (r ∷ []) e h k l =
    ground (arith, put_byte_lem base len c w r out [] e, append_assoc out (c ∷ []) [])
encode_byte-escape_byte base len c w out (r ∷ s ∷ room) e h k l = ground (
  arith,
  put_byte_lem base len c w r out (s ∷ room) e,
  put_byte_lem base len esc_slip_octet w r out (s ∷ room) e,
  put_byte_lem base len end_subs_octet (w + 1) s (out ++ (esc_slip_octet ∷ [])) room,
  put_byte_lem base len esc_subs_octet (w + 1) s (out ++ (esc_slip_octet ∷ [])) room,
  length-append out (esc_slip_octet ∷ []),
  append_assoc out (c ∷ []) (s ∷ room),
  append_assoc out (esc_slip_octet ∷ []) (s ∷ room),
  append_assoc out (esc_slip_octet ∷ []) (end_subs_octet ∷ room),
  append_assoc out (esc_slip_octet ∷ []) (esc_subs_octet ∷ room),
  append_assoc out (esc_slip_octet ∷ end_subs_octet ∷ []) room,
  append_assoc out (esc_slip_octet ∷ esc_subs_octet ∷ []) room,
)

encode_loop-escape :
    (base len : ℕ) (xs : Bytes) (w : ℕ) (out room : Bytes)
    → base + w ≡ length out
    → length (escape xs) ≤ length room
    → w + length (escape xs) ≤ len
    → w + length (escape xs) < 256
    → encode_loop base len xs (record { buffer = out ++ room; write = w })
      ≡ ok (pos (w + length (escape xs)), out ++ (escape xs ++ drop (length (escape xs)) room))
unfolding encode_loop escape
encode_loop-escape base len [] w out room e h k l = ground arith
encode_loop-escape base len (x ∷ xs) w out room e h k l =
    let size = length (escape_byte x) in
    let split = length-append (escape_byte x) (escape xs) in
    let step =
      encode_loop-escape base len xs (w + size) (out ++ escape_byte x) (drop size room)
        (omega (arith, length-append out (escape_byte x))) (omega (arith, length-drop size room))
        (omega arith) (omega arith) in
    rw (encode_byte-escape_byte base len x w out room e (omega arith) (omega arith) (omega arith)) (
      ground (
        arith,
        step,
        drop-drop size (length (escape xs)) room,
        append_assoc out (escape_byte x) (escape xs ++ drop (length (escape xs)) (drop size room)),
        append_assoc (escape_byte x) (escape xs) (drop (length (escape xs)) (drop size room)),
      ))

-- Where the escaped bytes fit into the array, the length given and a `uint8_t`,
-- `slip_encode_buffer` writes them and returns their number.
pub slip_encode_buffer-escape :
    (base len : ℕ) (xs out room : Bytes)
    → base ≡ length out
    → length (escape xs) ≤ length room
    → length (escape xs) ≤ len
    → length (escape xs) < 256
    → slip_encode_buffer xs (out ++ room) base len
      ≡ ok (pos (length (escape xs)), out ++ (escape xs ++ drop (length (escape xs)) room))
unfolding slip_encode_buffer
slip_encode_buffer-escape base len xs out room e h k l =
    encode_loop-escape base len xs 0 out room (omega arith) h (omega arith) (omega arith)
    ∙ rw zero-add

append_crc-escape :
    (base len : ℕ) (bs : Bytes) (t : ℕ) (out room : Bytes)
    → base + t ≡ length out
    → length (escape bs) ≤ length room
    → t + length (escape bs) ≤ len
    → len < 2 ^ 32
    → All (λ b. length (escape (b ∷ [])) < 256) bs
    → append_crc bs base len (pos t) (out ++ room)
      ≡ ok (pos (t + length (escape bs)), out ++ (escape bs ++ drop (length (escape bs)) room))
unfolding append_crc offset_by room_left is_minus_one
append_crc-escape base len [] t out room e h k l small = unfold escape in ground arith
append_crc-escape base len (b ∷ bs) t out room e h k l small =
    let one = escape (b ∷ []) in
    let size = length one in
    let split : escape (b ∷ bs) ≡ one ++ escape bs = escape-append (b ∷ []) bs in
    let sizes = length-append one (escape bs) in
    let total : length (escape (b ∷ bs)) ≡ size + length (escape bs) = rw split (omega arith) in
    let room_size : (len + 2 ^ 32 - t) % 2 ^ 32 ≡ len - t = omega arith in
    let written =
      slip_encode_buffer-escape (base + t) (len - t) (b ∷ []) out room e (omega arith) (omega arith)
        small.0 in
    let later =
      append_crc-escape base len bs (t + size) (out ++ one) (drop size room)
        (omega (arith, length-append out one)) (omega (arith, length-drop size room)) (omega arith)
        l small.1 in
    rw room_size (
      rw written (
        ap (append_crc bs base len (pos (t + size))) (sym (append_assoc out one (drop size room)))
        ∙ later
        ∙ ground (
          arith,
          drop-drop size (length (escape bs)) room,
          append_assoc out one (escape bs ++ drop (length (escape bs)) (drop size room)),
          append_assoc one (escape bs) (drop (length (escape bs)) (drop size room)),
        )))

-- A frame with its check sum in little endian behind it.
abbrev pub with_crc : Bytes → Bytes
with_crc frame = frame ++ crc_bytes (crc_from_buffer frame)

-- Where the escaped frame has less than 256 bytes, and fits into the array and the length given
-- together with its escaped check sum, `Slip_encode` writes the two and returns their length.
pub slip_encode-escape :
    (frame out room : Bytes) (len : ℕ)
    → length (escape (with_crc frame)) ≤ length room
    → length (escape (with_crc frame)) ≤ len
    → len < 2 ^ 32
    → length (escape frame) < 256
    → slip_encode frame (out ++ room) (length out) len
      ≡ ok (
        pos (length (escape (with_crc frame))),
        out ++ (escape (with_crc frame) ++ drop (length (escape (with_crc frame))) room),
      )
unfolding slip_encode
slip_encode-escape frame out room len h k l small =
    let crc = crc_bytes (crc_from_buffer frame) in
    let first = escape frame in
    let size = length first in
    let split : escape (with_crc frame) ≡ first ++ escape crc = escape-append frame crc in
    let sizes = length-append first (escape crc) in
    let total : length (escape (with_crc frame)) ≡ size + length (escape crc) =
      rw split (omega arith) in
    let written =
      slip_encode_buffer-escape (length out) len frame out room refl (omega arith) (omega arith)
        small in
    let later =
      append_crc-escape (length out) len crc size (out ++ first) (drop size room)
        (omega (arith, length-append out first)) (omega (arith, length-drop size room))
        (omega arith) l (unfold crc_bytes in (byte_small _, (byte_small _, tt))) in
    rw written (
      unfold is_minus_one in
      ap (append_crc crc (length out) len (pos size))
        (sym (append_assoc out first (drop size room)))
      ∙ later
      ∙ ground (
        arith,
        drop-drop size (length (escape crc)) room,
        append_assoc out first (escape crc ++ drop (length (escape crc)) (drop size room)),
        append_assoc first (escape crc) (drop (length (escape crc)) (drop size room)),
      ))
  where
    byte_small : (b : ℕ) → length (escape (b ∷ [])) < 256
    byte_small b = omega (arith, length-escape-le (b ∷ []))
