-- ===== src/Slip/Codec/Sound.antt =====
-- What `Slip_decode` accepts carries its check sum.
use c_mesh_api.Slip.Crc.{crc_from_buffer}
use c_mesh_api.Slip.Codec.{
  decode_byte, decode_loop, Decoding, unescape_at, crc_of_prefix, slip_decode, slip_decode_buffer,
  check_crc, uint16_at, crc_from_buffer,
}
use c_mesh_api.Prelude.{
  ℕ, ◌<◌, ◌≡◌, ok, ◌^◌, length, returned, suc, Bool-cases, load, ltb, inl, store, arith, inr,
  length-store, zero, false, sym, true, unfinished, Bytes, refl, ◌∙◌, pos, ◌+◌, ◌>>=◌, ◌-◌, ◌%◌,
  take, Outcome, ℤ, ◌≢◌, >>=-returns, ltb→lt,
}

-- A round keeps the array's size, and `write` stays a `uint8_t`.
decode_byte_keeps :
    (d : Decoding) {d' : Decoding}
    → decode_byte d ≡ ok d'
    → (length d'.buffer ≡ length d.buffer) × (d'.write < 2 ^ 8)
unfolding decode_byte
decode_byte_keeps d h =
    let (c, read, h1) = returned (load d.buffer d.read) _ h in
    let (p, plain, h2) = returned (unescape_at d.buffer d.read c) _ h1 in
    let (b, written, h3) = returned (store d.buffer d.write p.0) _ h2 in
    ground (arith, length-store d.buffer d.write p.0 written)

decode_loop_more :
    (fuel len : ℕ) (d : Decoding)
    → ltb d.read len ≡ true
    → decode_loop (suc fuel) len d ≡ (decode_byte d >>= decode_loop fuel len)
unfolding decode_loop
decode_loop_more fuel len d h = ground arith

decode_loop_stop :
    (fuel len : ℕ) (d : Decoding) → ltb d.read len ≡ false → decode_loop (suc fuel) len d ≡ ok d
unfolding decode_loop
decode_loop_stop fuel len d h = ground arith

decode_loop-zero : (len : ℕ) (d : Decoding) → decode_loop zero len d ≡ unfinished
unfolding decode_loop
decode_loop-zero len d = refl

decode_loop_keeps :
    (fuel len : ℕ) (d : Decoding) {d' : Decoding}
    → d.write < 2 ^ 8
    → decode_loop fuel len d ≡ ok d'
    → (length d'.buffer ≡ length d.buffer) × (d'.write < 2 ^ 8)
decode_loop_keeps zero len d w h = cc (decode_loop-zero len d)
decode_loop_keeps (suc fuel) len d w h = elim (Bool-cases (ltb d.read len)) [
  | inl more ↦
      let (e, step, later) =
        returned (decode_byte d) (decode_loop fuel len)
          (sym (decode_loop_more fuel len d more) ∙ h) in
      let kept = decode_byte_keeps d step in
      let rest = decode_loop_keeps fuel len e kept.1 later in (rest.0 ∙ kept.0, rest.1)
  | inr done ↦ ground (arith, decode_loop_stop fuel len d done)
]

slip_decode_buffer_keeps :
    (buffer buffer' : Bytes) (len size : ℕ)
    → slip_decode_buffer buffer len ≡ ok (buffer', size)
    → (length buffer' ≡ length buffer) × (size < 2 ^ 8)
unfolding slip_decode_buffer
slip_decode_buffer_keeps buffer buffer' len size h =
    let start : Decoding = record { buffer = buffer; read = 0; write = 0 } in
    let (d, decoded, later) = returned (decode_loop (len + 1) len start) _ h in
    ground (arith, decode_loop_keeps (len + 1) len start (omega arith) decoded)

-- The end of `Slip_decode`, on the decoded array.
abbrev check_prefix : Bytes → ℕ → Outcome (ℤ × Bytes)
check_prefix b size = do
  crc ← crc_of_prefix b ((size + 2 ^ 32 - 2) % 2 ^ 32)
  crc_from_frame ← uint16_at b (size - 2)
  ok (check_crc crc crc_from_frame size, b)

check_prefix-crc :
    (b : Bytes) (size n : ℕ) {buffer' : Bytes}
    → length b < 2 ^ 31
    → size < 2 ^ 8
    → check_prefix b size ≡ ok (pos n, buffer')
    → uint16_at buffer' n ≡ ok (crc_from_buffer (take n buffer'))
unfolding crc_of_prefix check_crc
check_prefix-crc b size n small bound h =
    let (crc, computed, h1) = returned (crc_of_prefix b ((size + 2 ^ 32 - 2) % 2 ^ 32)) _ h in
    let (found, read, h2) = returned (uint16_at b (size - 2)) _ h1 in ground arith

-- When `Slip_decode` on an array of less than 2 ^ 31 bytes returns a length, the two bytes behind
-- that many bytes of the decoded array are, in little endian, the check sum of those bytes.
pub slip_decode-crc :
    (buffer buffer' : Bytes) (len n : ℕ)
    → length buffer < 2 ^ 31
    → slip_decode buffer len ≡ ok (pos n, buffer')
    → uint16_at buffer' n ≡ ok (crc_from_buffer (take n buffer'))
unfolding slip_decode
slip_decode-crc buffer buffer' len n small h =
    let (p, decoded, later) = returned (slip_decode_buffer buffer len) _ h in
    let kept = slip_decode_buffer_keeps buffer p.0 len p.1 decoded in
    check_prefix-crc p.0 p.1 n (omega (arith, kept.0)) kept.1 later

decode_byte_grows :
    (d : Decoding) {d' : Decoding} → d.read < 2 ^ 32 - 2 → decode_byte d ≡ ok d' → d.read < d'.read
unfolding decode_byte
decode_byte_grows d w h =
    let (c, read, h1) = returned (load d.buffer d.read) _ h in
    let (p, plain, h2) = returned (unescape_at d.buffer d.read c) _ h1 in
    let (b, written, h3) = returned (store d.buffer d.write p.0) _ h2 in
    unfold unescape_at load in ground arith

decode_byte_returns : (d : Decoding) → decode_byte d ≢ unfinished
unfolding decode_byte unescape_at load store
decode_byte_returns d = ground arith

decode_loop_finishes :
    (fuel len : ℕ) (d : Decoding)
    → len < 2 ^ 32 - 1
    → len - d.read < fuel
    → decode_loop fuel len d ≢ unfinished
decode_loop_finishes zero len d w h = absurd (omega arith)
decode_loop_finishes (suc fuel) len d w h = elim (Bool-cases (ltb d.read len)) [
  | inl more ↦ rw (decode_loop_more fuel len d more) (
      >>=-returns (decode_byte d) (decode_loop fuel len) (decode_byte_returns d) (λ e s.
        let before = ltb→lt d.read len more in
        decode_loop_finishes fuel len e w
          (omega (arith, decode_byte_grows d (omega arith) s, before))))
  | inr done ↦ rw (decode_loop_stop fuel len d done) (λ u. cc)
]

-- The loop of `slip_decode_buffer` ends, on every array and each length below 2 ^ 32 - 1, where the
-- 32-bit index cannot wrap: the fuel is enough.
pub slip_decode_buffer_finishes :
    (buffer : Bytes) (len : ℕ) → len < 2 ^ 32 - 1 → slip_decode_buffer buffer len ≢ unfinished
unfolding slip_decode_buffer
slip_decode_buffer_finishes buffer len h =
    let start : Decoding = record { buffer = buffer; read = 0; write = 0 } in
    >>=-returns (decode_loop (len + 1) len start) _
      (decode_loop_finishes (len + 1) len start h (omega arith)) (λ d e u. cc)
