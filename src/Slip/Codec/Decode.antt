-- ===== src/Slip/Codec/Decode.antt =====
-- `slip_decode_buffer` undoes the escaping in place, and `Slip_decode` accepts an encoded frame.
use native.Mathlib.Nat.{zero-add}
use native.Mathlib.Numerals.{add-one}
use c_mesh_api.Slip.Crc.{crc_from_buffer}
use c_mesh_api.Slip.Crc.Reference.{crc_from_buffer-lt}
use c_mesh_api.Slip.Codec.Encode.{with_crc}
use c_mesh_api.Prelude.{
  take-append, ℕ, suc, ◌+◌, ◌-◌, ◌*◌, ◌≤◌, ◌<◌, ◌^◌, ◌%◌, [], ◌∷◌, ◌++◌, ◌≡◌, refl, Bytes, length,
  length-append, append_assoc, arith, pos, ok, load, store, load-append, store-append, tail_of, sym,
  ap, ◌∙◌, zero, ◌/◌,
}
use c_mesh_api.Slip.Codec.{
  esc_slip_octet, end_subs_octet, esc_subs_octet, Decoding, decode_byte, decode_loop,
  slip_decode_buffer, uint16_at, crc_of_prefix, slip_decode, crc_bytes, check_crc,
}
use c_mesh_api.Slip.Codec.Escape.{escape_byte, escape, length-le-escape, length-escape-le}

-- Reading behind `out` and `gap`, where the bytes still to decode begin.
load_next :
    (out gap rest : Bytes) (x i : ℕ)
    → i ≡ length out + length gap
    → load (out ++ (gap ++ (x ∷ rest))) i ≡ ok x
load_next out gap rest x i e =
    rw (← append_assoc out gap (x ∷ rest))
      (load-append (out ++ gap) rest x i (omega (arith, length-append out gap)))

-- Writing at the end of `out`, over the first of the bytes that are decoded already.
store_consumed :
    (out gap rest : Bytes) (x v i : ℕ)
    → i ≡ length out
    → store (out ++ (gap ++ (x ∷ rest))) i v ≡ ok (out ++ (v ∷ (tail_of (gap ++ (x ∷ [])) ++ rest)))
store_consumed out [] rest x v i e = store-append out rest x v i e
store_consumed out (g ∷ gap) rest x v i e =
    store-append out (gap ++ (x ∷ rest)) g v i e
    ∙ ap (λ r. ok (out ++ (v ∷ r))) (sym (append_assoc gap (x ∷ []) rest))

store_consumed_two :
    (out gap rest : Bytes) (x y v i : ℕ)
    → i ≡ length out
    → store (out ++ (gap ++ (x ∷ y ∷ rest))) i v
      ≡ ok (out ++ (v ∷ (tail_of (gap ++ (x ∷ y ∷ [])) ++ rest)))
store_consumed_two out [] rest x y v i e = store-append out (y ∷ rest) x v i e
store_consumed_two out (g ∷ gap) rest x y v i e =
    store-append out (gap ++ (x ∷ y ∷ rest)) g v i e
    ∙ ap (λ r. ok (out ++ (v ∷ r))) (sym (append_assoc gap (x ∷ y ∷ []) rest))

load_second :
    (out gap rest : Bytes) (x y i : ℕ)
    → i ≡ length out + length gap + 1
    → load (out ++ (gap ++ (x ∷ y ∷ rest))) i ≡ ok y
load_second out gap rest x y i e =
    rw (← append_assoc gap (x ∷ []) (y ∷ rest))
      (load_next out (gap ++ (x ∷ [])) rest y i (omega (arith, length-append gap (x ∷ []))))

-- `out` is decoded, `gap` is what the decoded bytes leave free, and the escaped form of `c` is next.
decode_byte-escape_byte :
    (c read write : ℕ) (out gap rest : Bytes)
    → write ≡ length out
    → read ≡ length out + length gap
    → write < 255
    → read < 2 ^ 32 - 2
    → decode_byte
        (record { buffer = out ++ (gap ++ (escape_byte c ++ rest)); read = read; write = write })
      ≡ ok (record {
        buffer = out ++ (c ∷ (tail_of (gap ++ escape_byte c) ++ rest));
        read = read + length (escape_byte c);
        write = write + 1;
      })
unfolding decode_byte
decode_byte-escape_byte c read write out gap rest e f h w = ground (
  arith,
  load_next out gap rest c read f,
  load_next out gap (end_subs_octet ∷ rest) esc_slip_octet read f,
  load_next out gap (esc_subs_octet ∷ rest) esc_slip_octet read f,
  load_second out gap rest esc_slip_octet end_subs_octet (read + 1),
  load_second out gap rest esc_slip_octet esc_subs_octet (read + 1),
  store_consumed out gap rest c c write e,
  store_consumed_two out gap rest esc_slip_octet end_subs_octet c write e,
  store_consumed_two out gap rest esc_slip_octet esc_subs_octet c write e,
)

-- What is left free between the decoded and the encoded bytes.
abbrev pub free_after : Bytes → Bytes → Bytes
free_after gap [] = gap
free_after gap (x ∷ xs) = free_after (tail_of (gap ++ escape_byte x)) xs

length-tail_of :
    (gap : Bytes) (c : ℕ)
    → suc (length (tail_of (gap ++ escape_byte c))) ≡ length gap + length (escape_byte c)
length-tail_of [] c = ground arith
length-tail_of (g ∷ gap) c = omega (arith, length-append gap (escape_byte c))

decode_loop_next :
    (fuel len : ℕ) (d d' : Decoding)
    → d.read < len
    → decode_byte d ≡ ok d'
    → decode_loop (suc fuel) len d ≡ decode_loop fuel len d'
unfolding decode_loop
decode_loop_next fuel len d d' h e = ground arith

decode_loop_done :
    (fuel len : ℕ) (d : Decoding) → len ≤ d.read → decode_loop (suc fuel) len d ≡ ok d
unfolding decode_loop
decode_loop_done fuel len d h = ground arith

decode_loop-escape :
    (xs : Bytes) (fuel len read write : ℕ) (out gap rest : Bytes)
    → write ≡ length out
    → read ≡ length out + length gap
    → len ≡ read + length (escape xs)
    → write + length xs < 256
    → length xs < fuel
    → len < 2 ^ 32 - 2
    → decode_loop fuel len
        (record { buffer = out ++ (gap ++ (escape xs ++ rest)); read = read; write = write })
      ≡ ok (record {
        buffer = out ++ (xs ++ (free_after gap xs ++ rest));
        read = len;
        write = write + length xs;
      })
unfolding escape
decode_loop-escape xs zero len read write out gap rest e f g h k w = absurd (omega arith)
decode_loop-escape [] (suc fuel) len read write out gap rest e f g h k w =
    decode_loop_done fuel len _ (omega arith) ∙ ground arith
decode_loop-escape (x ∷ xs) (suc fuel) len read write out gap rest e f g h k w =
    let size = length (escape_byte x) in
    let gap' = tail_of (gap ++ escape_byte x) in
    let sizes = length-append (escape_byte x) (escape xs) in
    let some_bytes : 0 < size = ground arith in
    let step =
      decode_byte-escape_byte x read write out gap (escape xs ++ rest) e f (omega arith)
        (omega arith) in
    let later =
      decode_loop-escape xs fuel len (read + size) (write + 1) (out ++ (x ∷ [])) gap' rest
        (omega (arith, length-append out (x ∷ [])))
        (omega (arith, length-append out (x ∷ []), length-tail_of gap x)) (omega arith)
        (omega arith) (omega arith) w in
    rw (append_assoc (escape_byte x) (escape xs) rest) (
      decode_loop_next fuel len _ _ (omega arith) step
      ∙ ap
          (λ b. decode_loop fuel len (record { buffer = b; read = read + size; write = write + 1 }))
          (sym (append_assoc out (x ∷ []) (gap' ++ (escape xs ++ rest))))
      ∙ later
      ∙ ground (arith, append_assoc out (x ∷ []) (xs ++ (free_after gap' xs ++ rest))))

-- Decoding escaped bytes in place puts the plain bytes at the front of the array.
pub slip_decode_buffer-escape :
    (xs rest : Bytes)
    → length xs < 256
    → slip_decode_buffer (escape xs ++ rest) (length (escape xs))
      ≡ ok (xs ++ (free_after [] xs ++ rest), length xs)
unfolding slip_decode_buffer
slip_decode_buffer-escape xs rest h =
    let all : decode_loop (suc (length (escape xs))) (length (escape xs))
          (record { buffer = escape xs ++ rest; read = 0; write = 0 })
        ≡ ok (record {
          buffer = xs ++ (free_after [] xs ++ rest);
          read = length (escape xs);
          write = 0 + length xs;
        }) =
      decode_loop-escape xs (suc (length (escape xs))) (length (escape xs)) 0 0 [] [] rest refl refl
        (omega arith) (omega arith) (omega (arith, length-le-escape xs))
        (omega (arith, length-escape-le xs)) in
    rw add-one (rw all (rw zero-add))

uint16_at-append :
    (out rest : Bytes) (lo hi : ℕ)
    → uint16_at (out ++ (lo ∷ hi ∷ rest)) (length out) ≡ ok (lo + hi * 2 ^ 8)
unfolding uint16_at
uint16_at-append out rest lo hi = ground (
  arith,
  load-append out (hi ∷ rest) lo (length out) refl,
  load_second out [] rest lo hi (length out + 1),
)

crc_of_prefix-append :
    (frame rest : Bytes) → crc_of_prefix (frame ++ rest) (length frame) ≡ ok (crc_from_buffer frame)
unfolding crc_of_prefix
crc_of_prefix-append frame rest = ground (arith, length-append frame rest, take-append frame rest)

-- `Slip_decode` accepts an escaped frame with its check sum, of less than 254 bytes: it returns the
-- frame's length and leaves the frame at the front of the array.
pub slip_decode-escape :
    (frame rest : Bytes)
    → length frame < 254
    → slip_decode (escape (with_crc frame) ++ rest) (length (escape (with_crc frame)))
      ≡ ok (
        pos (length frame),
        frame ++ (crc_bytes (crc_from_buffer frame) ++ (free_after [] (with_crc frame) ++ rest)),
      )
unfolding slip_decode
slip_decode-escape frame rest h =
    let crc = crc_from_buffer frame in
    let left = free_after [] (with_crc frame) ++ rest in
    let size : length (with_crc frame) ≡ length frame + 2 =
      unfold crc_bytes in omega (arith, length-append frame (crc_bytes crc)) in
    let length_back : (length (with_crc frame) + 2 ^ 32 - 2) % 2 ^ 32 ≡ length frame =
      omega arith in
    let index : length (with_crc frame) - 2 ≡ length frame = omega arith in
    let value : crc % 2 ^ 8 + crc / 2 ^ 8 % 2 ^ 8 * 2 ^ 8 ≡ crc =
      omega (arith, crc_from_buffer-lt frame) in
    rw (slip_decode_buffer-escape (with_crc frame) rest (omega arith)) (
      rw (append_assoc frame (crc_bytes crc) left) (
        rw (length_back, index, crc_of_prefix-append frame (crc_bytes crc ++ left), size)
          (unfold crc_bytes check_crc in
            rw (uint16_at-append frame left (crc % 2 ^ 8) (crc / 2 ^ 8 % 2 ^ 8), value)
              (ground arith))))
