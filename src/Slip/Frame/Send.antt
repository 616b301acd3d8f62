-- ===== src/Slip/Frame/Send.antt =====
-- `Slip_send_buffer` writes one delimited, escaped frame.
use c_mesh_api.Slip.Codec.Encode.{with_crc, slip_encode-escape}
use c_mesh_api.Slip.Frame.{put_start, slip_send_buffer, write_encoded, max_size_encoded_buffer}
use c_mesh_api.Slip.Codec.Escape.{escape}
use c_mesh_api.Slip.Codec.{end_slip_octet, gen_error, offset_by}
use c_mesh_api.Prelude.{
  ℕ, Bytes, ◌++◌, ◌∷◌, ◌≤◌, ◌≡◌, length, arith, ◌+◌, take, [], length-append, ok, append_assoc,
  store-append, take-append, refl, ℤ, if◌then◌else◌, is_pos, pos, ◌<◌, ◌^◌, ◌*◌, ap, drop_of_lt,
  ◌-◌, drop, suc,
}

abbrev delimiters : Bytes
delimiters = end_slip_octet ∷ end_slip_octet ∷ end_slip_octet ∷ []

-- What stands on the line for a frame.
abbrev pub wire : Bytes → Bytes
wire frame = delimiters ++ (escape (with_crc frame) ++ (end_slip_octet ∷ []))

-- An array of at least three bytes.
data HasThree : Bytes → Type 0 where
  three : (a b c : ℕ) (room : Bytes) → HasThree (a ∷ b ∷ c ∷ room)

has_three : (xs : Bytes) → 3 ≤ length xs → HasThree xs
has_three [] h = absurd (omega arith)
has_three (a ∷ []) h = absurd (omega arith)
has_three (a ∷ b ∷ []) h = absurd (omega arith)
has_three (a ∷ b ∷ c ∷ room) h = three a b c room

put_start_lem : (a b c : ℕ) (room : Bytes) → put_start (a ∷ b ∷ c ∷ room) ≡ ok (delimiters ++ room)
unfolding put_start
put_start_lem a b c room = ground (
  arith,
  store-append [] (b ∷ c ∷ room) a end_slip_octet 0 refl,
  store-append (end_slip_octet ∷ []) (c ∷ room) b end_slip_octet 1 refl,
  store-append (end_slip_octet ∷ end_slip_octet ∷ []) room c end_slip_octet 2 refl,
)

-- The last delimiter goes behind the escaped bytes, and the line gets everything up to it.
take_written :
    (pre sent room : Bytes) (n : ℕ)
    → n ≡ length pre + length sent + 1
    → take n (pre ++ (sent ++ (end_slip_octet ∷ room))) ≡ pre ++ (sent ++ (end_slip_octet ∷ []))
take_written pre sent room n h =
    let all = pre ++ (sent ++ (end_slip_octet ∷ [])) in
    let size : length all ≡ n = omega (
      arith,
      h,
      length-append pre (sent ++ (end_slip_octet ∷ [])),
      length-append sent (end_slip_octet ∷ []),
    ) in
    let regroup : pre ++ (sent ++ (end_slip_octet ∷ room)) ≡ all ++ room =
      rw (append_assoc pre, append_assoc sent) refl in
    rw (regroup, ← size) (take-append all room)

module _ {S : Type 0} (write_function : Bytes → S → ℤ × S) (uninit : ℕ → Bytes) where
  -- What `Slip_send_buffer` makes of the write of the frame.
  abbrev pub sent : Bytes → S → ℤ × S
  sent buffer line =
      let (written, line') = write_function (wire buffer) line in
      (if is_pos written (length (wire buffer)) then pos 0 else gen_error, line')

  -- A frame of less than 2 ^ 30 bytes whose escaped form has less than 256, and with the check
  -- sum at most `2 * len + 2`, is written to the line in one piece, delimited and escaped, with no
  -- access outside of the array; the result is 0 exactly when the line took all of it.
  pub slip_send_buffer-sent :
      (buffer : Bytes) (line : S)
      → ((n : ℕ) → length (uninit n) ≡ n)
      → length buffer < 2 ^ 30
      → length (escape buffer) < 256
      → length (escape (with_crc buffer)) ≤ 2 * length buffer + 2
      → slip_send_buffer write_function uninit buffer line ≡ ok (sent buffer line)
  unfolding slip_send_buffer write_encoded
  slip_send_buffer-sent buffer line u h k l =
      go (has_three (uninit total) (omega (arith, u total))) refl
    where
      total : ℕ
      total = max_size_encoded_buffer (length buffer)

      enc : Bytes
      enc = escape (with_crc buffer)

      go :
          {out : Bytes}
          → HasThree out
          → out ≡ uninit total
          → slip_send_buffer write_function uninit buffer line ≡ ok (sent buffer line)
      go (three a b c room) e =
          let size : length room ≡ 2 * length buffer + 3 = omega (arith, u total, ap length e) in
          let (last, rest) = drop_of_lt (length enc) room (omega arith) in
          let encoded =
            slip_encode-escape buffer delimiters room (total - 3) (omega arith) (omega arith)
              (omega arith) k in
          let count : 4 + length enc ≡ length (wire buffer) =
            omega (arith, length-append enc (end_slip_octet ∷ [])) in
          let stored =
            store-append (delimiters ++ enc) (drop (suc (length enc)) room) last end_slip_octet
              (3 + length enc) (omega (arith, length-append delimiters enc)) in
          let all =
            take_written delimiters enc (drop (suc (length enc)) room) (4 + length enc)
              (omega arith) in
          rw (← e, put_start_lem) (rw encoded (unfold offset_by in rw (rest, stored, all, count)))
