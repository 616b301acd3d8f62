-- ===== src/Slip/Codec.antt =====
-- lib/wpc/slip.c: `slip_decode_buffer`, `slip_encode_buffer`, `Slip_decode` and `Slip_encode`,
-- with the error codes of lib/wpc/include/wpc_internal.h. An array is the list of all its bytes; a
-- pointer into one is the array and an index; an access outside of the array is `fault`. `write`
-- is a `uint8_t` in both loops, and wraps; `read` of the decoder is a `uint32_t`, and wraps.
pub mod Escape
pub mod Encode
pub mod Decode
pub mod Sound
pub mod Limits
use c_mesh_api.Prelude.{
  ℕ, zero, suc, ◌+◌, ◌-◌, ◌*◌, ◌/◌, ◌%◌, ◌^◌, Bool, true, false, ◌||◌, [], ◌∷◌, Bytes, length,
  get_or, take, ltb, leb, ◌==◌, if◌then◌else◌, ℤ, pos, negsuc, is_pos, ◌+ℤ◌, Outcome, ok, fault,
  unfinished, ◌>>=◌, load, store,
}
use c_mesh_api.Slip.Crc.{crc_from_buffer}

abbrev pub end_slip_octet : ℕ
end_slip_octet = 0xC0

abbrev pub esc_slip_octet : ℕ
esc_slip_octet = 0xDB

abbrev pub end_subs_octet : ℕ
end_subs_octet = 0xDC

abbrev pub esc_subs_octet : ℕ
esc_subs_octet = 0xDD

-- `WPC_Int_error_code_e`
abbrev pub gen_error : ℤ
gen_error = negsuc 0

abbrev pub timeout_error : ℤ
timeout_error = negsuc 1

abbrev pub sync_error : ℤ
sync_error = negsuc 2

abbrev pub wrong_param_error : ℤ
wrong_param_error = negsuc 3

abbrev pub wrong_crc : ℤ
wrong_crc = negsuc 4

abbrev pub wrong_buffer_size : ℤ
wrong_buffer_size = negsuc 5

abbrev pub wrong_crc_from_host : ℤ
wrong_crc_from_host = negsuc 6

-- The array being decoded in place, with the two indices of the loop.
pub record Decoding : Type 0 where
  pub buffer : Bytes
  pub read : ℕ
  pub write : ℕ

-- The octet that stands for the one or two bytes at `read`, and the index behind them.
unescape_at : Bytes → ℕ → ℕ → Outcome (ℕ × ℕ)
unescape_at buffer read current =
    if current == esc_slip_octet
    then (do
      let second = (read + 1) % 2 ^ 32
      subst ← load buffer second
      ok (
        if subst == end_subs_octet then end_slip_octet else esc_slip_octet,
        (second + 1) % 2 ^ 32,
      ))
    else ok (current, (read + 1) % 2 ^ 32)

-- One round of the loop of `slip_decode_buffer`.
unfoldable pub decode_byte : Decoding → Outcome Decoding
unfolding unescape_at
decode_byte d = do
  current ← load d.buffer d.read
  (plain, next) ← unescape_at d.buffer d.read current
  buffer' ← store d.buffer d.write plain
  ok (record { buffer = buffer'; read = next; write = (d.write + 1) % 2 ^ 8 })

-- `for (read = 0; read < len; read++)`, with fuel for the rounds.
unfoldable pub decode_loop : ℕ → ℕ → Decoding → Outcome Decoding
decode_loop zero len d = unfinished
decode_loop (suc fuel) len d = elim (ltb d.read len) [
  | true ↦ (do d' ← decode_byte d; decode_loop fuel len d')
  | false ↦ ok d
]

-- `slip_decode_buffer`: the array after it, and the length of the decoded frame.
unfoldable pub slip_decode_buffer : Bytes → ℕ → Outcome (Bytes × ℕ)
slip_decode_buffer buffer len = do
  d ← decode_loop (len + 1) len (record { buffer = buffer; read = 0; write = 0 })
  ok (d.buffer, d.write)

-- An output array, and the index `write` of a loop that fills it.
pub record Encoding : Type 0 where
  pub buffer : Bytes
  pub write : ℕ

-- `if (write >= len_escaped) return …; buffer_escaped[write++] = …`, with `buffer_escaped` at index
-- `base` of the array. The flag says whether there was room.
unfoldable pub put_byte : ℕ → ℕ → ℕ → Encoding → Outcome (Bool × Encoding)
put_byte base len_escaped byte e = if leb len_escaped e.write then ok (false, e) else (do
  buffer' ← store e.buffer (base + e.write) byte
  ok (true, record { buffer = buffer'; write = (e.write + 1) % 2 ^ 8 }))

-- One round of the loop of `slip_encode_buffer`.
unfoldable pub encode_byte : ℕ → ℕ → ℕ → Encoding → Outcome (Bool × Encoding)
encode_byte base len_escaped current e =
    if current == end_slip_octet || current == esc_slip_octet
    then (do
      (room, e') ← put_byte base len_escaped esc_slip_octet e
      if room
          then put_byte base len_escaped
              (if current == end_slip_octet then end_subs_octet else esc_subs_octet) e'
          else ok (false, e'))
    else put_byte base len_escaped current e

-- The loop over the bytes still to encode.
unfoldable pub encode_loop : ℕ → ℕ → Bytes → Encoding → Outcome (ℤ × Bytes)
encode_loop base len_escaped [] e = ok (pos e.write, e.buffer)
encode_loop base len_escaped (current ∷ rest) e = do
  (room, e') ← encode_byte base len_escaped current e
  if room then encode_loop base len_escaped rest e' else ok (wrong_buffer_size, e'.buffer)

-- `slip_encode_buffer`: the `uint32_t` result, read as the `int` that its callers store it in.
unfoldable pub slip_encode_buffer : Bytes → Bytes → ℕ → ℕ → Outcome (ℤ × Bytes)
slip_encode_buffer bytes out base len_escaped =
    encode_loop base len_escaped bytes (record { buffer = out; write = 0 })

-- `uint16_decode_le` at an index of an array.
unfoldable pub uint16_at : Bytes → ℕ → Outcome ℕ
uint16_at buffer i = do lo ← load buffer i; hi ← load buffer (i + 1); ok (lo + hi * 2 ^ 8)

-- `crc_fromBuffer (buffer, len)`: it reads the first `len` bytes of the array.
unfoldable pub crc_of_prefix : Bytes → ℕ → Outcome ℕ
crc_of_prefix buffer len =
    if leb len (length buffer) then ok (crc_from_buffer (take len buffer)) else fault

-- What `Slip_decode` returns for the two check sums.
unfoldable pub check_crc : ℕ → ℕ → ℕ → ℤ
check_crc crc crc_from_frame decoded_len =
    if crc == crc_from_frame
    then pos (decoded_len - 2)
    else if crc_from_frame == 0xFFFF
    then wrong_crc_from_host
    else wrong_crc

-- `Slip_decode`: the result and the array after it. `decoded_len - 2` is an `int` that becomes a
-- `uint32_t`; below 2 it asks for almost 2 ^ 32 bytes.
unfoldable pub slip_decode : Bytes → ℕ → Outcome (ℤ × Bytes)
slip_decode buffer len = do
  (buffer', decoded_len) ← slip_decode_buffer buffer len
  crc ← crc_of_prefix buffer' ((decoded_len + 2 ^ 32 - 2) % 2 ^ 32)
  crc_from_frame ← uint16_at buffer' (decoded_len - 2)
  ok (check_crc crc crc_from_frame decoded_len, buffer')

-- `buffer_out + total_size` for a pointer to index `base` of its array.
unfoldable pub offset_by : ℕ → ℤ → Outcome ℕ
offset_by base (pos n) = ok (base + n)
offset_by base (negsuc n) = if leb (n + 1) base then ok (base - (n + 1)) else fault

-- `len_out - total_size` as a `uint32_t`.
unfoldable pub room_left : ℕ → ℤ → ℕ
room_left len_out (pos n) = (len_out + 2 ^ 32 - n) % 2 ^ 32
room_left len_out (negsuc n) = (len_out + n + 1) % 2 ^ 32

-- `x == -1`
unfoldable pub is_minus_one : ℤ → Bool
is_minus_one (pos n) = false
is_minus_one (negsuc n) = n == 0

-- The loop of `Slip_encode` that appends the bytes of the check sum.
unfoldable pub append_crc : Bytes → ℕ → ℕ → ℤ → Bytes → Outcome (ℤ × Bytes)
append_crc [] base len_out total_size out = ok (total_size, out)
append_crc (temp ∷ rest) base len_out total_size out = do
  at ← offset_by base total_size
  (temp_size, out') ← slip_encode_buffer (temp ∷ []) out at (room_left len_out total_size)
  if is_minus_one temp_size
      then ok (wrong_buffer_size, out')
      else append_crc rest base len_out (total_size +ℤ temp_size) out'

-- The check sum in little endian.
unfoldable pub crc_bytes : ℕ → Bytes
crc_bytes crc = crc % 2 ^ 8 ∷ crc / 2 ^ 8 % 2 ^ 8 ∷ []

-- `Slip_encode` to index `base` of the array `out`: the result and the array after it.
unfoldable pub slip_encode : Bytes → Bytes → ℕ → ℕ → Outcome (ℤ × Bytes)
slip_encode buffer_in out base len_out = do
  let crc = crc_from_buffer buffer_in
  (total_size, out') ← slip_encode_buffer buffer_in out base len_out
  if is_minus_one total_size
      then ok (wrong_buffer_size, out')
      else append_crc (crc_bytes crc) base len_out total_size out'
