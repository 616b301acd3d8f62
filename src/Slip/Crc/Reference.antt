-- ===== src/Slip/Crc/Reference.antt =====
-- The table of lib/wpc/slip.c against CRC-16/CCITT computed bit by bit.
use c_mesh_api.Prelude.{
  ℕ, zero, suc, ◌+◌, ◌*◌, ◌/◌, ◌%◌, ◌^◌, ◌<◌, ◌≡◌, refl, [], ◌∷◌, Bytes, IsBytes, get_or, bit_xor,
  arith, true, ltb, ◌==◌, ==_iff, ltb→lt, if◌then◌else◌,
}
use c_mesh_api.Prelude.Bits.{
  bit_xor-lt, bit_xor_comm, bit_xor-mod, bit_xor_high, passes_below, passes_below_at,
}
use c_mesh_api.Slip.Crc.{crc_ccitt_lut, crc_step, crc_loop, crc_from_buffer}

-- Shift out one bit; the polynomial is x^16 + x^12 + x^5 + 1.
shift_bit : ℕ → ℕ
shift_bit x = if ltb x 0x8000 then x * 2 else bit_xor (x * 2 % 2 ^ 16) 0x1021

unfoldable pub shift_bits : ℕ → ℕ → ℕ
unfolding shift_bit
shift_bits zero x = x
shift_bits (suc n) x = shift_bits n (shift_bit x)

-- A byte enters at the top of the register, and eight bits are shifted out.
unfoldable pub bitwise_step : ℕ → ℕ → ℕ
bitwise_step crc byte = shift_bits 8 (bit_xor crc (byte * 2 ^ 8))

unfoldable pub bitwise_loop : ℕ → Bytes → ℕ
unfolding bitwise_step
bitwise_loop crc [] = crc
bitwise_loop crc (b ∷ bs) = bitwise_loop (bitwise_step crc b) bs

abbrev table_entry : ℕ → ℕ → ℕ
table_entry i lo = bit_xor (get_or crc_ccitt_lut i 0) (lo * 2 ^ 8)

table_checks :
    passes_below
      (λ i. passes_below (λ lo. table_entry i lo == shift_bits 8 (i * 2 ^ 8 + lo)) 256)
      256
    ≡ true
unfolding passes_below shift_bits crc_ccitt_lut
table_checks = refl

-- Every entry of the table is the remainder of its index shifted out over any low byte.
table_entry-shift_bits :
    (i lo : ℕ) → i < 256 → lo < 256 → table_entry i lo ≡ shift_bits 8 (i * 2 ^ 8 + lo)
table_entry-shift_bits i lo hi hlo = (==_iff _ _).0 (
    passes_below_at (λ l. table_entry i l == shift_bits 8 (i * 2 ^ 8 + l)) 256 lo hlo
      (passes_below_at _ 256 i hi table_checks))

table_range : passes_below (λ i. ltb (get_or crc_ccitt_lut i 0) (2 ^ 16)) 256 ≡ true
unfolding passes_below crc_ccitt_lut
table_range = refl

crc_ccitt_lut-lt : (i : ℕ) → i < 256 → get_or crc_ccitt_lut i 0 < 2 ^ 16
crc_ccitt_lut-lt i h = ltb→lt _ _ (passes_below_at _ 256 i h table_range)

-- The last truncation to 16 bits only drops the bits that `crc << 8` shifts out.
lut_xor-mod :
    (i crc : ℕ)
    → i < 256
    → bit_xor (get_or crc_ccitt_lut i 0) (crc * 2 ^ 8) % 2 ^ 16 ≡ table_entry i (crc % 2 ^ 8)
lut_xor-mod i crc h =
    ground (arith, bit_xor-mod 16 (get_or crc_ccitt_lut i 0) (crc * 2 ^ 8), crc_ccitt_lut-lt i h)

-- One table look-up is eight shifts.
crc_step-bitwise_step :
    (crc byte : ℕ) → crc < 2 ^ 16 → byte < 2 ^ 8 → crc_step crc byte ≡ bitwise_step crc byte
unfolding crc_step bitwise_step
crc_step-bitwise_step crc byte hc hb = ground (
  arith,
  bit_xor_comm byte (crc / 2 ^ 8),
  bit_xor-lt 8 byte (crc / 2 ^ 8),
  bit_xor_high crc byte,
  lut_xor-mod (bit_xor byte (crc / 2 ^ 8)) crc,
  table_entry-shift_bits (bit_xor byte (crc / 2 ^ 8)) (crc % 2 ^ 8),
)

crc_step-lt : (crc byte : ℕ) → crc_step crc byte < 2 ^ 16
unfolding crc_step
crc_step-lt crc byte = omega arith

crc_loop-bitwise_loop :
    (bs : Bytes) (crc : ℕ) → crc < 2 ^ 16 → IsBytes bs → crc_loop crc bs ≡ bitwise_loop crc bs
unfolding crc_loop bitwise_loop
crc_loop-bitwise_loop [] crc h hb = refl
crc_loop-bitwise_loop (b ∷ bs) crc h hb =
    rw (← crc_step-bitwise_step crc b h hb.0)
      (crc_loop-bitwise_loop bs (crc_step crc b) (crc_step-lt crc b) hb.1)

-- On bytes, the table-driven check sum of `crc_fromBuffer` is the CRC-16 of polynomial 0x1021
-- with initial value 0xffff, computed one bit at a time.
pub crc_from_buffer-bitwise_loop :
    (bs : Bytes) → IsBytes bs → crc_from_buffer bs ≡ bitwise_loop 0xffff bs
unfolding crc_from_buffer
crc_from_buffer-bitwise_loop bs h = crc_loop-bitwise_loop bs 0xffff (omega arith) h

crc_loop-lt : (bs : Bytes) (crc : ℕ) → crc < 2 ^ 16 → crc_loop crc bs < 2 ^ 16
unfolding crc_loop
crc_loop-lt [] crc h = h
crc_loop-lt (b ∷ bs) crc h = crc_loop-lt bs (crc_step crc b) (crc_step-lt crc b)

pub crc_from_buffer-lt : (bs : Bytes) → crc_from_buffer bs < 2 ^ 16
unfolding crc_from_buffer
crc_from_buffer-lt bs = crc_loop-lt bs 0xffff (omega arith)
