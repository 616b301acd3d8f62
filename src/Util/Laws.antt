-- ===== src/Util/Laws.antt =====
-- Round trips of the encodings, and the precision of the conversions of time.
use c_mesh_api.Util.{
  internal_time_to_ms, ms_to_internal_time, uint16_decode_le, max_ms_time_for_full_precision,
  uint16_encode_le, uint32_decode_le, uint32_encode_le, max_internal_time_for_full_precision,
}
use c_mesh_api.Prelude.{ℕ, ◌*◌, ◌<◌, ◌/◌, ◌≡◌, ◌≤◌, arith, ◌+◌, ◌^◌}

-- Decoding the encoded bytes of a 16-bit or a 32-bit value gives the value back.
pub decode-encode_le :
    (a b : ℕ)
    → a < 2 ^ 16
    → b < 2 ^ 32
    → (uint16_decode_le (uint16_encode_le a) ≡ a) × (uint32_decode_le (uint32_encode_le b) ≡ b)
unfolding uint16_decode_le uint16_encode_le uint32_decode_le uint32_encode_le
decode-encode_le a b h k = omega arith

-- An internal time below 2 ^ 32 whose length in milliseconds fits 32 bits is converted without
-- wrapping: exactly, rounded down, below the bound of full precision, and from there on at most a
-- second too low.
pub internal_time_to_ms_precision :
    (t : ℕ)
    → t * 1000 / 128 < 2 ^ 32
    → (internal_time_to_ms t ≤ t * 1000 / 128)
      × (t * 1000 / 128 < internal_time_to_ms t + 1000)
      × (t < max_internal_time_for_full_precision → internal_time_to_ms t ≡ t * 1000 / 128)
unfolding internal_time_to_ms
internal_time_to_ms_precision t h = ground arith

-- Below the bound of full precision a time in milliseconds is converted exactly, rounded down; the
-- way back never gives more than the time, and loses at most 8 ms where it is exact too.
pub ms_to_internal_time_precision :
    (t : ℕ)
    → t < max_ms_time_for_full_precision
    → (ms_to_internal_time t ≡ t * 128 / 1000)
      × (internal_time_to_ms (ms_to_internal_time t) ≤ t)
      × (t * 128 / 1000 < max_internal_time_for_full_precision
          → t < internal_time_to_ms (ms_to_internal_time t) + 9)
unfolding ms_to_internal_time internal_time_to_ms
ms_to_internal_time_precision t h = ground arith

-- From the bound of full precision on, the second shift of `ms_to_internal_time` goes the wrong
-- way: its result is more than 16000 times
-- smaller than the time in units of 1/128 s.
pub ms_to_internal_time_large :
    (t : ℕ) → max_ms_time_for_full_precision ≤ t → ms_to_internal_time t * 16000 < t * 128 / 1000
unfolding ms_to_internal_time
ms_to_internal_time_large t h = ground arith
