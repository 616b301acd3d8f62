-- ===== src/Util.antt =====
-- lib/wpc/include/util.h: little-endian encodings and the conversions of time.
-- The masks and shifts of bytes are written as quotients and remainders by powers of two, and the
-- `|` of bytes at different places as a sum.
pub mod Laws
mod Tests
use c_mesh_api.Prelude.{ℕ, Bytes, if◌then◌else◌, ◌/◌, ◌^◌, get_or, ltb, ◌%◌, ◌-◌, ◌*◌, ◌+◌, ◌∷◌, []}

-- `MIN`
unfoldable pub min_of : ℕ → ℕ → ℕ
min_of a b = if ltb a b then a else b

-- The bytes that `uint16_encode_le` writes.
unfoldable pub uint16_encode_le : ℕ → Bytes
uint16_encode_le value = value % 2 ^ 8 ∷ value / 2 ^ 8 % 2 ^ 8 ∷ []

unfoldable pub uint32_encode_le : ℕ → Bytes
uint32_encode_le value =
    value % 2 ^ 8 ∷ value / 2 ^ 8 % 2 ^ 8 ∷ value / 2 ^ 16 % 2 ^ 8 ∷ value / 2 ^ 24 % 2 ^ 8 ∷ []

-- The callers' arrays have two, or four, bytes.
unfoldable pub uint16_decode_le : Bytes → ℕ
uint16_decode_le p = get_or p 0 0 + get_or p 1 0 * 2 ^ 8

unfoldable pub uint32_decode_le : Bytes → ℕ
uint32_decode_le p =
    get_or p 0 0 + get_or p 1 0 * 2 ^ 8 + get_or p 2 0 * 2 ^ 16 + get_or p 3 0 * 2 ^ 24

abbrev pub max_internal_time_for_full_precision : ℕ
max_internal_time_for_full_precision = (2 ^ 32 - 1) / 1000

-- Units of 1/128 s to milliseconds.
unfoldable pub internal_time_to_ms : ℕ → ℕ
internal_time_to_ms internal_time =
    if ltb internal_time max_internal_time_for_full_precision
    then internal_time * 1000 % 2 ^ 32 / 2 ^ 7
    else internal_time / 2 ^ 7 * 1000 % 2 ^ 32

unfoldable pub internal_time_to_s : ℕ → ℕ
internal_time_to_s internal_time = internal_time / 2 ^ 7

abbrev pub max_ms_time_for_full_precision : ℕ
max_ms_time_for_full_precision = (2 ^ 32 - 1) / 128

unfoldable pub ms_to_internal_time : ℕ → ℕ
ms_to_internal_time time_in_ms =
    if ltb time_in_ms max_ms_time_for_full_precision
    then time_in_ms * 2 ^ 7 % 2 ^ 32 / 1000
    else time_in_ms / 1000 / 2 ^ 7
