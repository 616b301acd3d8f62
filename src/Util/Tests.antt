-- ===== src/Util/Tests.antt =====
-- The theorems on lib/wpc/include/util.h at concrete values.
use c_mesh_api.Util.Laws.{
  decode-encode_le, ms_to_internal_time_large, ms_to_internal_time_precision,
  internal_time_to_ms_precision,
}
use c_mesh_api.Util.{
  internal_time_to_ms, ms_to_internal_time, uint16_decode_le, uint32_encode_le, uint16_encode_le,
  uint32_decode_le, max_internal_time_for_full_precision,
}
use c_mesh_api.Prelude.{◌*◌, ◌≡◌, ◌≤◌, ◌<◌, ◌∷◌, [], ◌+◌, arith, refl}

decode-encode_le_example :
    (uint16_decode_le (uint16_encode_le 0xabcd) ≡ 0xabcd)
    × (uint32_decode_le (uint32_encode_le 0x12345678) ≡ 0x12345678)
decode-encode_le_example = decode-encode_le 0xabcd 0x12345678 (omega arith) (omega arith)

uint32_encode_le_bytes : uint32_encode_le 0x12345678 ≡ 0x78 ∷ 0x56 ∷ 0x34 ∷ 0x12 ∷ []
unfolding uint32_encode_le
uint32_encode_le_bytes = refl

internal_time_to_ms_precision_example :
    (internal_time_to_ms 1000 ≤ 7812)
    × (7812 < internal_time_to_ms 1000 + 1000)
    × (1000 < max_internal_time_for_full_precision → internal_time_to_ms 1000 ≡ 7812)
internal_time_to_ms_precision_example = internal_time_to_ms_precision 1000 (omega arith)

ms_to_internal_time_precision_example :
    (ms_to_internal_time 1000 ≡ 128)
    × (internal_time_to_ms (ms_to_internal_time 1000) ≤ 1000)
    × (128 < max_internal_time_for_full_precision
        → 1000 < internal_time_to_ms (ms_to_internal_time 1000) + 9)
ms_to_internal_time_precision_example = ms_to_internal_time_precision 1000 (omega arith)

-- Ten hours: 4608000 units, converted to 281.
ms_to_internal_time_large_example : ms_to_internal_time 36000000 * 16000 < 4608000
ms_to_internal_time_large_example = ms_to_internal_time_large 36000000 (omega arith)
