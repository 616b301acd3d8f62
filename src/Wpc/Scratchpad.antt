-- ===== src/Wpc/Scratchpad.antt =====
-- The scratchpad in lib/wpc/wpc.c: upload, download, status, target. The loops over blocks take
-- fuel, one unit for each test of the loop's condition.
pub mod Blocks
pub mod Addresses
pub mod Upload
pub mod Download
pub mod RoundTrip
pub mod Running
pub mod Node
use mathlib.Core.Option
use c_mesh_api.Wpc.Management.{wpc_get_scratchpad_block_max}
use c_mesh_api.Msap.Convert.{ScratchpadStatus, convert_internal_to_app_scratchpad_status}
use c_mesh_api.Wpc.Errors.{
  AppRes, app_res_ok, convert_error_code, is_app_res_ok, app_res_internal_error,
  scratchpad_clear_local_error_code_lut, scratchpad_local_start_error_code_lut,
  scratchpad_update_local_error_code_lut, target_scratchpad_error_code_lut,
  scratchpad_local_block_error_code_lut, scratchpad_local_block_read_error_code_lut,
}
use c_mesh_api.Msap.Scratchpad.{
  Target, msap_scratchpad_clear_request, msap_scratchpad_start_request,
  msap_scratchpad_status_request, msap_scratchpad_target_read_request,
  msap_scratchpad_target_write_request, msap_scratchpad_update_request,
  msap_scratchpad_block_read_request, msap_scratchpad_block_request,
}
use c_mesh_api.Request.{Requests, Frames, write_at}
use c_mesh_api.Util.{uint32_decode_le, uint32_encode_le}
use c_mesh_api.Prelude.{
  ℕ, none, some, true, false, zero, suc, pos, negsuc, Bytes, ok, if◌then◌else◌, ℤ, Bool, ltb,
  Outcome, Option, unfinished, ◌>>=◌, not, is_pos, ◌-◌, ◌+◌, ◌%◌, ◌^◌, drop, length,
}

-- A `uint32_t` variable that `uint32_encode_le` has written, as the host reads it, which is
-- little-endian.
abbrev pub encoded32 : ℕ → ℕ
encoded32 v = uint32_decode_le (uint32_encode_le v)

-- `res > 1 || res < 0`
abbrev pub is_block_error : ℤ → Bool
is_block_error (pos n) = ltb 1 n
is_block_error (negsuc n) = true

abbrev pub block_size_of : ℕ → ℕ → ℕ
block_size_of max_block_size remaining =
    if ltb max_block_size remaining then max_block_size else remaining

module _ {S : Type 0} (requests : Requests S) where
  unfoldable pub wpc_get_local_scratchpad_status :
      Frames → S → Outcome ((Option AppRes × Option ScratchpadStatus) × S)
  wpc_get_local_scratchpad_status frames s = do
    (read, s') ← msap_scratchpad_status_request requests frames s
    ok (
      elim read.0 [
        | none ↦ (none, none)
        | some res ↦
            if not (is_pos res 0)
            then (some app_res_internal_error, none)
            else (some app_res_ok, Option.map convert_internal_to_app_scratchpad_status read.1)
      ],
      s',
    )

  unfoldable pub wpc_start_local_scratchpad_update :
      ℕ → ℕ → Frames → S → Outcome (Option AppRes × S)
  wpc_start_local_scratchpad_update len seq frames s = do
    (res, s') ← msap_scratchpad_start_request requests (encoded32 len) seq frames s
    ok (convert_error_code scratchpad_local_start_error_code_lut res, s')

  -- The loop: fuel, `max_block_size`, `len`, `bytes`, `start`, the local variables of the calls,
  -- and `loaded`, which stays below `len`.
  unfoldable pub upload_loop :
      ℕ → ℕ → ℕ → Bytes → ℕ → (ℕ → Frames) → ℕ → S → Outcome (Option AppRes × S)
  upload_loop zero max_block_size len bytes start frames loaded s = unfinished
  upload_loop (suc fuel) max_block_size len bytes start frames loaded s = elim (ltb loaded len) [
    | false ↦ ok (some app_res_ok, s)
    | true ↦ (do
      let block_size = block_size_of max_block_size (len - loaded)
      (answer, s') ←
          msap_scratchpad_block_request requests (encoded32 ((start + loaded) % 2 ^ 32)) block_size
            (drop loaded bytes) (frames fuel) s
      elim answer [
        | none ↦ ok (none, s')
        | some res ↦ elim (is_block_error res) [
          | true ↦ ok (convert_error_code scratchpad_local_block_error_code_lut (some res), s')
          | false ↦ upload_loop fuel max_block_size len bytes start frames (loaded + block_size) s'
        ]
      ])
  ]

  unfoldable pub wpc_upload_local_block_scratchpad :
      ℕ → ℕ → Bytes → ℕ → Frames → (ℕ → Frames) → S → Outcome (Option AppRes × S)
  wpc_upload_local_block_scratchpad fuel len bytes start first frames s = do
    (r, s') ← wpc_get_scratchpad_block_max requests first s
    elim r.1 [
      | none ↦ ok (r.0, s')
      | some max_block_size ↦ upload_loop fuel max_block_size len bytes start frames 0 s'
    ]

  unfoldable pub wpc_upload_local_scratchpad :
      ℕ → ℕ → Bytes → ℕ → Frames → Frames → (ℕ → Frames) → S → Outcome (Option AppRes × S)
  wpc_upload_local_scratchpad fuel len bytes seq zeroth first frames s = do
    (ret, s') ← wpc_start_local_scratchpad_update len seq zeroth s
    elim ret [
      | none ↦ ok (none, s')
      | some res ↦
          if not (is_app_res_ok res)
          then ok (some res, s')
          else wpc_upload_local_block_scratchpad fuel len bytes 0 first frames s'
    ]

  unfoldable pub wpc_clear_local_scratchpad : Frames → S → Outcome (Option AppRes × S)
  wpc_clear_local_scratchpad frames s = do
    (res, s') ← msap_scratchpad_clear_request requests frames s
    ok (convert_error_code scratchpad_clear_local_error_code_lut res, s')

  unfoldable pub wpc_update_local_scratchpad : Frames → S → Outcome (Option AppRes × S)
  wpc_update_local_scratchpad frames s = do
    (res, s') ← msap_scratchpad_update_request requests frames s
    ok (convert_error_code scratchpad_update_local_error_code_lut res, s')

  unfoldable pub wpc_write_target_scratchpad : Target → Frames → S → Outcome (Option AppRes × S)
  wpc_write_target_scratchpad target frames s = do
    (res, s') ← msap_scratchpad_target_write_request requests target frames s
    ok (convert_error_code target_scratchpad_error_code_lut res, s')

  unfoldable pub wpc_read_target_scratchpad :
      Frames → S → Outcome ((Option AppRes × Option Target) × S)
  wpc_read_target_scratchpad frames s = do
    (read, s') ← msap_scratchpad_target_read_request requests frames s
    ok (
      elim read.0 [
        | none ↦ (none, none)
        | some res ↦ (some (if is_pos res 0 then app_res_ok else app_res_internal_error), read.1)
      ],
      s',
    )

  -- As `upload_loop`, with the contents of the caller's array.
  unfoldable pub download_loop :
      ℕ → ℕ → ℕ → ℕ → (ℕ → Frames) → ℕ → Bytes → S → Outcome ((Option AppRes × Bytes) × S)
  download_loop zero max_block_size len start frames loaded bytes s = unfinished
  download_loop (suc fuel) max_block_size len start frames loaded bytes s = elim (ltb loaded len) [
    | false ↦ ok ((some app_res_ok, bytes), s)
    | true ↦ (do
      let block_size = block_size_of max_block_size (len - loaded)
      (read, s') ←
          msap_scratchpad_block_read_request requests (encoded32 ((start + loaded) % 2 ^ 32))
            block_size (length bytes - loaded) (frames fuel) s
      bytes' ← elim read.1 [ none ↦ ok bytes | some block ↦ write_at loaded block bytes ]
      elim read.0 [
        | none ↦ ok ((none, bytes'), s')
        | some res ↦ elim (is_block_error res) [
          | true ↦ ok (
            (convert_error_code scratchpad_local_block_read_error_code_lut (some res), bytes'),
            s',
          )
          | false ↦
              download_loop fuel max_block_size len start frames (loaded + block_size) bytes' s'
        ]
      ])
  ]

  unfoldable pub wpc_download_local_scratchpad :
      ℕ → ℕ → Bytes → ℕ → Frames → (ℕ → Frames) → S → Outcome ((Option AppRes × Bytes) × S)
  wpc_download_local_scratchpad fuel len bytes start first frames s = do
    (r, s') ← wpc_get_scratchpad_block_max requests first s
    elim r.1 [
      | none ↦ ok ((r.0, bytes), s')
      | some max_block_size ↦ download_loop fuel max_block_size len start frames 0 bytes s'
    ]
