-- ===== src/Msap/Scratchpad.antt =====
-- The requests for the scratchpad in lib/wpc/msap.c.
use c_mesh_api.Reassembly.{copy_bytes}
use c_mesh_api.WpcInternal.{timeout_confirm_ms}
use c_mesh_api.Request.{
  Requests, Frames, plain_request, reading_request, le32, le16, get16, payload_offset,
  copying_request, read_always, read_if_done, copy_field,
}
use c_mesh_api.Prelude.{
  ℕ, none, some, ◌+◌, Bytes, Outcome, Option, ℤ, if◌then◌else◌, ◌>>=◌, [], ltb, ◌∷◌, get_or, ok,
  ◌++◌, pos, ◌-◌,
}

abbrev pub scratchpad_start_timeout_ms : ℕ
scratchpad_start_timeout_ms = 45000

abbrev pub scratchpad_block_timeout_ms : ℕ
scratchpad_block_timeout_ms = 5000

abbrev pub maximum_scratchpad_block_size : ℕ
maximum_scratchpad_block_size = 112

-- `sizeof(msap_image_block_req_pl_t)`
abbrev pub image_block_size : ℕ
image_block_size = 5 + maximum_scratchpad_block_size

-- `sizeof(msap_scratchpad_status_conf_pl_t)`
abbrev pub scratchpad_status_size : ℕ
scratchpad_status_size = 24

-- The values of `msap_scratchpad_target_read_conf_pl_t`.
pub record Target : Type 0 where
  pub target_sequence : ℕ
  pub target_crc : ℕ
  pub action : ℕ
  pub param : ℕ

module _ {S : Type 0} (requests : Requests S) where
  unfoldable pub msap_scratchpad_start_request : ℕ → ℕ → Frames → S → Outcome (Option ℤ × S)
  msap_scratchpad_start_request len seq =
      plain_request requests 0x17 5 (le32 len ++ (seq ∷ [])) scratchpad_start_timeout_ms

  unfoldable pub msap_scratchpad_block_request : ℕ → ℕ → Bytes → Frames → S → Outcome (Option ℤ × S)
  msap_scratchpad_block_request start_address number_of_bytes bytes frames s =
      if ltb maximum_scratchpad_block_size number_of_bytes then ok (some (pos 6), s) else (do
        block ← copy_bytes bytes number_of_bytes
        plain_request requests 0x18
            (image_block_size - (maximum_scratchpad_block_size - number_of_bytes))
            (le32 start_address ++ (number_of_bytes ∷ block)) scratchpad_block_timeout_ms frames s)

  -- The bytes of the status are copied from the confirmation, which has no result.
  unfoldable pub msap_scratchpad_status_request :
      Frames → S → Outcome ((Option ℤ × Option Bytes) × S)
  msap_scratchpad_status_request = copying_request requests 0x19 0 [] (
      read_always (
        copy_field payload_offset scratchpad_status_size scratchpad_status_size
          scratchpad_status_size))

  unfoldable pub msap_scratchpad_update_request : Frames → S → Outcome (Option ℤ × S)
  msap_scratchpad_update_request = plain_request requests 0x1A 0 [] timeout_confirm_ms

  unfoldable pub msap_scratchpad_clear_request : Frames → S → Outcome (Option ℤ × S)
  msap_scratchpad_clear_request = plain_request requests 0x1B 0 [] scratchpad_start_timeout_ms

  unfoldable pub msap_scratchpad_target_write_request : Target → Frames → S → Outcome (Option ℤ × S)
  msap_scratchpad_target_write_request t =
      plain_request requests 0x26 5
        ((t.target_sequence ∷ le16 t.target_crc) ++ (t.action ∷ t.param ∷ [])) timeout_confirm_ms

  unfoldable pub msap_scratchpad_target_read_request :
      Frames → S → Outcome ((Option ℤ × Option Target) × S)
  msap_scratchpad_target_read_request = reading_request requests 0x27 0 [] (λ confirm. record {
    target_sequence = get_or confirm 4 0;
    target_crc = get16 confirm 5;
    action = get_or confirm 7 0;
    param = get_or confirm 8 0;
  })

  -- The bytes that are copied to the caller's array, which has `capacity` bytes.
  unfoldable pub msap_scratchpad_block_read_request :
      ℕ → ℕ → ℕ → Frames → S → Outcome ((Option ℤ × Option Bytes) × S)
  msap_scratchpad_block_read_request start_address number_of_bytes capacity frames s =
      if ltb maximum_scratchpad_block_size number_of_bytes
      then ok ((some (pos 6), none), s)
      else copying_request requests 0x28 5 (le32 start_address ++ (number_of_bytes ∷ []))
          (read_if_done (copy_field 4 maximum_scratchpad_block_size capacity number_of_bytes))
          frames s
