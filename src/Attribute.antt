-- ===== src/Attribute.antt =====
-- lib/wpc/attribute.c, lib/wpc/csap.c and the attribute requests of lib/wpc/include/csap.h and
-- msap.h.
pub mod RoundTrip
pub mod Node
mod Tests
use c_mesh_api.WpcInternal.{exited, answered}
use c_mesh_api.Reassembly.{copy_bytes}
use c_mesh_api.Util.{uint16_encode_le}
use c_mesh_api.WpcInternal.{timeout_confirm_ms}
use c_mesh_api.Request.{
  Requests, Frames, plain_request, fill_request, confirm_result, wpc_int_send_request,
}
use c_mesh_api.Prelude.{
  ℕ, none, some, true, false, Bytes, ◌+◌, Outcome, get_or, ◌∷◌, Option, [], ℤ, if◌then◌else◌, ◌>>=◌,
  ltb, not, ok, negsuc, ◌==◌, pos, drop, ◌-◌, ◌++◌, is_neg,
}

abbrev pub max_attribute_size : ℕ
max_attribute_size = 40

abbrev pub msap_attribute_write : ℕ
msap_attribute_write = 0x0B

abbrev pub msap_attribute_read : ℕ
msap_attribute_read = 0x0C

abbrev pub csap_attribute_write : ℕ
csap_attribute_write = 0x0D

abbrev pub csap_attribute_read : ℕ
csap_attribute_read = 0x0E

abbrev pub reset_key_le : Bytes
reset_key_le = 0x44 ∷ 0x6F ∷ 0x49 ∷ 0x74 ∷ []

-- `sizeof(attribute_write_req_pl_t)`
abbrev pub attribute_write_size : ℕ
attribute_write_size = 3 + max_attribute_size

-- `attribute_length` of an `attribute_read_conf_pl_t` in a frame.
abbrev pub confirm_attribute_length : Bytes → ℕ
confirm_attribute_length confirm = get_or confirm 6 0

-- What is done with the confirmation of a read of `attribute_length` bytes: the result, and the
-- bytes that are copied to `attribute_value_p`.
unfoldable pub read_attribute : ℕ → Bytes → Outcome (Option ℤ × Option Bytes)
read_attribute attribute_length confirm =
    if not (confirm_result confirm == 0)
    then ok (some (pos (confirm_result confirm)), none)
    else if not (attribute_length == confirm_attribute_length confirm)
    then ok (some (negsuc 0), none)
    else (do
      value ← copy_bytes (drop 7 confirm) attribute_length
      ok (some (pos (confirm_result confirm)), some value))

module _ {S : Type 0} (requests : Requests S) where
  unfoldable pub attribute_write_request : ℕ → ℕ → ℕ → Bytes → Frames → S → Outcome (Option ℤ × S)
  attribute_write_request primitive attribute_id attribute_length attribute_value frames s =
      if ltb max_attribute_size attribute_length then ok (some (negsuc 0), s) else (do
        value ← copy_bytes attribute_value attribute_length
        plain_request requests primitive
            (attribute_write_size - (max_attribute_size - attribute_length))
            (uint16_encode_le attribute_id ++ (attribute_length ∷ value)) timeout_confirm_ms frames
            s)

  -- The result, the bytes that are copied to `attribute_value_p`, and the state.
  unfoldable pub attribute_read_request :
      ℕ → ℕ → ℕ → Frames → S → Outcome ((Option ℤ × Option Bytes) × S)
  attribute_read_request primitive attribute_id attribute_length frames s = do
    request ← fill_request primitive 2 (uint16_encode_le attribute_id) frames.request
    (answer, s') ← wpc_int_send_request requests request frames.confirm s
    elim answer [
      | exited ↦ ok ((none, none), s')
      | answered res confirm ↦
          if is_neg res
          then ok ((some res, none), s')
          else (do read ← read_attribute attribute_length confirm; ok (read, s'))
    ]

  unfoldable pub msap_attribute_write_request : ℕ → ℕ → Bytes → Frames → S → Outcome (Option ℤ × S)
  msap_attribute_write_request = attribute_write_request msap_attribute_write

  unfoldable pub msap_attribute_read_request :
      ℕ → ℕ → Frames → S → Outcome ((Option ℤ × Option Bytes) × S)
  msap_attribute_read_request = attribute_read_request msap_attribute_read

  unfoldable pub csap_attribute_write_request : ℕ → ℕ → Bytes → Frames → S → Outcome (Option ℤ × S)
  csap_attribute_write_request = attribute_write_request csap_attribute_write

  unfoldable pub csap_attribute_read_request :
      ℕ → ℕ → Frames → S → Outcome ((Option ℤ × Option Bytes) × S)
  csap_attribute_read_request = attribute_read_request csap_attribute_read

  unfoldable pub csap_factory_reset_request : Frames → S → Outcome (Option ℤ × S)
  csap_factory_reset_request = plain_request requests 0x16 4 reset_key_le timeout_confirm_ms
