-- ===== src/Request.antt =====
-- What dsap.c, msap.c, csap.c and attribute.c use of lib/wpc/wpc_internal.c, as an interface, and
-- how they write a request frame. Fields of the packed payload structures lie at fixed offsets; a
-- field of several bytes is stored as the host stores it, little-endian.
pub mod Frame
pub mod Sent
use c_mesh_api.WpcInternal.{Answer, timeout_confirm_ms, answered, exited}
use c_mesh_api.Prelude.{
  ℕ, Bytes, Outcome, get_or, ◌%◌, if◌then◌else◌, ◌+◌, ◌>>=◌, ◌^◌, leb, ok, ℤ, ◌*◌, ◌∷◌, length, set,
  ◌/◌, ◌≡◌, [], overlay, fault, pos, ◌⊎◌, is_neg, true, Option, none, some, ◌==◌, ◌&&◌, take, drop,
}

-- The state `S` is that of wpc_internal.c and of all below it.
pub record Requests (S : Type 0) : Type 0 where
  -- `WPC_Int_send_request_timeout` with the request, the contents of `confirm` and the time out
  pub send_request_timeout : Bytes → Bytes → ℕ → S → Outcome (Answer × S)
  -- `WPC_Int_get_mtu`
  pub get_mtu : S → ℕ
  -- the end of `WPC_Int_set_mtu`: what `WPC_get_mtu` gives if it succeeds
  pub set_mtu : Option ℕ → S → S
  -- `Platform_lock_request` and `Platform_unlock_request`
  pub lock : S → S
  pub unlock : S → S
  -- The result is 0 or negative, and `confirm` keeps its size.
  pub answer :
      (request confirm : Bytes) (timeout_ms : ℕ) (s s' : S) (res : ℤ) (confirm' : Bytes)
      → send_request_timeout request confirm timeout_ms s ≡ ok (answered res confirm', s')
      → ((res ≡ pos 0) ⊎ (is_neg res ≡ true)) × (length confirm' ≡ length confirm)

-- The local variables `request` and `confirm` of a caller, with any contents.
pub record Frames : Type 0 where
  pub request : Bytes
  pub confirm : Bytes

abbrev pub le16 : ℕ → Bytes
le16 v = v % 2 ^ 8 ∷ v / 2 ^ 8 % 2 ^ 8 ∷ []

abbrev pub le32 : ℕ → Bytes
le32 v = v % 2 ^ 8 ∷ v / 2 ^ 8 % 2 ^ 8 ∷ v / 2 ^ 16 % 2 ^ 8 ∷ v / 2 ^ 24 % 2 ^ 8 ∷ []

abbrev pub get16 : Bytes → ℕ → ℕ
get16 b i = get_or b i 0 + get_or b (i + 1) 0 * 2 ^ 8

abbrev pub get32 : Bytes → ℕ → ℕ
get32 b i =
    get_or b i 0
    + get_or b (i + 1) 0 * 2 ^ 8
    + get_or b (i + 2) 0 * 2 ^ 16
    + get_or b (i + 3) 0 * 2 ^ 24

-- Where the payload begins in a frame.
abbrev pub payload_offset : ℕ
payload_offset = 3

-- An assignment to fields, or a copy of bytes, at an offset in a frame.
unfoldable pub write_at : ℕ → Bytes → Bytes → Outcome Bytes
write_at offset bytes frame =
    if leb (offset + length bytes) (length frame) then ok (overlay offset bytes frame) else fault

-- A request with a primitive id, a payload length and the payload's first bytes; the frame id is
-- set later.
unfoldable pub fill_request : ℕ → ℕ → Bytes → Bytes → Outcome Bytes
fill_request primitive payload_length payload frame = do
  frame' ← write_at payload_offset payload frame
  ok (set (set frame' 0 primitive) 2 (payload_length % 2 ^ 8))

-- The confirmation's `result`, in a `sap_generic_conf_pl_t` and where it is the first field.
abbrev pub confirm_result : Bytes → ℕ
confirm_result confirm = get_or confirm payload_offset 0

-- What a caller makes of an answer: the negative result is returned, and a confirmation is read.
-- The first component is `none` if the process ends.
abbrev pub on_confirm : {A : Type 0} → A → (Bytes → Option ℤ × A) → Answer → Option ℤ × A
on_confirm unchanged read exited = (none, unchanged)
on_confirm unchanged read (answered res confirm) =
    if is_neg res then (some res, unchanged) else read confirm

-- `memcpy` of `n` bytes to an array of `capacity` bytes, out of a field of a frame that begins at
-- `offset` and has `size` bytes.
unfoldable pub copy_field : ℕ → ℕ → ℕ → ℕ → Bytes → Outcome Bytes
copy_field offset size capacity n frame =
    if leb n size && leb n capacity && leb (offset + n) (length frame)
    then ok (take n (drop offset frame))
    else fault

-- As `on_confirm`, for a use of the confirmation that copies out of it.
unfoldable pub on_confirm_copy :
    {A : Type 0} → (Bytes → Outcome (Option ℤ × Option A)) → Answer → Outcome (Option ℤ × Option A)
on_confirm_copy read exited = ok (none, none)
on_confirm_copy read (answered res confirm) =
    if is_neg res then ok (some res, none) else read confirm

-- The result of the confirmation is returned, and if it is 0 the values are read first.
unfoldable pub read_if_done :
    {A : Type 0} → (Bytes → Outcome A) → Bytes → Outcome (Option ℤ × Option A)
read_if_done read confirm =
    if confirm_result confirm == 0
    then (do values ← read confirm; ok (some (pos (confirm_result confirm)), some values))
    else ok (some (pos (confirm_result confirm)), none)

-- The same for a confirmation without a result.
unfoldable pub read_always :
    {A : Type 0} → (Bytes → Outcome A) → Bytes → Outcome (Option ℤ × Option A)
read_always read confirm = do values ← read confirm; ok (some (pos 0), some values)

module _ {S : Type 0} (requests : Requests S) where
  -- `WPC_Int_send_request`
  unfoldable pub wpc_int_send_request : Bytes → Bytes → S → Outcome (Answer × S)
  wpc_int_send_request request confirm s =
      requests.send_request_timeout request confirm timeout_confirm_ms s

  -- A request whose confirmation is a result only: the primitive, the payload length, the payload
  -- and the time out.
  unfoldable pub plain_request : ℕ → ℕ → Bytes → ℕ → Frames → S → Outcome (Option ℤ × S)
  plain_request primitive payload_length payload timeout_ms frames s = do
    request ← fill_request primitive payload_length payload frames.request
    (answer, s') ← requests.send_request_timeout request frames.confirm timeout_ms s
    ok ((on_confirm tt (λ confirm. (some (pos (confirm_result confirm)), tt)) answer).0, s')

  -- A request whose confirmation has values to read if the result is 0: the result, the values,
  -- which stay as they are without one, and the state.
  unfoldable pub reading_request :
      {A : Type 0} → ℕ → ℕ → Bytes → (Bytes → A) → Frames → S → Outcome ((Option ℤ × Option A) × S)
  reading_request primitive payload_length payload read frames s = do
    request ← fill_request primitive payload_length payload frames.request
    (answer, s') ← wpc_int_send_request request frames.confirm s
    ok (
      on_confirm none
          (λ confirm. (
            some (pos (confirm_result confirm)),
            if confirm_result confirm == 0 then some (read confirm) else none,
          ))
          answer,
      s',
    )

  -- A request whose confirmation has bytes to copy.
  unfoldable pub copying_request :
      {A : Type 0}
      → ℕ
      → ℕ
      → Bytes
      → (Bytes → Outcome (Option ℤ × Option A))
      → Frames
      → S
      → Outcome ((Option ℤ × Option A) × S)
  copying_request primitive payload_length payload read frames s = do
    request ← fill_request primitive payload_length payload frames.request
    (answer, s') ← wpc_int_send_request request frames.confirm s
    r ← on_confirm_copy read answer
    ok (r, s')
