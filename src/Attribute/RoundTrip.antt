-- ===== src/Attribute/RoundTrip.antt =====
-- An attribute that is written and read with lib/wpc/attribute.c, on a node that stores it.
use c_mesh_api.Request.Frame.{frame_of, fill_request-frame_of, take-append_eq}
use c_mesh_api.Util.{uint16_encode_le}
use c_mesh_api.Reassembly.{copy_bytes}
use c_mesh_api.WpcInternal.{timeout_confirm_ms, answered}
use c_mesh_api.Attribute.{
  attribute_read_request, attribute_write_request, plain_request, wpc_int_send_request, copy_bytes,
  timeout_confirm_ms, ok, uint16_encode_le, Frames, answered, read_attribute, pos, confirm_result,
  confirm_attribute_length, max_attribute_size, attribute_write_size, drop, some, negsuc, none, ltb,
  false, true, csap_attribute_write_request, csap_attribute_read_request, csap_attribute_write,
  csap_attribute_read, Option, ℤ,
}
use c_mesh_api.Request.{
  Requests, plain_request, wpc_int_send_request, Frames, confirm_result, get16, payload_offset,
}
use c_mesh_api.Prelude.{
  ℕ, Bytes, get_or, ◌≡◌, ok, pos, ◌<◌, ◌^◌, ◌≤◌, length, take, ◌+◌, drop, if◌then◌else◌, some, ◌==◌,
  negsuc, ◌-◌, none, ◌++◌, ◌∷◌, arith, length-take, ltb, refl, false, leb, true, ap, sym, ◌∙◌,
  Bool-cases, subst, inl, inr, Option, ℤ,
}

-- What a read of `asked` bytes gives for a value of `n` bytes.
abbrev pub read_of : ℕ → ℕ → Bytes → Option ℤ × Option Bytes
read_of asked n value = if asked == n then (some (pos 0), some value) else (some (negsuc 0), none)

pub read_attribute-recalled :
    (n : ℕ) (reply value : Bytes)
    → confirm_result reply ≡ 0
    → confirm_attribute_length reply ≡ length value
    → length value ≤ length (drop 7 reply)
    → take (length value) (drop 7 reply) ≡ value
    → read_attribute n reply
      ≡ ok (if n == length value then (some (pos 0), some value) else (some (negsuc 0), none))
unfolding read_attribute copy_bytes
read_attribute-recalled n reply value z l room e =
    let room' : leb (length value) (length (drop 7 reply)) ≡ true = ground arith in
    elim (Bool-cases (n == length value)) [
      | inl q ↦
          let same : n ≡ length value = ground arith in rw (z, l, q) (rw (same, room', e) refl)
      | inr q ↦ rw (z, l, q) refl
    ]

module _ {S : Type 0} (requests : Requests S) (stored : S → ℕ → Bytes) where
  -- The node confirms a request with the first primitive id by result 0 and has stored the bytes of
  -- the attribute then.
  abbrev pub Stores : ℕ → Type 0
  Stores primitive =
      (request confirm : Bytes) (s : S)
      → get_or request 0 0 ≡ primitive
      → (reply : Bytes) × (s' : S) × (requests.send_request_timeout request confirm
            timeout_confirm_ms s
          ≡ ok (answered (pos 0) reply, s'))
        × (confirm_result reply ≡ 0)
        × (stored s' (get16 request 3) ≡ take (get_or request 5 0) (drop 6 request))

  -- The node confirms a request with that primitive id by result 0, the length and the bytes of the
  -- attribute, if they fit.
  abbrev pub Recalls : ℕ → Type 0
  Recalls primitive =
      (request confirm : Bytes) (s : S)
      → get_or request 0 0 ≡ primitive
      → 7 + length (stored s (get16 request 3)) ≤ length confirm
      → (reply : Bytes) × (s' : S) × (requests.send_request_timeout request confirm
            timeout_confirm_ms s
          ≡ ok (answered (pos 0) reply, s'))
        × (confirm_result reply ≡ 0)
        × (confirm_attribute_length reply ≡ length (stored s (get16 request 3)))
        × (length (stored s (get16 request 3)) ≤ length (drop 7 reply))
        × (take (length (stored s (get16 request 3))) (drop 7 reply) ≡ stored s (get16 request 3))

  pub attribute_write_request-stored :
      (primitive attribute_id attribute_length : ℕ) (value : Bytes) (frames : Frames) (s : S)
      → Stores primitive
      → attribute_id < 2 ^ 16
      → attribute_length ≤ max_attribute_size
      → attribute_length ≤ length value
      → payload_offset + attribute_write_size ≤ length frames.request
      → (s' : S) × (attribute_write_request requests primitive attribute_id attribute_length value
            frames s
          ≡ ok (some (pos 0), s'))
        × (stored s' attribute_id ≡ take attribute_length value)
  unfolding attribute_write_request plain_request copy_bytes uint16_encode_le
  attribute_write_request-stored primitive attribute_id attribute_length value frames s stores i a v
        r =
      let n : ℕ = attribute_write_size - (max_attribute_size - attribute_length) in
      let bytes : Bytes = take attribute_length value in
      let payload : Bytes = uint16_encode_le attribute_id ++ (attribute_length ∷ bytes) in
      let len : length bytes ≡ attribute_length =
        omega (arith, length-take attribute_length value) in
      let small : ltb max_attribute_size attribute_length ≡ false = ground arith in
      let fits : leb attribute_length (length value) ≡ true = ground arith in
      let frame : Bytes = frame_of primitive n payload frames.request in
      let (reply, s', e, z, kept) = stores frame frames.confirm s refl in
      let id : get16 frame 3 ≡ attribute_id = omega arith in
      (
        s',
        rw (small, fits, fill_request-frame_of primitive n payload frames.request (omega arith))
            (rw e (rw z refl)),
        ap (stored s') (sym id)
            ∙ kept
            ∙ take-append_eq attribute_length bytes
                (drop (length payload) (drop payload_offset frames.request)) len,
      )

  pub attribute_read_request-recalled :
      (primitive attribute_id attribute_length : ℕ) (frames : Frames) (s : S)
      → Recalls primitive
      → attribute_id < 2 ^ 16
      → payload_offset + 2 ≤ length frames.request
      → 7 + length (stored s attribute_id) ≤ length frames.confirm
      → (s' : S) × (attribute_read_request requests primitive attribute_id attribute_length frames s
          ≡ ok (
            if attribute_length == length (stored s attribute_id)
                then (some (pos 0), some (stored s attribute_id))
                else (some (negsuc 0), none),
            s',
          ))
  unfolding attribute_read_request wpc_int_send_request uint16_encode_le
  attribute_read_request-recalled primitive attribute_id attribute_length frames s recalls i r
        fits =
      let payload : Bytes = uint16_encode_le attribute_id in
      let frame : Bytes = frame_of primitive 2 payload frames.request in
      let id : get16 frame 3 ≡ attribute_id = omega arith in
      let (reply, s', e, z, l, room, bytes) =
        recalls frame frames.confirm s refl
          (subst (λ x. 7 + length (stored s x) ≤ length frames.confirm) (sym id) fits) in
      let read =
        read_attribute-recalled attribute_length reply (stored s attribute_id) z
          (l ∙ ap (λ x. length (stored s x)) id)
          (subst (λ x. length (stored s x) ≤ length (drop 7 reply)) id room)
          (subst (λ x. take (length (stored s x)) (drop 7 reply) ≡ stored s x) id bytes) in
      (
        s',
        rw (fill_request-frame_of primitive 2 payload frames.request (omega arith))
            (rw e (rw read refl)),
      )

  -- On a node that stores the attributes of the configuration service and gives them back, a write
  -- of an attribute with an id of 16 bits and at most 40 bytes returns 0, and a read of it after
  -- that returns 0 and the bytes written if it asks for as many bytes, and -1 and no bytes
  -- otherwise.
  pub csap_attribute_write_request-read :
      (attribute_id attribute_length asked : ℕ) (value : Bytes) (frames frames' : Frames) (s : S)
      → Stores csap_attribute_write
      → Recalls csap_attribute_read
      → attribute_id < 2 ^ 16
      → attribute_length ≤ max_attribute_size
      → attribute_length ≤ length value
      → payload_offset + attribute_write_size ≤ length frames.request
      → payload_offset + 2 ≤ length frames'.request
      → 7 + attribute_length ≤ length frames'.confirm
      → (s' : S) × (s'' : S) × (csap_attribute_write_request requests attribute_id attribute_length
            value frames s
          ≡ ok (some (pos 0), s'))
        × (csap_attribute_read_request requests attribute_id asked frames' s'
            ≡ ok (
              if asked == attribute_length
                  then (some (pos 0), some (take attribute_length value))
                  else (some (negsuc 0), none),
              s'',
            ))
  unfolding csap_attribute_write_request csap_attribute_read_request
  csap_attribute_write_request-read attribute_id attribute_length asked value frames frames' s
        stores recalls i a v r r' fits =
      let (s', e, kept) =
        attribute_write_request-stored csap_attribute_write attribute_id attribute_length value
          frames s stores i a v r in
      let len : length (take attribute_length value) ≡ attribute_length =
        omega (arith, length-take attribute_length value) in
      let (s'', e') =
        attribute_read_request-recalled csap_attribute_read attribute_id asked frames' s' recalls i
          r' (omega (arith, ap length kept)) in
      (
        s',
        s'',
        e,
        e'
            ∙ ap (λ x. ok (read_of asked (length x) x, s'')) kept
            ∙ ap (λ n. ok (read_of asked n (take attribute_length value), s'')) len,
      )
