-- ===== src/Wpc/OneByte.antt =====
-- The read of an attribute of one byte by lib/wpc/wpc.c.
use c_mesh_api.Attribute.RoundTrip.{read_attribute-recalled}
use c_mesh_api.Wpc.Errors.{converted, convert_error_code, app_res_ok}
use c_mesh_api.Util.{uint16_encode_le}
use c_mesh_api.Reassembly.{copy_bytes}
use c_mesh_api.Wpc.Management.{read_single_byte_msap}
use c_mesh_api.Request.Frame.{frame_of, fill_request-frame_of}
use c_mesh_api.Attribute.{
  attribute_read_request, read_attribute, msap_attribute_read_request, msap_attribute_read,
  confirm_attribute_length,
}
use c_mesh_api.Request.{Frames, Requests, payload_offset, wpc_int_send_request, confirm_result}
use c_mesh_api.WpcInternal.{Answer, exited, answered, timeout_confirm_ms}
use c_mesh_api.Prelude.{
  ℕ, none, some, true, pos, negsuc, Bytes, ok, ◌≤◌, length, ℤ, take, ◌+◌, ◌≡◌, Option, Outcome,
  get_or, if◌then◌else◌, leb, ◌∷◌, ◌⊎◌, [], drop, is_neg, ◌∙◌, ap, arith, ◌>>=◌, inl, length-drop,
  refl, Bool-cases, get_or-drop, inr, ◌==◌,
}

-- The local variables of a read of one byte have room for it.
abbrev pub HasRoom : Frames → Type 0
HasRoom frames = (payload_offset + 2 ≤ length frames.request) × (8 ≤ length frames.confirm)

one_byte : (xs : Bytes) → 1 ≤ length xs → take 1 xs ≡ get_or xs 0 0 ∷ []
one_byte [] h = absurd (omega arith)
one_byte (x ∷ xs) h = refl

module _ {S : Type 0} (requests : Requests S) where
  read_attribute-returns :
      (confirm : Bytes)
      → 8 ≤ length confirm
      → (res : ℤ) × (value : Option Bytes) × (read_attribute 1 confirm ≡ ok (some res, value))
  unfolding read_attribute copy_bytes
  read_attribute-returns confirm h =
      let room : leb 1 (length (drop 7 confirm)) ≡ true = ground (arith, length-drop 7 confirm) in
      elim (Bool-cases (confirm_result confirm == 0)) [
        | inr q ↦ (pos (confirm_result confirm), none, rw q refl)
        | inl q ↦ elim (Bool-cases (1 == confirm_attribute_length confirm)) [
          | inr r ↦ (negsuc 0, none, rw (q, r) refl)
          | inl r ↦
              (pos (confirm_result confirm), some (take 1 (drop 7 confirm)), rw (q, r, room) refl)
        ]
      ]

  -- The use of the answer.
  use_answer-returns :
      (answer : Answer) (s' : S)
      → ((res : ℤ) (confirm : Bytes) → answer ≡ answered res confirm → 8 ≤ length confirm)
      → let o : Outcome ((Option ℤ × Option Bytes) × S) = elim answer [
        | exited ↦ ok ((none, none), s')
        | answered res confirm ↦
            if is_neg res
            then ok ((some res, none), s')
            else (do read ← read_attribute 1 confirm; ok (read, s'))
      ] in
        (read : Option ℤ × Option Bytes) × (o ≡ ok (read, s'))
        × ((answer ≡ exited) ⊎ ((res : ℤ) × (read.0 ≡ some res)))
  use_answer-returns exited s' h = ((none, none), refl, inl refl)
  use_answer-returns (answered res confirm) s' h =
      let (res', value, e) = read_attribute-returns confirm (h res confirm refl) in
      elim (Bool-cases (is_neg res)) [
        | inl q ↦ ((some res, none), rw q refl, inr (res, refl))
        | inr q ↦ ((some res', value), rw (q, e) refl, inr (res', refl))
      ]

  -- The frame of a read of an attribute.
  abbrev pub read_frame : ℕ → ℕ → Frames → Bytes
  read_frame primitive attribute_id frames =
      frame_of primitive 2 (uint16_encode_le attribute_id) frames.request

  pub attribute_read_request-returns :
      (primitive attribute_id : ℕ) (frames : Frames) (s s' : S) (answer : Answer)
      → HasRoom frames
      → requests.send_request_timeout
          (read_frame primitive attribute_id frames)
          frames.confirm
          timeout_confirm_ms
          s
        ≡ ok (answer, s')
      → (read : Option ℤ × Option Bytes) × (attribute_read_request requests primitive attribute_id 1
            frames s
          ≡ ok (read, s'))
        × ((answer ≡ exited) ⊎ ((res : ℤ) × (read.0 ≡ some res)))
  unfolding attribute_read_request wpc_int_send_request uint16_encode_le
  attribute_read_request-returns primitive attribute_id frames s s' answer (r, c) e =
      let frame : Bytes = read_frame primitive attribute_id frames in
      let (read, e', k) = use_answer-returns answer s' (λ res confirm q.
        let l =
          (requests.answer frame frames.confirm timeout_confirm_ms s s' res confirm
            (e ∙ ap (λ a. ok (a, s')) q)).1 in
        omega arith) in
      (
        read,
        rw
            (fill_request-frame_of primitive 2 (uint16_encode_le attribute_id) frames.request
              (omega arith))
            (rw (e, ◌>>=◌) e'),
        k,
      )

  pub read_single_byte_msap-told :
      (attribute_id m : ℕ) (frames : Frames) (s s' : S) (reply : Bytes)
      → HasRoom frames
      → requests.send_request_timeout
          (read_frame msap_attribute_read attribute_id frames)
          frames.confirm
          timeout_confirm_ms
          s
        ≡ ok (answered (pos 0) reply, s')
      → confirm_result reply ≡ 0
      → confirm_attribute_length reply ≡ 1
      → get_or reply 7 0 ≡ m
      → read_single_byte_msap requests attribute_id frames s ≡ ok ((some app_res_ok, some m), s')
  unfolding read_single_byte_msap msap_attribute_read_request attribute_read_request
      wpc_int_send_request uint16_encode_le converted convert_error_code
  read_single_byte_msap-told attribute_id m frames s s' reply (r, c) e z l v =
      let frame : Bytes = read_frame msap_attribute_read attribute_id frames in
      let len : length reply ≡ length frames.confirm =
        (requests.answer frame frames.confirm timeout_confirm_ms s s' (pos 0) reply e).1 in
      let byte : take 1 (drop 7 reply) ≡ m ∷ [] =
        one_byte (drop 7 reply) (omega (arith, length-drop 7 reply))
        ∙ ap (λ b. b ∷ []) (get_or-drop 7 0 reply 0 ∙ v) in
      let told =
        read_attribute-recalled 1 reply (m ∷ []) z l (omega (arith, length-drop 7 reply)) byte in
      rw
        (fill_request-frame_of msap_attribute_read 2 (uint16_encode_le attribute_id) frames.request
          (omega arith))
        (rw (e, ◌>>=◌, told) refl)
