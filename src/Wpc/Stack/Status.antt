-- ===== src/Wpc/Stack/Status.antt =====
-- The answers of a node to the requests of lib/wpc/wpc.c for the state of its stack.
use c_mesh_api.Wpc.Configuration.{first_byte}
use c_mesh_api.Wpc.Errors.{
  app_res_ok, converted, AppRes, convert_error_code, app_res_internal_error,
  att_read_error_code_lut,
}
use c_mesh_api.Wpc.OneByte.{
  HasRoom, read_frame, read_single_byte_msap-told, attribute_read_request-returns,
}
use c_mesh_api.Attribute.{
  msap_attribute_read, msap_attribute_read_request, confirm_attribute_length,
}
use c_mesh_api.Util.{uint16_encode_le}
use c_mesh_api.Wpc.Management.{wpc_get_stack_status, read_single_byte_msap}
use c_mesh_api.Wpc.Stack.{Control}
use c_mesh_api.Request.{Requests, Frames, confirm_result, get16}
use c_mesh_api.WpcInternal.{answered, timeout_confirm_ms}
use c_mesh_api.Prelude.{
  ℕ, some, true, false, pos, negsuc, Bytes, ok, get_or, ℤ, ◌≡◌, ◌≤◌, ◌+◌, length, Option, refl, ltb,
  List, inl, inr, if◌then◌else◌, ◌>>=◌, ◌∙◌, ap,
}

convert_error_code-some :
    (lut : List AppRes) (r : ℤ) → (res : AppRes) × (convert_error_code lut (some r) ≡ some res)
unfolding convert_error_code
convert_error_code-some lut (negsuc n) = (app_res_internal_error, refl)
convert_error_code-some lut (pos n) = (
  if ltb n (length lut) then get_or lut n app_res_internal_error else app_res_internal_error,
  refl,
)

module _ {S : Type 0} (requests : Requests S) (control : Control S) (time : S → ℕ) (k d : ℕ) where
  -- Each request is answered, by the node or with an error, in at most `d` ticks, and a reading of
  -- the clock takes no longer.
  abbrev pub Prompt : Type 0
  Prompt =
      ((request confirm : Bytes) (timeout_ms : ℕ) (s : S)
        → (res : ℤ) × (reply : Bytes) × (s' : S) × (requests.send_request_timeout request confirm
              timeout_ms s
            ≡ ok (answered res reply, s'))
          × (time s ≤ time s')
          × (time s' ≤ time s + d))
      × ((s : S) → time (control.get_timestamp_ms_monotonic s).1 ≤ time s + d)

  -- From the tick `boot` on the node tells the state of its stack.
  abbrev pub TellsStatus : ℕ → Type 0
  TellsStatus boot =
      (request confirm : Bytes) (s : S)
      → get_or request 0 0 ≡ msap_attribute_read
      → get16 request 3 ≡ 1
      → boot ≤ time s
      → 8 ≤ length confirm
      → (reply : Bytes) × (s' : S) × (requests.send_request_timeout request confirm
            timeout_confirm_ms s
          ≡ ok (answered (pos 0) reply, s'))
        × (confirm_result reply ≡ 0)
        × (confirm_attribute_length reply ≡ 1)

  -- The node answers the request to start the stack with result 0.
  abbrev pub StartsStack : Type 0
  StartsStack =
      (request confirm : Bytes) (s : S)
      → get_or request 0 0 ≡ 0x05
      → (reply : Bytes) × (s' : S) × (requests.send_request_timeout request confirm
            timeout_confirm_ms s
          ≡ ok (answered (pos 0) reply, s'))
        × (confirm_result reply ≡ 0)

  pub status_asked :
      (frames : Frames) (s : S)
      → Prompt
      → HasRoom frames
      → (res : AppRes) × (value : Option ℕ) × (s' : S) × (wpc_get_stack_status requests frames s
          ≡ ok ((some res, value), s'))
        × (time s ≤ time s')
        × (time s' ≤ time s + d)
  unfolding wpc_get_stack_status read_single_byte_msap msap_attribute_read_request converted
      convert_error_code
  status_asked frames s (prompt, tick) room =
      let (res, reply, s', e, a, b) =
        prompt (read_frame requests msap_attribute_read 1 frames) frames.confirm timeout_confirm_ms
          s in
      let (read, e', c) =
        attribute_read_request-returns requests msap_attribute_read 1 frames s s'
          (answered res reply) room e in
      elim c [
        | inl q ↦ absurd (let f : true ≡ false = cc in cc)
        | inr (r, q) ↦
            let (res', w) = convert_error_code-some att_read_error_code_lut r in
            let value : Option ℕ = (converted att_read_error_code_lut first_byte read).1 in
            (
              res',
              value,
              s',
              rw (e', ◌>>=◌)
                  (ap (λ x. ok ((x, value), s'))
                    (ap (convert_error_code att_read_error_code_lut) q ∙ w)),
              a,
              b,
            )
      ]

  pub status_told :
      (boot : ℕ) (frames : Frames) (s : S)
      → TellsStatus boot
      → HasRoom frames
      → boot ≤ time s
      → (value : ℕ) × (s' : S) × (wpc_get_stack_status requests frames s
          ≡ ok ((some app_res_ok, some value), s'))
  unfolding wpc_get_stack_status uint16_encode_le
  status_told boot frames s tells (r, c) h =
      let frame : Bytes = read_frame requests msap_attribute_read 1 frames in
      let (reply, s', e, z, l) = tells frame frames.confirm s refl refl h c in
      (
        get_or reply 7 0,
        s',
        read_single_byte_msap-told requests 1 (get_or reply 7 0) frames s s' reply (r, c) e z l
            refl,
      )
