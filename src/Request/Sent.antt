-- ===== src/Request/Sent.antt =====
-- A request goes out once, in a frame that has room for what it announces.
use c_mesh_api.Request.Frame.{frame_of, fill_request-frame_of, length-frame_of}
use c_mesh_api.WpcInternal.{Answer, timeout_confirm_ms, exited}
use c_mesh_api.Request.{
  Requests, Answer, Frames, plain_request, payload_offset, on_confirm, reading_request,
  fill_request, wpc_int_send_request, confirm_result, timeout_confirm_ms, copy_field,
  copying_request, read_if_done, on_confirm_copy, answered,
}
use c_mesh_api.Prelude.{
  ℕ, Bytes, List, Outcome, ◌≡◌, ok, ◌+◌, ◌⊎◌, length, ◌++◌, ◌∷◌, ◌≤◌, [], get_or, inr, arith, inl,
  ◌>>=◌, refl, some, none, pos, if◌then◌else◌, ◌==◌, Option, take, drop, ℤ, Bool-cases, is_neg,
}

module _ {S : Type 0} (requests : Requests S) (log : S → List Bytes) where
  -- Each request gets an answer, or the process ends. `log` gives the requests in the order of their
  -- sending.
  abbrev pub Answers : Type 0
  Answers =
      (request confirm : Bytes) (timeout_ms : ℕ) (s : S)
      → (answer : Answer) × (s' : S) × (requests.send_request_timeout request confirm timeout_ms s
          ≡ ok (answer, s'))
        × (log s' ≡ log s ++ (request ∷ []))

  -- Nothing has been sent, or one frame of the request's size that announces no more than it holds.
  abbrev pub SentOnce : Frames → S → S → Type 0
  SentOnce frames s s' =
      (log s' ≡ log s)
      ⊎ ((frame : Bytes) × (log s' ≡ log s ++ (frame ∷ []))
          × (length frame ≡ length frames.request)
          × (payload_offset + get_or frame 2 0 ≤ length frame))

  -- The code returns, with that.
  abbrev pub ReturnsOnce : {A : Type 0} → Frames → S → Outcome (A × S) → Type 0
  ReturnsOnce {A} frames s o = (a : A) × (s' : S) × (o ≡ ok (a, s')) × SentOnce frames s s'

  module _ (answers : Answers) where
    SentOnce-frame_of :
        (primitive n : ℕ) (payload : Bytes) (frames : Frames) (s s' : S)
        → payload_offset + length payload ≤ length frames.request
        → payload_offset + n ≤ length frames.request
        → log s' ≡ log s ++ (frame_of primitive n payload frames.request ∷ [])
        → SentOnce frames s s'
    SentOnce-frame_of primitive n payload frames s s' h k l =
        let len = length-frame_of primitive n payload frames.request h in
        inr (frame_of primitive n payload frames.request, l, len, omega arith)

    -- One request with any use of its answer.
    pub exchange-ReturnsOnce :
        {A : Type 0} (use_answer : Answer → A) (primitive n : ℕ) (payload : Bytes) (timeout_ms : ℕ)
        (frames : Frames) (s : S)
        → payload_offset + length payload ≤ length frames.request
        → payload_offset + n ≤ length frames.request
        → ReturnsOnce frames s (do
          request ← fill_request primitive n payload frames.request
          (answer, s') ← requests.send_request_timeout request frames.confirm timeout_ms s
          ok (use_answer answer, s'))
    exchange-ReturnsOnce use_answer primitive n payload timeout_ms frames s h k =
        let (a, s', e, l) =
          answers (frame_of primitive n payload frames.request) frames.confirm timeout_ms s in
        (
          use_answer a,
          s',
          rw (fill_request-frame_of primitive n payload frames.request h) (rw e refl),
          SentOnce-frame_of primitive n payload frames s s' h k l,
        )

    pub plain_request-ReturnsOnce :
        (primitive n : ℕ) (payload : Bytes) (timeout_ms : ℕ) (frames : Frames) (s : S)
        → payload_offset + length payload ≤ length frames.request
        → payload_offset + n ≤ length frames.request
        → ReturnsOnce frames s (plain_request requests primitive n payload timeout_ms frames s)
    unfolding plain_request
    plain_request-ReturnsOnce primitive n payload timeout_ms frames s h k =
        exchange-ReturnsOnce
          (λ a. (on_confirm tt (λ confirm. (some (pos (confirm_result confirm)), tt)) a).0)
          primitive n payload timeout_ms frames s h k

    pub reading_request-ReturnsOnce :
        {A : Type 0} (read : Bytes → A) (primitive n : ℕ) (payload : Bytes) (frames : Frames)
        (s : S)
        → payload_offset + length payload ≤ length frames.request
        → payload_offset + n ≤ length frames.request
        → ReturnsOnce frames s (reading_request requests primitive n payload read frames s)
    unfolding reading_request wpc_int_send_request
    reading_request-ReturnsOnce read primitive n payload frames s h k =
        exchange-ReturnsOnce
          (λ a.
            on_confirm none
              (λ confirm. (
                some (pos (confirm_result confirm)),
                if confirm_result confirm == 0 then some (read confirm) else none,
              ))
              a)
          primitive n payload timeout_confirm_ms frames s h k

    -- A request whose confirmation has what is read of it.
    pub copying_request-ReturnsOnce :
        {A : Type 0} (read : Bytes → Outcome (Option ℤ × Option A)) (primitive n : ℕ)
        (payload : Bytes) (frames : Frames) (s : S)
        → payload_offset + length payload ≤ length frames.request
        → payload_offset + n ≤ length frames.request
        → ((confirm : Bytes)
            → length confirm ≡ length frames.confirm
            → (r : Option ℤ × Option A) × (read confirm ≡ ok r))
        → ReturnsOnce frames s (copying_request requests primitive n payload read frames s)
    unfolding copying_request wpc_int_send_request on_confirm_copy
    copying_request-ReturnsOnce {A} read primitive n payload frames s h k reads =
        let frame : Bytes = frame_of primitive n payload frames.request in
        let (a, s', e, l) = answers frame frames.confirm timeout_confirm_ms s in
        let (r, q) = used a s' e in
        (
          r,
          s',
          rw (fill_request-frame_of primitive n payload frames.request h)
              (rw (e, ◌>>=◌) (rw q refl)),
          SentOnce-frame_of primitive n payload frames s s' h k l,
        )
      where
        used :
            (a : Answer) (s' : S)
            → requests.send_request_timeout
                (frame_of primitive n payload frames.request)
                frames.confirm
                timeout_confirm_ms
                s
              ≡ ok (a, s')
            → (r : Option ℤ × Option A) × (on_confirm_copy read a ≡ ok r)
        used exited s' e = ((none, none), refl)
        used (answered res confirm) s' e =
            let (_, len) =
              requests.answer (frame_of primitive n payload frames.request) frames.confirm
                timeout_confirm_ms s s' res confirm e in
            let (r, q) = reads confirm len in
            elim (Bool-cases (is_neg res)) [
              | inl b ↦ ((some res, none), rw b refl)
              | inr b ↦ (r, rw b q)
            ]

    -- What is copied is inside of the field and of both arrays.
    pub copy_field_fits :
        (offset size capacity n : ℕ) (frame : Bytes)
        → n ≤ size
        → n ≤ capacity
        → offset + n ≤ length frame
        → copy_field offset size capacity n frame ≡ ok (take n (drop offset frame))
    unfolding copy_field
    copy_field_fits offset size capacity n frame h k l = ground arith

    pub read_if_done_returns :
        {A : Type 0} (read : Bytes → Outcome A) (confirm : Bytes) (a : A)
        → read confirm ≡ ok a
        → (r : Option ℤ × Option A) × (read_if_done read confirm ≡ ok r)
    unfolding read_if_done
    read_if_done_returns read confirm a h = elim (Bool-cases (confirm_result confirm == 0)) [
      | inl q ↦ ((some (pos (confirm_result confirm)), some a), rw (q, h, ◌>>=◌) refl)
      | inr q ↦ ((some (pos (confirm_result confirm)), none), rw q refl)
    ]

    -- A request that is not made.
    pub refused-ReturnsOnce :
        {A : Type 0} (a : A) (frames : Frames) (s : S) → ReturnsOnce frames s (ok (a, s))
    refused-ReturnsOnce a frames s = (a, s, refl, inl refl)
