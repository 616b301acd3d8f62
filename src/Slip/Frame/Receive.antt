-- ===== src/Slip/Frame/Receive.antt =====
-- The loop of `Slip_get_buffer` on a frame, on noise, and on too many bytes.
use native.Mathlib.Nat.{zero-add}
use c_mesh_api.Slip.Codec.{end_slip_octet}
use c_mesh_api.Slip.Codec.Escape.{IsEscaped}
use c_mesh_api.Slip.Frame.{
  receive_loop, ReadEvent, byte, receive_event, receive_byte, end_slip_octet, continue, receive_end,
  timeout, failed, frame, Receiving,
}
use c_mesh_api.Prelude.{
  ℕ, Bytes, List, ◌≡◌, length, ◌≤◌, map, ◌++◌, true, drop, ◌+◌, arith, ◌∷◌, [], ap, sym,
  append_assoc, store, ◌≢◌, ◌∙◌, length-append, ok, ap₂, store-append, All, false, fault, drop_all,
  refl, append-nil, map-append,
}

receive_event-byte :
    (x r n : ℕ) (out room : Bytes)
    → n ≡ length out
    → x ≢ end_slip_octet
    → receive_event (byte x) (record { buffer = out ++ (r ∷ room); size = n; started = true })
      ≡ ok (continue (record { buffer = out ++ (x ∷ room); size = n + 1; started = true }))
unfolding receive_event receive_byte
receive_event-byte x r n out room e p =
    ground (arith, store-append out room r x n e, length-append out (r ∷ room))

-- A byte that finds the array full is written behind its end.
receive_event_full :
    (x : ℕ) (buffer : Bytes)
    → x ≢ end_slip_octet
    → receive_event (byte x) (record { buffer = buffer; size = length buffer; started = true })
      ≡ fault
unfolding receive_event receive_byte store
receive_event_full x buffer p = ground arith

-- The bytes of one frame arrive one after the other behind those in `out`.
receive_loop-IsEscaped :
    (xs : Bytes) (events : List ReadEvent) (out room : Bytes) (n : ℕ)
    → n ≡ length out
    → IsEscaped xs
    → length xs ≤ length room
    → receive_loop
        (map byte xs ++ events)
        (record { buffer = out ++ room; size = n; started = true })
      ≡ receive_loop events (record {
        buffer = out ++ (xs ++ drop (length xs) room);
        size = n + length xs;
        started = true;
      })
unfolding receive_loop
receive_loop-IsEscaped [] events out room n e p h = ground arith
receive_loop-IsEscaped (x ∷ xs) events out [] n e p h = absurd (omega arith)
receive_loop-IsEscaped (x ∷ xs) events out (r ∷ room) n e p h =
    rw (receive_event-byte x r n out room e p.0) (
      ap
        (λ b.
          receive_loop (map byte xs ++ events)
            (record { buffer = b; size = n + 1; started = true }))
        (sym (append_assoc out (x ∷ []) room))
      ∙ receive_loop-IsEscaped xs events (out ++ (x ∷ [])) room (n + 1)
          (omega (arith, length-append out (x ∷ []))) p.1 (omega arith)
      ∙ ap₂ (λ b k. receive_loop events (record { buffer = b; size = k; started = true }))
          (append_assoc out (x ∷ []) (xs ++ drop (length xs) room)) (omega arith))

-- Events that change nothing before the first delimiter: other bytes, and failed reads.
abbrev pub IsNoise : ReadEvent → Type 0
IsNoise timeout = ⊥
IsNoise (byte c) = c ≢ end_slip_octet
IsNoise failed = Unit

receive_event_noise :
    (e : ReadEvent) (buffer : Bytes) (n : ℕ)
    → IsNoise e
    → let r : Receiving = record { buffer = buffer; size = n; started = false } in
      receive_event e r ≡ ok (continue r)
unfolding receive_event
receive_event_noise timeout buffer n p = absurd p
receive_event_noise (byte c) buffer n p = ground arith
receive_event_noise failed buffer n p = refl

pub receive_loop_noise :
    (noise events : List ReadEvent) (buffer : Bytes) (n : ℕ)
    → All IsNoise noise
    → let r : Receiving = record { buffer = buffer; size = n; started = false } in
      receive_loop (noise ++ events) r ≡ receive_loop events r
unfolding receive_loop
receive_loop_noise [] events buffer n p = refl
receive_loop_noise (e ∷ noise) events buffer n p =
    rw (receive_event_noise e buffer n p.0) (receive_loop_noise noise events buffer n p.1)

-- Three delimiters start a frame.
receive_loop_start :
    (events : List ReadEvent) (buffer : Bytes)
    → receive_loop
        (byte end_slip_octet ∷ byte end_slip_octet ∷ byte end_slip_octet ∷ events)
        (record { buffer = buffer; size = 0; started = false })
      ≡ receive_loop events (record { buffer = buffer; size = 0; started = true })
unfolding receive_loop receive_event receive_end
receive_loop_start events buffer = refl

-- A delimiter behind four bytes or more ends it.
receive_loop_end :
    (events : List ReadEvent) (buffer : Bytes) (n : ℕ)
    → 4 ≤ n
    → receive_loop
        (byte end_slip_octet ∷ events)
        (record { buffer = buffer; size = n; started = true })
      ≡ ok (frame buffer n, events)
unfolding receive_loop receive_event receive_end
receive_loop_end events buffer n h = ground arith

-- A delimited run of at least four other bytes that fits the array is received whole.
pub receive_loop_frame :
    (xs buffer : Bytes) (events : List ReadEvent)
    → IsEscaped xs
    → 4 ≤ length xs
    → length xs ≤ length buffer
    → receive_loop
        (map byte (end_slip_octet ∷ end_slip_octet ∷ end_slip_octet ∷ (xs ++ (end_slip_octet ∷ [])))
          ++ events)
        (record { buffer = buffer; size = 0; started = false })
      ≡ ok (frame (xs ++ drop (length xs) buffer) (length xs), events)
receive_loop_frame xs buffer events p h k =
    let split : map byte (xs ++ (end_slip_octet ∷ [])) ++ events
        ≡ map byte xs ++ (byte end_slip_octet ∷ events) =
      rw (map-append, append_assoc) in
    receive_loop_start (map byte (xs ++ (end_slip_octet ∷ [])) ++ events) buffer
    ∙ rw split (
        receive_loop-IsEscaped xs (byte end_slip_octet ∷ events) [] buffer 0 refl p k
        ∙ rw zero-add (receive_loop_end events (xs ++ drop (length xs) buffer) (length xs) h))

-- While a frame is being received, one byte more than the array has room for is written behind
-- the array: the test of `size` against its size comes after the write.
pub receive_loop_overflow :
    (xs buffer : Bytes) (x : ℕ) (events : List ReadEvent)
    → IsEscaped xs
    → x ≢ end_slip_octet
    → length xs ≡ length buffer
    → receive_loop
        (map byte xs ++ (byte x ∷ events))
        (record { buffer = buffer; size = 0; started = true })
      ≡ fault
receive_loop_overflow xs buffer x events p q h =
    let full : drop (length xs) buffer ≡ [] = drop_all (length xs) buffer (omega arith) in
    receive_loop-IsEscaped xs (byte x ∷ events) [] buffer 0 refl p (omega arith)
    ∙ rw (zero-add, full, append-nil) (unfold receive_loop in rw (receive_event_full x xs q))
