-- ===== src/Slip/Frame/RoundTrip.antt =====
-- What one end sends, the other end receives; and what is accepted has its check sum.
use c_mesh_api.Slip.Crc.{crc_from_buffer}
use c_mesh_api.Slip.Codec.{crc_bytes}
use c_mesh_api.Slip.Frame.Send.{wire, slip_send_buffer-sent}
use c_mesh_api.Slip.Codec.Decode.{slip_decode-escape, free_after}
use c_mesh_api.Slip.Frame.Receive.{IsNoise, receive_loop_frame, receive_loop_noise}
use c_mesh_api.Slip.Codec.Encode.{with_crc}
use c_mesh_api.Slip.Codec.Escape.{escape, escape-IsEscaped, length-le-escape}
use c_mesh_api.Slip.Frame.{
  deliver, slip_get_buffer, ReadEvent, frame, byte, max_size_encoded_buffer, slip_send_buffer,
  copy_into,
}
use c_mesh_api.Prelude.{
  ℕ, Bytes, ◌<◌, ◌≤◌, List, length, ◌≡◌, All, ◌*◌, ◌++◌, ok, ◌+◌, map, pos, overlay, arith,
  take-append, length-append, [], drop, ℤ, ◌∙◌, ◌^◌, ◌-◌,
}

-- The conditions under which the buffers and the 8-bit indices of slip.c are large enough.
pub record Fits (buffer : Bytes) : Type 0 where
  pub two_bytes : 2 ≤ length buffer
  pub decoded : length buffer < 254
  pub escaped : length (escape buffer) < 256
  pub encoded : length (escape (with_crc buffer)) ≤ 2 * length buffer + 2

deliver-escape :
    (buffer sent rest : Bytes) (len : ℕ)
    → 0 < length sent
    → length sent ≤ len
    → length sent ≤ length buffer
    → length sent < 254
    → deliver buffer len (frame (escape (with_crc sent) ++ rest) (length (escape (with_crc sent))))
      ≡ ok (pos (length sent), overlay 0 sent buffer)
unfolding deliver copy_into
deliver-escape buffer sent rest len p h b k = rw (slip_decode-escape sent rest k) (
    let behind = crc_bytes (crc_from_buffer sent) ++ (free_after [] (with_crc sent) ++ rest) in
    ground (arith, take-append sent behind, length-append sent behind))

module _ (uninit : ℕ → Bytes) where
  -- Whatever noise precedes it, a frame on the line comes back unescaped, checked, and copied to
  -- the caller's buffer, and the events behind it stay unread.
  pub slip_get_buffer-wire :
      (sent buffer : Bytes) (len : ℕ) (noise events : List ReadEvent)
      → ((n : ℕ) → length (uninit n) ≡ n)
      → Fits sent
      → length sent ≤ len
      → length sent ≤ length buffer
      → len < 2 ^ 31 - 3
      → All IsNoise noise
      → slip_get_buffer uninit buffer len (noise ++ (map byte (wire sent) ++ events))
        ≡ ok (pos (length sent), overlay 0 sent buffer, events)
  unfolding slip_get_buffer
  slip_get_buffer-wire sent buffer len noise events u f h b w q =
      let enc = escape (with_crc sent) in
      let array = uninit (max_size_encoded_buffer len) in
      let crc_size : length (with_crc sent) ≡ length sent + 2 =
        unfold crc_bytes in omega (arith, length-append sent (crc_bytes (crc_from_buffer sent))) in
      let found =
        receive_loop_frame enc array events (escape-IsEscaped (with_crc sent))
          (omega (arith, length-le-escape (with_crc sent), f.two_bytes))
          (omega (arith, u (max_size_encoded_buffer len), f.encoded)) in
      rw (receive_loop_noise noise (map byte (wire sent) ++ events) array 0 q) (
        rw found (
          rw (
            deliver-escape buffer sent (drop (length enc) array) len (omega (arith, f.two_bytes)) h
              b f.decoded)))

-- A line that takes every byte written to it.
abbrev pub taking : Bytes → Bytes → ℤ × Bytes
taking bytes line = (pos (length bytes), line ++ bytes)

-- For a frame of at least 2 and less than 254 bytes whose escaped form fits (`Fits`):
-- `Slip_send_buffer` returns 0 on a line that takes all bytes, and `Slip_get_buffer` at the other
-- end, with an array and a length `len` no shorter than the frame, and `len` small enough for the
-- size of the receiving buffer not to wrap, returns the frame's length and copies the frame to the
-- front of the caller's array, whatever noise without a delimiter comes first and whatever
-- follows, and reads nothing of what follows.
pub slip_round_trip :
    (uninit uninit' : ℕ → Bytes) (sent buffer : Bytes) (len : ℕ) (noise events : List ReadEvent)
    → ((n : ℕ) → length (uninit n) ≡ n)
    → ((n : ℕ) → length (uninit' n) ≡ n)
    → Fits sent
    → length sent ≤ len
    → length sent ≤ length buffer
    → len < 2 ^ 31 - 3
    → All IsNoise noise
    → (line : Bytes) × (slip_send_buffer taking uninit sent [] ≡ ok (pos 0, line))
      × (slip_get_buffer uninit' buffer len (noise ++ (map byte line ++ events))
          ≡ ok (pos (length sent), overlay 0 sent buffer, events))
slip_round_trip uninit uninit' sent buffer len noise events u u' f h b w q =
    let sent_ok =
      slip_send_buffer-sent taking uninit sent [] u (omega (arith, f.decoded)) f.escaped
        f.encoded in
    (
      wire sent,
      sent_ok ∙ ground arith,
      slip_get_buffer-wire uninit' sent buffer len noise events u' f h b w q,
    )
