-- ===== src/Slip/Tests.antt =====
-- Runs of the framing of lib/wpc/slip.c at concrete frames, and its theorems at them.
use c_mesh_api.Slip.Codec.Sound.{slip_decode-crc, slip_decode_buffer_finishes}
use c_mesh_api.Slip.Codec.Decode.{free_after, slip_decode-escape}
use c_mesh_api.Slip.Frame.Receive.{receive_loop_overflow}
use c_mesh_api.Slip.Codec.Limits.{slip_encode_too_small, slip_encode_buffer_wraps}
use c_mesh_api.Slip.Frame.Send.{sent, slip_send_buffer-sent}
use c_mesh_api.Slip.Frame.RoundTrip.{taking, Fits, slip_round_trip}
use c_mesh_api.Slip.Crc.Reference.{bitwise_loop, crc_from_buffer-bitwise_loop}
use c_mesh_api.Slip.Codec.{
  slip_encode, slip_encode_buffer, crc_bytes, uint16_at, timeout_error, slip_decode_buffer,
}
use c_mesh_api.Slip.Codec.Encode.{with_crc}
use c_mesh_api.Slip.Frame.{
  receive_loop, slip_get_buffer, receive_event, slip_send_buffer, byte, receive_byte, receive_end,
  deliver, failed, timeout,
}
use c_mesh_api.Slip.Codec.Escape.{escape}
use c_mesh_api.Slip.Crc.{crc_from_buffer, crc_ccitt_lut}
use c_mesh_api.Prelude.{
  ℕ, Bytes, map, replicate, ◌∷◌, ◌≡◌, [], fault, ok, pos, refl, ◌++◌, arith, true, length-replicate,
  store, take, length, ◌≢◌, unfinished,
}

-- A poll request: primitive 0x04, frame 7, no payload.
abbrev poll : Bytes
poll = 0x04 ∷ 0x07 ∷ 0x00 ∷ []

-- A frame with both special octets.
abbrev special : Bytes
special = 0xC0 ∷ 0xDB ∷ 0x01 ∷ []

abbrev zeros : ℕ → Bytes
zeros n = replicate n 0

crc_of_check_string :
    crc_from_buffer (b'1' ∷ b'2' ∷ b'3' ∷ b'4' ∷ b'5' ∷ b'6' ∷ b'7' ∷ b'8' ∷ b'9' ∷ []) ≡ 0x29B1
unfolding crc_from_buffer crc_ccitt_lut
crc_of_check_string = refl

escape-special : escape special ≡ 0xDB ∷ 0xDC ∷ 0xDB ∷ 0xDD ∷ 0x01 ∷ []
unfolding escape
escape-special = refl

special-Fits : Fits special
unfolding escape crc_from_buffer crc_ccitt_lut crc_bytes
special-Fits = record {
  two_bytes = omega arith;
  decoded = omega arith;
  escaped = omega arith;
  encoded = omega arith;
}

slip_get_buffer_timeout :
    slip_get_buffer zeros (zeros 4) 4 (byte 0xC0 ∷ byte 1 ∷ timeout ∷ failed ∷ [])
    ≡ ok (timeout_error, zeros 4, failed ∷ [])
unfolding slip_get_buffer receive_loop receive_event receive_byte receive_end deliver store
slip_get_buffer_timeout = refl

crc_from_buffer-bitwise_loop_example : crc_from_buffer poll ≡ bitwise_loop 0xffff poll
crc_from_buffer-bitwise_loop_example = crc_from_buffer-bitwise_loop poll (omega arith)

slip_round_trip_example :
    (line : Bytes) × (slip_send_buffer taking zeros special [] ≡ ok (pos 0, line))
    × (slip_get_buffer zeros
          (zeros 5)
          5
          ((byte 0x55 ∷ failed ∷ []) ++ (map byte line ++ (timeout ∷ [])))
        ≡ ok (pos 3, 0xC0 ∷ 0xDB ∷ 0x01 ∷ 0 ∷ 0 ∷ [], timeout ∷ []))
slip_round_trip_example =
    slip_round_trip zeros zeros special (zeros 5) 5 (byte 0x55 ∷ failed ∷ []) (timeout ∷ [])
      (λ n. length-replicate n 0) (λ n. length-replicate n 0) special-Fits (omega arith)
      (omega arith) (omega arith) (omega arith)

slip_send_buffer-sent_example :
    slip_send_buffer taking zeros special [] ≡ ok (sent taking zeros special [])
unfolding escape crc_from_buffer crc_ccitt_lut crc_bytes
slip_send_buffer-sent_example =
    slip_send_buffer-sent taking zeros special [] (λ n. length-replicate n 0) (omega arith)
      (omega arith) (omega arith)

abbrev encoded_special : Bytes
encoded_special = escape (with_crc special) ++ []

-- The array of the encoded frame after it is decoded in place.
abbrev decoded_special : Bytes
decoded_special =
    special ++ (crc_bytes (crc_from_buffer special) ++ (free_after [] (with_crc special) ++ []))

slip_decode-crc_example :
    uint16_at decoded_special 3 ≡ ok (crc_from_buffer (take 3 decoded_special))
unfolding escape crc_from_buffer crc_ccitt_lut crc_bytes
slip_decode-crc_example =
    slip_decode-crc encoded_special decoded_special (length (escape (with_crc special))) 3
      (omega arith) (slip_decode-escape special [] (omega arith))

receive_loop_overflow_example :
    receive_loop
      (map byte (1 ∷ 2 ∷ []) ++ (byte 3 ∷ []))
      (record { buffer = zeros 2; size = 0; started = true })
    ≡ fault
receive_loop_overflow_example =
    receive_loop_overflow (1 ∷ 2 ∷ []) (zeros 2) 3 [] (omega arith) (omega arith) refl

slip_encode_buffer_wraps_example :
    (out : Bytes) × (slip_encode_buffer (replicate 150 0xC0) (zeros 300) 3 290 ≡ ok (pos 44, out))
unfolding escape
slip_encode_buffer_wraps_example =
    slip_encode_buffer_wraps 3 290 (replicate 150 0xC0) (zeros 300) (omega arith) (omega arith)

slip_encode_too_small_example : slip_encode special (zeros 9) 3 4 ≡ fault
unfolding escape
slip_encode_too_small_example =
    slip_encode_too_small special (zeros 9) 3 4 (omega arith) (omega arith) (omega arith)
      (omega arith)

-- A frame cut in an escape sequence.
slip_decode_buffer_finishes_example : slip_decode_buffer (0x01 ∷ 0xDB ∷ []) 2 ≢ unfinished
slip_decode_buffer_finishes_example = slip_decode_buffer_finishes (0x01 ∷ 0xDB ∷ []) 2 (omega arith)
