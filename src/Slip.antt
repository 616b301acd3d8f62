-- ===== src/Slip.antt =====
-- lib/wpc/slip.c: the serial framing. Crc is its check sum, Codec the escaping of a buffer and the
-- check of a frame, Frame the sending and the reception of frames.
pub mod Crc
pub mod Codec
pub mod Frame
mod Tests
