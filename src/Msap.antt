-- ===== src/Msap.antt =====
-- lib/wpc/msap.c: the requests of the management service. Each builds a frame, waits for the
-- confirmation and reads it. In a result, `none` stands for the end of the process; an output that
-- is not written is `none`.
pub mod Scratchpad
pub mod ConfigData
pub mod Callbacks
pub mod Convert
pub mod Neighbors
pub mod Sent
pub mod Returns
pub mod Reads
pub mod Bounds
pub mod Registry
pub mod Slots
mod Tests
pub mod Mtu
