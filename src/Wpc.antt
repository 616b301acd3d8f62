-- ===== src/Wpc.antt =====
-- lib/wpc/wpc.c: the functions of the interface. In a result, `none` stands for the end of the
-- process; an output that is not written is `none`.
pub mod Errors
pub mod Configuration
pub mod Management
pub mod OneByte
pub mod Multicast
pub mod Scratchpad
pub mod Stack
pub mod Data
pub mod Send
mod Tests
