-- ===== src/Dsap.antt =====
-- lib/wpc/dsap.c: the data service. A packet goes out in one frame or in fragments, its callback
-- waits in a table for the indication, and received packets are handed to the application's
-- callback, after reassembly where they come in fragments.
pub mod Callbacks
pub mod Tracker
pub mod Transmit
pub mod Receive
pub mod Fragment
pub mod Chunks
pub mod Fragments
pub mod Division
pub mod RoundTrip
pub mod Outcome
pub mod Handle
pub mod Delivery
pub mod Limits
mod Tests
