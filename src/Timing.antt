-- ===== src/Timing.antt =====
-- timing.rs: round-trip estimation, wire timestamps and the send scheduler.
pub mod Rtt
pub mod Bounds
pub mod Datagram
pub mod Exchange
pub mod Received
pub mod Scheduler
pub mod Due
pub mod Polling
pub mod Waiting
mod Examples
