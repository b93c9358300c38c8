-- ===== src/Synchronization.antt =====
-- synchronization.rs: the SSP state numbering of both directions.
pub mod State
pub mod Sender
pub mod Receiver
pub mod Ordered
pub mod Invariant
pub mod Halves
pub mod Steps
pub mod Progress
pub mod Acknowledgement
pub mod Delivery
pub mod Contents
pub mod Committed
pub mod Planning
mod Examples
