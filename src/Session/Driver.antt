-- ===== src/Session/Driver.antt =====
-- session/driver.rs: `SessionDriver`, the composition of the components.
pub mod State
pub mod Outcome
pub mod Numbered
pub mod Stored
pub mod Sent
pub mod Sending
pub mod Pieces
pub mod Receiving
pub mod Commands
pub mod Running
pub mod Coherence
mod Examples
pub mod Closing
