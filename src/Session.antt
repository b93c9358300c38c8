-- ===== src/Session.antt =====
-- session/ and session.rs: the driver of a session, and the parts beside the transport.
pub mod Reachability
pub mod History
pub mod Deadlines
pub mod Log
pub mod Errors
pub mod Checkpoints
pub mod Driver
pub mod Handle
pub mod Calls
mod Examples
