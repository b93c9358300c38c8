-- ===== src/Bootstrap.antt =====
-- bootstrap.rs: what the output of `mosh-server` says about a session.
pub mod Record
pub mod Output
pub mod Accepted
pub mod RoundTrip
mod Examples
