-- ===== src/Fragment.antt =====
-- fragment.rs: fragments of an instruction, on the wire and in reassembly.
pub mod Codec
pub mod RoundTrip
pub mod Reassembly
pub mod Outcomes
pub mod Assembly
pub mod Collected
pub mod Delivered
mod Examples
