-- ===== src/Instruction.antt =====
-- instruction.rs: transport instructions, client differences and their encoding.
pub mod Message
pub mod Encoding
pub mod Termination
pub mod Examples
pub use Message.*
