-- ===== src/Packet.antt =====
-- packet.rs: sealed datagrams, their sequence numbers and the replay window.
pub mod Window
pub mod Replay
pub mod Stream
pub mod Codec
pub mod Sealing
pub mod Receiver
pub mod Examples
