-- ===== src/Prediction.antt =====
-- prediction.rs: the local predictions of what the server will echo.
pub mod State
pub mod Prefix
pub mod Matched
pub mod Soundness
pub mod Display
mod Examples
