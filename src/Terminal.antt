-- ===== src/Terminal.antt =====
-- terminal/: the terminal state, the differences that change it, and its output.
pub mod Screen
pub mod Difference
pub mod Width
pub mod Budget
pub mod State
pub mod Paint
pub mod Cells
pub mod Echo
pub mod Examples
