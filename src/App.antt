-- ===== src/App.antt =====
-- app/: what happens when the program starts, and the loop of the main task.
pub mod System
pub mod Main
pub mod Tasks
pub mod Start
mod Examples
