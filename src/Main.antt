-- ===== src/Main.antt =====
-- main.go: the operator's command.
pub mod Types
pub mod Admin
pub mod Serve
mod Steps
pub mod Founding
pub mod Wakes
