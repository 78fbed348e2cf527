-- ===== src/Terminal.antt =====
-- internal/terminal/input.go: key events, the input line, its history and slash completion.
pub mod Keys
pub mod Line
pub mod Zipper
pub mod History
pub mod Completion
mod Examples
