-- ===== src/Input.antt =====
-- crates/is-input: the parts of capturing and replaying input that are the program's own.
pub mod Keys
pub mod Capture
pub mod Mac
pub mod Screens
