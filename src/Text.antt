-- ===== src/Text.antt =====
-- The parts of Rust's `core::str` that the library calls, over the UTF-8 bytes of a text.
pub mod Utf8
pub mod Space
pub mod Split
pub mod Number
pub mod Case
