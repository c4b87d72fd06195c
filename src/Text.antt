-- ===== src/Text.antt =====
-- The parts of Rust's text library that the program calls, over byte strings: rust/crates/utopia-proxy/src
-- splits, trims, parses and prints through them.
pub mod Ascii
pub mod Split
pub mod Decimal
pub mod Durations
pub mod Utf8
pub mod Words
pub mod Trim
