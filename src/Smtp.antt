-- ===== src/Smtp.antt =====
-- The SMTP server, rust/crates/utopia-proxy/src/server/smtp: what is read from a line (Lines), the session with
-- a client (Session), its rounds (Server), the sessions that run at once (Sessions), and their properties.
pub mod Config
pub mod Lines
pub mod Session
pub mod Server
pub mod Guarded
pub mod Reached
pub mod Message
pub mod Modes
pub mod Turns
pub mod Sessions
