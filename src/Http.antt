-- ===== src/Http.antt =====
-- The HTTP server, rust/crates/utopia-proxy/src/server/http: what handler.rs reads of names, status lines and
-- headers (Names), how it chooses an endpoint (Choice), how it forwards to it (Forward, Heads and Raw), the pools of
-- clients (Pool), and the workers (Server).
pub mod Config
pub mod Names
pub mod Choice
pub mod Hosts
pub mod Answers
pub mod Pool
pub mod Forward
pub mod Heads
pub mod Raw
pub mod Server
