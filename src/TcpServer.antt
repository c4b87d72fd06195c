-- ===== src/TcpServer.antt =====
-- The TCP server, rust/crates/utopia-proxy/src/server/tcp: its settings (Config), a connection's record
-- (Connection), the adapters that it starts with
-- (Start), the handling of one connection (Session), the connections of a port at once (Tasks), the relaying of
-- bytes (Forwarding) and the options of sockets (Sockopts).
pub mod Config
pub mod Connection
pub mod Forwarding
pub mod Session
pub mod Tasks
pub mod Sockopts
pub mod Start
