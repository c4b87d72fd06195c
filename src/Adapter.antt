-- ===== src/Adapter.antt =====
-- The adapter of rust/crates/utopia-proxy/src/adapter/: which addresses are refused, how an endpoint's
-- text is read, routing with its cache, and the adapter of TCP connections.
pub mod Blocked
pub mod Endpoint
pub mod Route
pub mod Tcp
