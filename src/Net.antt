-- ===== src/Net.antt =====
-- IP addresses and their text, as in `std::net`: rust/crates/utopia-proxy/src/adapter/mod.rs and dns.rs
-- parse and print addresses through them.
mod Types
mod Parse
mod Socket
mod Print
mod Laws
pub use Types.*
unfoldable pub use Parse.*
unfoldable pub use Socket.*
unfoldable pub use Print.*
pub use Laws.*
