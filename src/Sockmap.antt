-- ===== src/Sockmap.antt =====
-- rust/crates/utopia-proxy/src/sockmap/: the key of a connection in the kernel's table (Tuple), the
-- table of the pairs that the kernel relays (Pairs), its loading (Object) and the loader (Loader).
pub mod Tuple
pub mod Pairs
pub mod Loader
pub mod Object
