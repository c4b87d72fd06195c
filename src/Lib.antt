-- ===== src/Lib.antt =====
-- A model of the Rust implementation of the protocol proxy, rust/crates/utopia-proxy/src and rust/bins/proxy/src, and
-- proofs about it.
--
-- The proxy accepts TCP, SMTP and HTTP clients. A server asks a routing adapter for the backend of a client; the
-- adapter asks a resolver, validates the endpoint against the refused address ranges and caches it. The server
-- then connects to the endpoint and relays bytes; on Linux a BPF table can relay a TCP pair in the kernel.
--
--   Prelude     names of the libraries, byte strings, dictionaries, `Result`, and tests on numbers.
--   Text, Bits  what the code uses of Rust's text functions, and laws of masks and shifts.
--   Net         `Ipv4Addr`, `Ipv6Addr` and `IpAddr`, with their parsing and printing.
--   External    the caches and maps of other packages: records of operations and of documented laws.
--   Protocol    protocol.rs: names and ports.
--   Resolver    resolver/mod.rs, resolver/fixed.rs, connection_result.rs and error.rs.
--   Dns         dns.rs: `resolve`, `resolve_strict` and the lazily built cache.
--   Adapter     adapter/mod.rs (Blocked, Endpoint, Route) and adapter/tcp.rs (Tcp).
--   Sockmap     sockmap/tuple.rs, sockmap/linux.rs (Object and Pairs) and sockmap/mod.rs (Loader).
--   Smtp        server/smtp: the lines, one session's operations and the loop of `handle_client`; Sessions for the
--               sessions that `start` runs at once.
--   Http        server/http: Names, Choice and Answers for what handler.rs reads and answers itself, Forward for
--               `forward_request`, Heads and Raw for `forward_raw_request`, Pool for pool.rs, Server for server.rs
--               and Config for config.rs. Pool.Shared is a pool that interleaved requests share, and Server.Tasks
--               the requests that a worker serves at once.
--   TcpServer   server/tcp: Config for config.rs, Connection for connection.rs; of server.rs, Start for `start`,
--               Session for one connection, Tasks for the connections of a port at once and Forwarding for the
--               loop of `forward_serialised`; Sockopts for sockopts.rs.
--   Tls         tls/mod.rs: settings and the detection of requests for TLS; Context for tls/context.rs.
--   Proxy       the program, rust/bins/proxy/src/main.rs: the environment, and the settings and the run made of it.
--   Examples    runs at concrete inputs.
--
-- A text or a payload is a list of bytes, a port or a descriptor a native number, a duration a number of
-- nanoseconds. A function that changes state takes it and gives it back. What a socket, a lookup, a clock or
-- another package gives is an argument, so a theorem holds whatever these do, within the laws it names.
-- A function runs one call alone. What runs at once is a step relation around those calls: TcpServer.Tasks has a
-- step for each lookup, routing, connect, activation and closing of a connection, Smtp.Sessions a step for each
-- round of a session, which calls the adapter at most once, Pool.Shared a step for each change of an HTTP pool, and
-- Http.Server.Tasks a step for each choice of an endpoint, each look into the registry and each step of a pool.
-- Loops recurse on lists; the decoder of UTF-8 takes the text's length as fuel, and a round takes a byte.
-- The SMTP rounds stop where the list of rounds ends, as a session that waits for its next line; so do the reads
-- of a raw HTTP response, of which one for each byte is enough.
--
-- Not modelled: the wait after a failed accept and the loops that only wait for a socket, which change nothing that
-- the model keeps; `copy_bidirectional`, which is tokio's; what hyper does with a connection; what a custom handler
-- of requests does to the adapter; the logging and the banner of the program and its parsing of floats; and the PHP
-- implementation.
pub mod Prelude
pub mod Text
pub mod Net
pub mod Protocol
pub mod Resolver
pub mod Bits
pub mod External
pub mod Adapter
pub mod Dns
pub mod Sockmap
pub mod Smtp
pub mod Http
pub mod Tls
pub mod TcpServer
pub mod Proxy
pub mod Examples
