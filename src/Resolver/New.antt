-- ===== src/Resolver/New.antt =====
-- The constructor functions of `ResolverError` in rust/crates/utopia-proxy/src/resolver/mod.rs.
use protocol_proxy.Prelude.{Bytes, []}
use protocol_proxy.Resolver.{ResolverError}

unfoldable pub not_found : Bytes → ResolverError
not_found message = ResolverError.not_found message []

unfoldable pub unavailable : Bytes → ResolverError
unavailable message = ResolverError.unavailable message []

unfoldable pub timeout : Bytes → ResolverError
timeout message = ResolverError.timeout message []

unfoldable pub forbidden : Bytes → ResolverError
forbidden message = ResolverError.forbidden message []

unfoldable pub internal : Bytes → ResolverError
internal message = ResolverError.internal message []
