-- ===== src/Resolver.antt =====
-- rust/crates/utopia-proxy/src/resolver/mod.rs and fixed.rs, connection_result.rs and error.rs: what a
-- resolver answers, its errors with their HTTP-like codes, and the routing result.
-- Texts are byte strings, and a `HashMap<String, String>` is an association list.
pub mod New
pub mod Errors
use protocol_proxy.Prelude.{codes, ◌++◌, ℕ, Bytes, List, [], Option, none, some, Result, ok}
use protocol_proxy.Protocol.{Protocol}

abbrev pub Metadata : Type 0
Metadata = List (Bytes × Bytes)

-- Durations are counted in nanoseconds.
abbrev pub Duration : Type 0
Duration = ℕ

pub record ResolverResult : Type 0 where
  pub endpoint : Bytes
  pub metadata : Metadata
  pub timeout : Option Duration

unfoldable pub new_result : Bytes → ResolverResult
new_result endpoint = record { endpoint = endpoint; metadata = []; timeout = none }

unfoldable pub with_metadata : ResolverResult → Metadata → ResolverResult
with_metadata r metadata = record r { metadata = metadata }

unfoldable pub with_timeout : ResolverResult → Duration → ResolverResult
with_timeout r timeout = record r { timeout = some timeout }

pub data ResolverError : Type 0 where
  not_found unavailable timeout forbidden internal :
      (message : Bytes) (context : Metadata) → ResolverError

-- `ResolverError::NOT_FOUND` and the other codes.
abbrev pub not_found_code : ℕ
not_found_code = 404

abbrev pub unavailable_code : ℕ
unavailable_code = 503

abbrev pub timeout_code : ℕ
timeout_code = 504

abbrev pub forbidden_code : ℕ
forbidden_code = 403

abbrev pub internal_code : ℕ
internal_code = 500

unfoldable pub code : ResolverError → ℕ
code (not_found message context) = not_found_code
code (unavailable message context) = unavailable_code
code (timeout message context) = timeout_code
code (forbidden message context) = forbidden_code
code (internal message context) = internal_code

unfoldable pub context : ResolverError → Metadata
context (not_found message c) = c
context (unavailable message c) = c
context (timeout message c) = c
context (forbidden message c) = c
context (internal message c) = c

unfoldable pub with_context : ResolverError → Metadata → ResolverError
with_context (not_found message c) new = not_found message new
with_context (unavailable message c) new = unavailable message new
with_context (timeout message c) new = timeout message new
with_context (forbidden message c) new = forbidden message new
with_context (internal message c) new = internal message new

-- `Display`.
unfoldable pub display : ResolverError → Bytes
display (not_found message c) = codes "not found: " ++ message
display (unavailable message c) = codes "unavailable: " ++ message
display (timeout message c) = codes "timeout: " ++ message
display (forbidden message c) = codes "forbidden: " ++ message
display (internal message c) = codes "internal: " ++ message

-- The trait `Resolver`: an implementation is an argument of what uses it. The first argument of `resolve` tells the
-- calls apart, since an implementation may change its answers from one call to the next.
pub record Resolver : Type 0 where
  pub resolve : ℕ → Bytes → Result ResolverError ResolverResult

-- The resolver that always gives one endpoint.
pub record Fixed : Type 0 where
  pub endpoint : Bytes

unfoldable pub new_fixed : Bytes → Fixed
new_fixed endpoint = record { endpoint = endpoint }

unfoldable pub fixed_resolver : Fixed → Resolver
unfolding new_result
fixed_resolver f = record { resolve = λ asked_at data'. ok (new_result f.endpoint) }

-- A routing result; its accessors are the fields.
pub record ConnectionResult : Type 0 where
  pub endpoint : Bytes
  pub protocol : Protocol
  pub metadata : Metadata

unfoldable pub new_connection_result : Bytes → Protocol → Metadata → ConnectionResult
new_connection_result endpoint protocol metadata = record {
  endpoint = endpoint;
  protocol = protocol;
  metadata = metadata;
}

-- `ProxyError`; the error of the operating system is its message.
pub data ProxyError : Type 0 where
  resolver_error : ResolverError → ProxyError
  io tls configuration backend_connect protocol_error other : (message : Bytes) → ProxyError
