-- ===== src/Adapter/Endpoint.antt =====
-- Reading an endpoint's text, in rust/crates/utopia-proxy/src/adapter/mod.rs: `parse_endpoint`, and what
-- `validate` checks before it resolves the host.
pub mod Dialed
pub mod Lost
use protocol_proxy.Prelude.{
  ℕ, Bool, true, false, List, [], ◌∷◌, ◌++◌, Option, none, some, Bytes, codes, is_empty, leb, ◌&&◌,
  if◌then◌else◌, Result, ok, err, ◌>>=◌, unwrap_or, not,
}
use protocol_proxy.Text.Split.{split_once, splitn}
use protocol_proxy.Text.Decimal.{parse_u16, parse_uint, print_decimal}
use protocol_proxy.Resolver.{ResolverError}
use protocol_proxy.Resolver.New

-- The port falls back to the default where the text has none, or one that is no number.
unfoldable pub parse_endpoint : Bytes → ℕ → Bytes × ℕ
parse_endpoint endpoint default_port = elim (split_once b':' endpoint) [
  | some (host, port_str) ↦
      if not (is_empty port_str)
      then (host, unwrap_or (parse_u16 port_str) default_port)
      else (host, default_port)
  | none ↦ (endpoint, default_port)
]

abbrev invalid_format : Bytes → ResolverError
invalid_format endpoint = New.internal (codes "Invalid endpoint format: " ++ endpoint)

abbrev invalid_port : Bytes → ResolverError
invalid_port text = New.internal (codes "Invalid port number: " ++ text)

-- The port of `validate`: a number, and in the range from 1 to 65535.
check_port : Bytes → Result ResolverError ℕ
check_port text = elim (parse_u16 text) [
  | none ↦ err (invalid_port text)
  | some port ↦
      if leb 1 port && leb port 65535 then ok port else err (invalid_port (print_decimal port))
]

check_parts : Bytes → List Bytes → Result ResolverError (Bytes × Option ℕ)
unfolding check_port
check_parts endpoint (host ∷ []) = ok (host, none)
check_parts endpoint (host ∷ port ∷ []) =
    if is_empty port then ok (host, none) else do port ← check_port port; ok (host, some port)
check_parts endpoint _ = err (invalid_format endpoint)

-- The host and the port of an endpoint, as `validate` reads them.
unfoldable pub endpoint_parts : Bytes → Result ResolverError (Bytes × Option ℕ)
unfolding check_parts
endpoint_parts endpoint = check_parts endpoint (splitn 3 b':' endpoint)

-- What `validate` returns: the address in place of the host.
unfoldable pub endpoint_text : Bytes → Option ℕ → Bytes
endpoint_text ip none = ip
endpoint_text ip (some port) = ip ++ b':' ∷ print_decimal port
