-- ===== src/Adapter/Route/Validated.antt =====
-- What `validate` lets through.
use protocol_proxy.Adapter.Blocked.{is_blocked_ip}
use protocol_proxy.Dns.{DnsEnv, DnsState, resolve}
use protocol_proxy.Net.{IpAddr, print_ip, parse_ip}
use protocol_proxy.Prelude.{
  false, ok, Bytes, Option, ℕ, ◌≡◌, inl, inr, Option-cases, Result-cases, arith, Bool-cases,
}
use protocol_proxy.External.{CacheApi}
use protocol_proxy.Adapter.Route.{validate, check_address, dns_timeout}
use protocol_proxy.Adapter.Endpoint.{endpoint_parts, endpoint_text}
use protocol_proxy.Adapter.Endpoint.Dialed.{IsPort, endpoint_parts-IsPort}

-- An endpoint that may be dialed: the text of an address outside the refused ranges, and a port if any.
pub record IsSafe (endpoint : Bytes) : Type 0 where
  pub ip : IpAddr
  pub port : Option ℕ
  pub allowed : is_blocked_ip ip ≡ false
  pub in_range : IsPort port
  pub written : endpoint ≡ endpoint_text (print_ip ip) port

check_address-IsSafe :
    (host resolved endpoint : Bytes) (port : Option ℕ)
    → IsPort port
    → check_address host port resolved ≡ ok endpoint
    → IsSafe endpoint
unfolding check_address
check_address-IsSafe host resolved endpoint port p e = elim (Option-cases (parse_ip resolved)) [
  | inl unreadable ↦ absurd (ground arith)
  | inr (ip, found) ↦ elim (Bool-cases (is_blocked_ip ip)) [
    | inl blocked ↦ absurd (ground arith)
    | inr allowed ↦ record {
      ip = ip;
      port = port;
      allowed = allowed;
      in_range = p;
      written = ground arith;
    }
  ]
]

module _ (D : CacheApi Bytes IpAddr) where
  pub validate-IsSafe :
      (env : DnsEnv) (endpoint text : Bytes) (dns : DnsState D.Store)
      → (validate D env endpoint dns).0 ≡ ok text
      → IsSafe text
  unfolding validate
  validate-IsSafe env endpoint text dns e = elim (Result-cases (endpoint_parts endpoint)) [
    | inl (failure, found) ↦ absurd (ground arith)
    | inr ((host, port), found) ↦
        check_address-IsSafe host (resolve D env host dns_timeout dns).0 text port
          (endpoint_parts-IsPort endpoint host port found) (ground arith)
  ]
