-- ===== src/Proxy/Defaults.antt =====
-- The endpoints that the program forwards to where none is given, and the validation of endpoints.
use protocol_proxy.Adapter.Route.Refused.{route-refused, ask-resolver}
use protocol_proxy.Resolver.New
use protocol_proxy.Text.Decimal.{parse_uint, parse_digits}
use protocol_proxy.Text.Split.{splitn, split_once}
use protocol_proxy.Adapter.Blocked.{is_blocked_ip}
use protocol_proxy.Adapter.Endpoint.{endpoint_parts}
use protocol_proxy.Resolver.{
  ResolverError, code, forbidden_code, Duration, new_result, fixed_resolver, new_fixed,
}
use protocol_proxy.Dns.{DnsState, resolve, DnsEnv}
use protocol_proxy.Proxy.{
  Protocol, Vars, endpoint_env, build_resolver, endpoint_default, env_string,
}
use protocol_proxy.Net.{IpAddr, v4, parse_ip, print_ip}
use protocol_proxy.Adapter.Route.{
  ask, CacheEntry, RouteEnv, Adapter, validate, cached, route, dns_timeout,
}
use protocol_proxy.External.{CacheApi}
use protocol_proxy.Prelude.{
  none, some, false, err, ◌≡◌, Bytes, true, ok, refl, codes, ℕ, [], ◌++◌, is_empty, ◌∙◌,
}

abbrev localhost : Bytes
localhost = codes "127.0.0.1"

abbrev default_port : Protocol → ℕ
default_port Protocol.tcp = 5432
default_port Protocol.http = 5678
default_port Protocol.smtp = 1025

default_parts :
    (p : Protocol) → endpoint_parts (endpoint_default p) ≡ ok (localhost, some (default_port p))
unfolding endpoint_default endpoint_parts splitn split_once parse_uint parse_digits
default_parts Protocol.tcp = refl
default_parts Protocol.http = refl
default_parts Protocol.smtp = refl

abbrev loopback : IpAddr
loopback = v4 (record { a = 127; b = 0; c = 0; d = 1 })

parse_localhost : parse_ip localhost ≡ some loopback
unfolding parse_ip
parse_localhost = refl

loopback-blocked : is_blocked_ip loopback ≡ true
unfolding is_blocked_ip
loopback-blocked = refl

resolve-localhost :
    (D : CacheApi Bytes IpAddr) (env : DnsEnv) (limit : Duration) (dns : DnsState D.Store)
    → resolve D env localhost limit dns ≡ (localhost, dns)
unfolding resolve
resolve-localhost D env limit dns = rw (parse_localhost, resolve) refl

validate-default :
    (D : CacheApi Bytes IpAddr) (env : DnsEnv) (p : Protocol) (dns : DnsState D.Store)
    → (e : ResolverError) × ((validate D env (endpoint_default p) dns).0 ≡ err e)
      × (code e ≡ forbidden_code)
unfolding validate parse_ip is_blocked_ip New.forbidden code
validate-default D env p dns =
    rw (default_parts p, validate, resolve-localhost D env dns_timeout dns)
      (
        ResolverError.forbidden
            (codes "Access to private/reserved IP address is forbidden: " ++ print_ip loopback) [],
        refl,
        refl,
      )

default_nonempty : (p : Protocol) → is_empty (endpoint_default p) ≡ false
unfolding endpoint_default
default_nonempty Protocol.tcp = refl
default_nonempty Protocol.http = refl
default_nonempty Protocol.smtp = refl

resolved_default :
    (vars : Vars) (p : Protocol) (asked_at : ℕ) (data' : Bytes)
    → vars (endpoint_env p) ≡ none
    → (build_resolver vars p).0.resolve asked_at data' ≡ ok (new_result (endpoint_default p))
unfolding build_resolver env_string fixed_resolver new_fixed new_result
resolved_default vars p asked_at data' unset = rw (unset, env_string) refl

-- The resolver's answer where no endpoint is set.
asked_default :
    {S : Type 0} (vars : Vars) (p : Protocol) (asked_at : ℕ) (a : Adapter S) (data' : Bytes)
    → vars (endpoint_env p) ≡ none
    → a.resolver ≡ some (build_resolver vars p).0
    → a.on_resolve ≡ none
    → ask asked_at a data' ≡ ok (new_result (endpoint_default p))
asked_default vars p asked_at a data' unset r c =
    ask-resolver asked_at a data' (build_resolver vars p).0 c r
    ∙ resolved_default vars p asked_at data' unset

module _ (C : CacheApi Bytes CacheEntry) (D : CacheApi Bytes IpAddr) where
  -- Where no endpoint is set, the resolver answers a port of the local host; an adapter that asks it, validates
  -- endpoints and has none cached for a client's data refuses that, whatever the data.
  pub route-default :
      (env : RouteEnv) (vars : Vars) (p : Protocol) (a : Adapter C.Store) (dns : DnsState D.Store)
      (data' : Bytes)
      → vars (endpoint_env p) ≡ none
      → a.resolver ≡ some (build_resolver vars p).0
      → a.on_resolve ≡ none
      → a.skip_validation ≡ false
      → cached C D env a data' ≡ none
      → (e : ResolverError) × ((route C D env a dns data').0 ≡ err e) × (code e ≡ forbidden_code)
  unfolding new_result
  route-default env vars p a dns data' unset r c v m =
      let (e, refused, code_of) = validate-default D env.dns p dns in
      (
        e,
        route-refused C D env a dns data' (new_result (endpoint_default p)) e m
            (asked_default vars p env.asked_at a data' unset r c) (default_nonempty p) v refused,
        code_of,
      )
