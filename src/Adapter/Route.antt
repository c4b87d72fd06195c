-- ===== src/Adapter/Route.antt =====
-- `Adapter` of rust/crates/utopia-proxy/src/adapter/mod.rs: its state, its setters, `validate` and `route`.
-- One call runs at a time; the resolver, the callback, the clock and the lookups are arguments.
pub mod Validated
pub mod Safety
pub mod Cached
pub mod Refused
use protocol_proxy.Text.Utf8.{from_utf8_lossy}
use protocol_proxy.Adapter.Blocked.{is_blocked_ip}
use protocol_proxy.Adapter.Endpoint.{endpoint_parts, endpoint_text}
use protocol_proxy.Protocol.{Protocol}
use protocol_proxy.Dns.{DnsEnv, DnsState, nanos_per_second, resolve}
use protocol_proxy.Net.{IpAddr, parse_ip, print_ip}
use protocol_proxy.Resolver.{
  Duration, Resolver, ResolverError, Metadata, ResolverResult, ConnectionResult,
  new_connection_result,
}
use protocol_proxy.Prelude.{
  [], none, some, false, ok, err, Bytes, Option, ℕ, Bool, Result, ◌*◌, if◌then◌else◌, codes, ◌==◌,
  ◌++◌, ltb, is_empty, ◌-◌, insert,
}
use protocol_proxy.External.{CacheApi}
use protocol_proxy.Resolver.New
use protocol_proxy.Prelude.{bytes_eq}

pub record CacheEntry : Type 0 where
  pub endpoint : Bytes
  pub inserted_at : ℕ

-- `OnResolveFn`: `none` leaves the answer to the resolver. The first argument tells the calls apart, as a resolver's.
abbrev pub OnResolveFn : Type 0
OnResolveFn = ℕ → Bytes → Option (Result ResolverError ResolverResult)

pub record Adapter (S : Type 0) : Type 0 where
  pub resolver : Option Resolver
  pub protocol : Protocol
  pub cache : S
  pub cache_ttl : Duration
  pub skip_validation : Bool
  pub on_resolve : Option OnResolveFn

-- What a call of `route` meets besides the state: the time of the cache's read and of its write, what tells the
-- resolver's calls apart, and the DNS side.
pub record RouteEnv : Type 0 where
  pub asked_at : ℕ
  pub read_at : ℕ
  pub inserted_at : ℕ
  pub dns : DnsEnv

abbrev pub dns_timeout : Duration
dns_timeout = 1_000_000_000

abbrev pub cache_capacity : ℕ
cache_capacity = 10_000

module _ {S : Type 0} where
  unfoldable pub set_on_resolve : OnResolveFn → Adapter S → Adapter S
  set_on_resolve callback a = record a { on_resolve = some callback }

  unfoldable pub set_skip_validation : Bool → Adapter S → Adapter S
  set_skip_validation skip a = record a { skip_validation = skip }

  unfoldable pub set_cache_ttl : ℕ → Adapter S → Adapter S
  set_cache_ttl seconds a = record a { cache_ttl = seconds * nanos_per_second }

  resolve_via_resolver : ℕ → Adapter S → Bytes → Result ResolverError ResolverResult
  resolve_via_resolver asked_at a data' = elim a.resolver [
    | some r ↦ r.resolve asked_at data'
    | none ↦ err (New.not_found (codes "No resolver or resolve callback configured"))
  ]

  -- The callback's answer, or else the resolver's.
  unfoldable pub ask : ℕ → Adapter S → Bytes → Result ResolverError ResolverResult
  unfolding resolve_via_resolver
  ask asked_at a data' = elim a.on_resolve [
    | some callback ↦ elim (callback asked_at data') [
      | some r ↦ r
      | none ↦ resolve_via_resolver asked_at a data'
    ]
    | none ↦ resolve_via_resolver asked_at a data'
  ]

abbrev unresolved : Bytes → ResolverError
unresolved host = New.internal (codes "Cannot resolve hostname: " ++ host)

abbrev refused : IpAddr → ResolverError
refused ip =
    New.forbidden (codes "Access to private/reserved IP address is forbidden: " ++ print_ip ip)

abbrev empty_endpoint : Bytes → ResolverError
empty_endpoint data' =
    New.not_found (codes "Resolver returned empty endpoint for: " ++ from_utf8_lossy data')

-- The address test of `validate`, on the text that resolving the host gave.
check_address : Bytes → Option ℕ → Bytes → Result ResolverError Bytes
check_address host port resolved = elim (parse_ip resolved) [
  | none ↦ err (unresolved host)
  | some ip ↦ if is_blocked_ip ip then err (refused ip) else ok (endpoint_text (print_ip ip) port)
]

module _ (D : CacheApi Bytes IpAddr) where
  unfoldable pub validate :
      DnsEnv → Bytes → DnsState D.Store → Result ResolverError Bytes × DnsState D.Store
  unfolding check_address
  validate env endpoint dns = elim (endpoint_parts endpoint) [
    | err e ↦ (err e, dns)
    | ok (host, port) ↦
        let (resolved, dns) = resolve D env host dns_timeout dns in
        (check_address host port resolved, dns)
  ]

module _ (C : CacheApi Bytes CacheEntry) (D : CacheApi Bytes IpAddr) where
  unfoldable pub new : Option Resolver → Protocol → Adapter C.Store
  new resolver protocol = record {
    resolver = resolver;
    protocol = protocol;
    cache = C.build cache_capacity (3600 * nanos_per_second);
    cache_ttl = 0;
    skip_validation = false;
    on_resolve = none;
  }

  -- The cached endpoint, if routing is cached and the entry is younger than the lifetime.
  unfoldable pub cached : RouteEnv → Adapter C.Store → Bytes → Option Bytes
  cached env a data' = if a.cache_ttl == 0 then none else elim (C.get env.read_at data' a.cache) [
    | none ↦ none
    | some entry ↦
        if ltb (env.read_at - entry.inserted_at) a.cache_ttl then some entry.endpoint else none
  ]

  remember : RouteEnv → Bytes → Bytes → Adapter C.Store → Adapter C.Store
  remember env data' endpoint a = if a.cache_ttl == 0 then a else record a {
    cache =
        C.insert env.inserted_at data'
          (record { endpoint = endpoint; inserted_at = env.inserted_at }) a.cache;
  }

  -- The endpoint as it stands, or as `validate` returns it.
  checked :
      RouteEnv
      → Adapter C.Store
      → Bytes
      → DnsState D.Store
      → Result ResolverError Bytes × DnsState D.Store
  checked env a endpoint dns =
      if a.skip_validation then (ok endpoint, dns) else validate D env.dns endpoint dns

  abbrev finish :
      RouteEnv
      → Adapter C.Store
      → Bytes
      → Metadata
      → Result ResolverError Bytes × DnsState D.Store
      → Result ResolverError ConnectionResult × Adapter C.Store × DnsState D.Store
  finish env a data' metadata (err e, dns) = (err e, a, dns)
  finish env a data' metadata (ok endpoint, dns) = (
    ok (
        new_connection_result endpoint a.protocol
          (insert (codes "cached") (codes "false") metadata)),
    remember env data' endpoint a,
    dns,
  )

  route_fresh :
      RouteEnv
      → Adapter C.Store
      → DnsState D.Store
      → Bytes
      → Result ResolverError ConnectionResult × Adapter C.Store × DnsState D.Store
  unfolding checked remember
  route_fresh env a dns data' = elim (ask env.asked_at a data') [
    | err e ↦ (err e, a, dns)
    | ok result ↦
        if is_empty result.endpoint
        then (err (empty_endpoint data'), a, dns)
        else finish env a data' result.metadata (checked env a result.endpoint dns)
  ]

  unfoldable pub route :
      RouteEnv
      → Adapter C.Store
      → DnsState D.Store
      → Bytes
      → Result ResolverError ConnectionResult × Adapter C.Store × DnsState D.Store
  unfolding route_fresh
  route env a dns data' = elim (cached env a data') [
    | some endpoint ↦ (
      ok (new_connection_result endpoint a.protocol (insert (codes "cached") (codes "true") [])),
      a,
      dns,
    )
    | none ↦ route_fresh env a dns data'
  ]
