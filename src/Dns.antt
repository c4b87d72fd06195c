-- ===== src/Dns.antt =====
-- rust/crates/utopia-proxy/src/dns.rs: resolving a host name, with a cache of addresses.
-- The cache is `moka`'s and the lookups are `hickory`'s: both are arguments. The lazily built cache is
-- an `Option`, built at its first use from the lifetime that is set then.
pub mod Strict
pub mod Lifetime
use protocol_proxy.Resolver.{Duration}
use protocol_proxy.Net.{IpAddr, parse_ip, print_ip, v4, v6}
use protocol_proxy.Prelude.{
  List, ℕ, Bytes, none, Result, Option, Bool, some, ◌*◌, if◌then◌else◌, is_empty, is_some, err, ok,
  ◌∷◌, true, false, [],
}
use protocol_proxy.External.{CacheApi}

-- What one lookup gives within its time limit.
pub data Lookup : Type 0 where
  addresses : List IpAddr → Lookup
  failed timed_out : Lookup

-- What a call meets: the times at which it reads and writes the cache, whether the resolver could be
-- built, and what a lookup gives.
pub record DnsEnv : Type 0 where
  pub read_at : ℕ
  pub written_at : ℕ
  pub resolver : Result Bytes (Unit {0})
  pub lookup_ip : Bytes → Duration → Lookup

pub data DnsError : Type 0 where
  not_resolvable : Bytes → DnsError
  lookup_timeout : DnsError
  resolver_init : Bytes → DnsError

pub record DnsState (S : Type 0) : Type 0 where
  pub ttl_seconds : ℕ
  pub cache : Option S

abbrev pub nanos_per_second : ℕ
nanos_per_second = 1_000_000_000

module _ {S : Type 0} where
  abbrev pub initial_dns : DnsState S
  initial_dns = record { ttl_seconds = 60; cache = none }

  unfoldable pub set_ttl : ℕ → DnsState S → DnsState S
  set_ttl seconds s = record s { ttl_seconds = seconds }

  unfoldable pub ttl : DnsState S → ℕ
  ttl s = s.ttl_seconds

abbrev is_ipv4 : IpAddr → Bool
is_ipv4 (v4 ip) = true
is_ipv4 (v6 ip) = false

find_ipv4 : List IpAddr → Option IpAddr
find_ipv4 [] = none
find_ipv4 (ip ∷ ips) = if is_ipv4 ip then some ip else find_ipv4 ips

abbrev first : List IpAddr → Option IpAddr
first [] = none
first (ip ∷ ips) = some ip

-- The first IPv4 address, or else the first address.
unfoldable pub choose : List IpAddr → Option IpAddr
unfolding find_ipv4
choose ips = elim (find_ipv4 ips) [ some ip ↦ some ip | none ↦ first ips ]

module _ (C : CacheApi Bytes IpAddr) where
  -- `CACHE`, built when it is first used.
  unfoldable pub force : DnsState C.Store → C.Store
  force s = elim s.cache [ some c ↦ c | none ↦ C.build 10_000 (s.ttl_seconds * nanos_per_second) ]

  abbrev pub touch : DnsState C.Store → DnsState C.Store
  touch s = record s { cache = some (force s) }

  abbrev store : DnsEnv → Bytes → IpAddr → DnsState C.Store → DnsState C.Store
  store env host ip s = record s { cache = some (C.insert env.written_at host ip (force s)) }

  unfoldable pub clear : DnsState C.Store → DnsState C.Store
  clear s = record s { cache = some (C.invalidate_all (force s)) }

  -- The part behind the cache miss.
  look_up : DnsEnv → Bytes → Duration → DnsState C.Store → Bytes × DnsState C.Store
  look_up env host limit s = elim env.resolver [
    | err e ↦ (host, s)
    | ok _ ↦ elim (env.lookup_ip host limit) [
      | addresses ips ↦ elim (choose ips) [
        | none ↦ (host, s)
        | some ip ↦ (print_ip ip, store env host ip s)
      ]
      | _ ↦ (host, s)
    ]
  ]

  unfoldable pub resolve : DnsEnv → Bytes → Duration → DnsState C.Store → Bytes × DnsState C.Store
  unfolding look_up
  resolve env host limit s =
      if is_empty host
      then (host, s)
      else if is_some (parse_ip host)
      then (host, s)
      else elim (C.get env.read_at host (force s)) [
        | some ip ↦ (print_ip ip, touch s)
        | none ↦ look_up env host limit (touch s)
      ]

  look_up_strict :
      DnsEnv → Bytes → Duration → DnsState C.Store → Result DnsError IpAddr × DnsState C.Store
  look_up_strict env host limit s = elim env.resolver [
    | err e ↦ (err (resolver_init e), s)
    | ok _ ↦ elim (env.lookup_ip host limit) [
      | addresses ips ↦ elim (choose ips) [
        | none ↦ (err (not_resolvable host), s)
        | some ip ↦ (ok ip, store env host ip s)
      ]
      | failed ↦ (err (not_resolvable host), s)
      | timed_out ↦ (err lookup_timeout, s)
    ]
  ]

  unfoldable pub resolve_strict :
      DnsEnv → Bytes → Duration → DnsState C.Store → Result DnsError IpAddr × DnsState C.Store
  unfolding look_up_strict
  resolve_strict env host limit s =
      if is_empty host then (err (not_resolvable host), s) else elim (parse_ip host) [
        | some ip ↦ (ok ip, s)
        | none ↦ elim (C.get env.read_at host (force s)) [
          | some ip ↦ (ok ip, touch s)
          | none ↦ look_up_strict env host limit (touch s)
        ]
      ]
