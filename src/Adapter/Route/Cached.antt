-- ===== src/Adapter/Route/Cached.antt =====
-- The routing cache: what is kept of an answer, and for how long.
use protocol_proxy.Protocol.{Protocol}
use protocol_proxy.Dns.{DnsState}
use protocol_proxy.Resolver.{
  Metadata, new_connection_result, ResolverError, ConnectionResult, ResolverResult,
}
use protocol_proxy.Net.{IpAddr}
use protocol_proxy.External.{CacheApi, IsCache}
use protocol_proxy.Adapter.Route.{
  Adapter, CacheEntry, RouteEnv, route, route_fresh, cached, checked, remember, finish, ask,
  empty_endpoint,
}
use protocol_proxy.Prelude.{
  bytes_eq, [], none, some, ok, inl, inr, refl, Bytes, Result, ◌≡◌, err, Result-cases, ◌<◌,
  Option-cases, arith, ◌-◌, Bool-cases, insert, codes, is_empty, false, ◌∙◌, ◌⊎◌, ap,
}

module _ (C : CacheApi Bytes CacheEntry) (D : CacheApi Bytes IpAddr) where
  finish-err :
      (env : RouteEnv) (a : Adapter C.Store) (data' : Bytes) (metadata : Metadata)
      (found : Result ResolverError Bytes × DnsState D.Store) (e : ResolverError)
      → (finish C D env a data' metadata found).0 ≡ err e
      → (finish C D env a data' metadata found).1 ≡ a
  finish-err env a data' metadata (err f, dns) e h = refl
  finish-err env a data' metadata (ok text, dns) e h = cc

  route_miss :
      (env : RouteEnv) (a : Adapter C.Store) (dns : DnsState D.Store) (data' : Bytes)
      → cached C D env a data' ≡ none
      → route C D env a dns data' ≡ route_fresh C D env a dns data'
  unfolding route
  route_miss env a dns data' missing = rw (missing, route)

  route_hit :
      (env : RouteEnv) (a : Adapter C.Store) (dns : DnsState D.Store) (data' endpoint : Bytes)
      → cached C D env a data' ≡ some endpoint
      → route C D env a dns data' ≡ (
        ok (new_connection_result endpoint a.protocol (insert (codes "cached") (codes "true") [])),
        a,
        dns,
      )
  unfolding route
  route_hit env a dns data' endpoint found = rw (found, route)

  route_fresh_given :
      (env : RouteEnv) (a : Adapter C.Store) (dns : DnsState D.Store) (data' : Bytes)
      (result : ResolverResult)
      → ask env.asked_at a data' ≡ ok result
      → is_empty result.endpoint ≡ false
      → route_fresh C D env a dns data'
        ≡ finish C D env a data' result.metadata (checked C D env a result.endpoint dns)
  unfolding route_fresh
  route_fresh_given env a dns data' result answered given = rw (answered, given, route_fresh)

  -- A fresh answer is of a result with an endpoint; every other case fails and keeps the adapter.
  route_fresh_cases :
      (env : RouteEnv) (a : Adapter C.Store) (dns : DnsState D.Store) (data' : Bytes)
      → ((e : ResolverError) × (route_fresh C D env a dns data' ≡ (err e, a, dns)))
        ⊎ ((metadata : Metadata) × (found : Result ResolverError Bytes × DnsState D.Store)
            × (route_fresh C D env a dns data' ≡ finish C D env a data' metadata found))
  unfolding route_fresh
  route_fresh_cases env a dns data' = elim (Result-cases (ask env.asked_at a data')) [
    | inl (f, failed) ↦ inl (f, rw (failed, route_fresh))
    | inr (result, answered) ↦ elim (Bool-cases (is_empty result.endpoint)) [
      | inl nothing ↦ inl (empty_endpoint data', rw (answered, nothing, route_fresh))
      | inr given ↦ inr (_, _, route_fresh_given env a dns data' result answered given)
    ]
  ]

  -- A failed call leaves the adapter as it was: nothing is cached, and a cached answer is no failure.
  route-err :
      (env : RouteEnv) (a : Adapter C.Store) (dns : DnsState D.Store) (data' : Bytes)
      (e : ResolverError)
      → (route C D env a dns data').0 ≡ err e
      → ((route C D env a dns data').1 ≡ a) × (cached C D env a data' ≡ none)
  route-err env a dns data' e h = elim (Option-cases (cached C D env a data')) [
    | inr (endpoint, found) ↦ absurd (unfold route in ground arith)
    | inl missing ↦ elim (route_fresh_cases env a dns data') [
      | inl (f, failed) ↦ (rw (route_miss env a dns data' missing, failed), missing)
      | inr (metadata, found, given) ↦
          let same = route_miss env a dns data' missing ∙ given in
          (rw same (finish-err env a data' metadata found e (rw same at h)), missing)
    ]
  ]

  finish-remember :
      (env : RouteEnv) (a : Adapter C.Store) (data' : Bytes) (metadata : Metadata)
      (found : Result ResolverError Bytes × DnsState D.Store) (r : ConnectionResult)
      → (finish C D env a data' metadata found).0 ≡ ok r
      → (finish C D env a data' metadata found).1 ≡ remember C D env data' r.endpoint a
  unfolding new_connection_result
  finish-remember env a data' metadata (err f, dns) r h = cc
  finish-remember env a data' metadata (ok text, dns) r h = ground arith

  route-remember :
      (env : RouteEnv) (a : Adapter C.Store) (dns : DnsState D.Store) (data' : Bytes)
      (r : ConnectionResult)
      → cached C D env a data' ≡ none
      → (route C D env a dns data').0 ≡ ok r
      → (route C D env a dns data').1 ≡ remember C D env data' r.endpoint a
  route-remember env a dns data' r missing h = elim (route_fresh_cases env a dns data') [
    | inl (f, failed) ↦ cc (route_miss env a dns data' missing ∙ failed)
    | inr (metadata, found, given) ↦
        let same = route_miss env a dns data' missing ∙ given in
        rw same (finish-remember env a data' metadata found r (rw same at h))
  ]

  cached-remember :
      (laws : IsCache Bytes CacheEntry C) (env later : RouteEnv) (a : Adapter C.Store)
      (data' endpoint : Bytes) (entry : CacheEntry)
      → 0 < a.cache_ttl
      → C.get later.read_at data' (remember C D env data' endpoint a).cache ≡ some entry
      → later.read_at - env.inserted_at < a.cache_ttl
      → (cached C D later (remember C D env data' endpoint a) data' ≡ some endpoint)
        × ((remember C D env data' endpoint a).protocol ≡ a.protocol)
  unfolding cached remember
  cached-remember laws env later a data' endpoint entry on held young = ground (
    arith,
    laws.get-insert later.read_at env.inserted_at data' data'
        (record { endpoint = endpoint; inserted_at = env.inserted_at }) entry a.cache,
  )

  -- What a fresh answer left is given again, marked as cached and with no other effect, for as long as
  -- the cache holds the entry and less than the lifetime has passed since it was written.
  pub route_again :
      (laws : IsCache Bytes CacheEntry C) (env later : RouteEnv) (a : Adapter C.Store)
      (dns now : DnsState D.Store) (data' : Bytes) (r : ConnectionResult) (entry : CacheEntry)
      → cached C D env a data' ≡ none
      → (route C D env a dns data').0 ≡ ok r
      → 0 < a.cache_ttl
      → C.get later.read_at data' (route C D env a dns data').1.cache ≡ some entry
      → later.read_at - env.inserted_at < a.cache_ttl
      → route C D later (route C D env a dns data').1 now data' ≡ (
        ok (
            new_connection_result r.endpoint a.protocol
              (insert (codes "cached") (codes "true") [])),
        (route C D env a dns data').1,
        now,
      )
  route_again laws env later a dns now data' r entry missing h on held young =
      let kept = route-remember env a dns data' r missing h in
      let again =
        cached-remember laws env later a data' r.endpoint entry on (rw kept at held) young in
      rw kept (
        route_hit later _ now data' r.endpoint again.0
        ∙ ap
            (λ (p : Protocol). (
              ok (new_connection_result r.endpoint p (insert (codes "cached") (codes "true") [])),
              remember C D env data' r.endpoint a,
              now,
            ))
            again.1)
