-- ===== src/Adapter/Route/Refused.antt =====
-- What `route` of rust/crates/utopia-proxy/src/adapter/mod.rs does with an endpoint that `validate` refuses.
use protocol_proxy.Dns.{DnsState}
use protocol_proxy.Resolver.{Metadata, ResolverError, ResolverResult, Resolver}
use protocol_proxy.Net.{IpAddr}
use protocol_proxy.Adapter.Route.{
  resolve_via_resolver, finish, checked, route_fresh, CacheEntry, RouteEnv, route, Adapter, cached,
  ask, validate,
}
use protocol_proxy.External.{CacheApi}
use protocol_proxy.Prelude.{
  none, false, ok, arith, ◌≡◌, ℕ, Bytes, Result, err, is_empty, some, refl,
}

-- Without a callback, the resolver is asked.
pub ask-resolver :
    {S : Type 0} (asked_at : ℕ) (a : Adapter S) (data' : Bytes) (r : Resolver)
    → a.on_resolve ≡ none
    → a.resolver ≡ some r
    → ask asked_at a data' ≡ r.resolve asked_at data'
unfolding ask resolve_via_resolver
ask-resolver asked_at a data' r c e = rw (c, ask, e) refl

module _ (C : CacheApi Bytes CacheEntry) (D : CacheApi Bytes IpAddr) where
  finish-err :
      (env : RouteEnv) (a : Adapter C.Store) (data' : Bytes) (metadata : Metadata)
      (out : Result ResolverError Bytes × DnsState D.Store) (e : ResolverError)
      → out.0 ≡ err e
      → (finish C D env a data' metadata out).0 ≡ err e
  finish-err env a data' metadata (err e', dns) e h = ground arith
  finish-err env a data' metadata (ok endpoint, dns) e h = absurd (cc)

  -- A fresh endpoint that is refused is not routed to.
  pub route-refused :
      (env : RouteEnv) (a : Adapter C.Store) (dns : DnsState D.Store) (data' : Bytes)
      (result : ResolverResult) (e : ResolverError)
      → cached C D env a data' ≡ none
      → ask env.asked_at a data' ≡ ok result
      → is_empty result.endpoint ≡ false
      → a.skip_validation ≡ false
      → (validate D env.dns result.endpoint dns).0 ≡ err e
      → (route C D env a dns data').0 ≡ err e
  unfolding route route_fresh checked
  route-refused env a dns data' result e miss asked some_endpoint validated failed =
      let out : (checked C D env a result.endpoint dns).0 ≡ err e =
        rw (validated, checked) failed in
      rw (miss, route, asked, route_fresh, some_endpoint)
        (finish-err env a data' result.metadata (checked C D env a result.endpoint dns) e out)
