-- ===== src/Adapter/Route/Safety.antt =====
-- No history of calls makes `route` answer an endpoint that was not validated.
use protocol_proxy.Protocol.{Protocol}
use protocol_proxy.Dns.{DnsState, set_ttl, clear}
use protocol_proxy.Resolver.{
  ConnectionResult, new_connection_result, ResolverError, Metadata, Resolver,
}
use protocol_proxy.Net.{IpAddr}
use protocol_proxy.Prelude.{
  some, inr, Bytes, ℕ, ◌≡◌, inl, subst, sym, [], ◌∷◌, false, ok, err, refl, Bool-cases, Result,
  Bool, List, Option, ◌==◌, Result-cases, Option-cases, arith, is_empty,
}
use protocol_proxy.External.{CacheApi, IsCache}
use protocol_proxy.Adapter.Route.{
  Adapter, CacheEntry, RouteEnv, OnResolveFn, route, route_fresh, cached, checked, remember, finish,
  new, ask, set_cache_ttl, set_on_resolve, set_skip_validation,
}
use protocol_proxy.Adapter.Route.Validated.{IsSafe, validate-IsSafe}

module _ (C : CacheApi Bytes CacheEntry) (D : CacheApi Bytes IpAddr)
    (laws : IsCache Bytes CacheEntry C) where
  -- Every entry that the cache can give is safe.
  abbrev pub IsCacheSafe : C.Store → Type 0
  IsCacheSafe s =
      (now : ℕ) (k : Bytes) (entry : CacheEntry)
      → C.get now k s ≡ some entry
      → IsSafe entry.endpoint

  insert-IsCacheSafe :
      (then' : ℕ) (k : Bytes) (entry : CacheEntry) (s : C.Store)
      → IsSafe entry.endpoint
      → IsCacheSafe s
      → IsCacheSafe (C.insert then' k entry s)
  insert-IsCacheSafe then' k entry s safe h now j found e =
      elim (laws.get-insert now then' k j entry found s e) [
        | inl (same, w) ↦ subst (λ (f : CacheEntry). IsSafe f.endpoint) (sym w) safe
        | inr (other, old) ↦ h now j found old
      ]

  pub build-IsCacheSafe : (capacity ttl : ℕ) → IsCacheSafe (C.build capacity ttl)
  build-IsCacheSafe capacity ttl now k entry e = cc (laws.get-build now capacity ttl k)

  cached-IsSafe :
      (env : RouteEnv) (a : Adapter C.Store) (data' endpoint : Bytes)
      → IsCacheSafe a.cache
      → cached C D env a data' ≡ some endpoint
      → IsSafe endpoint
  unfolding cached
  cached-IsSafe env a data' endpoint h e = elim (Bool-cases (a.cache_ttl == 0)) [
    | inl off ↦ absurd (ground arith)
    | inr on ↦ elim (Option-cases (C.get env.read_at data' a.cache)) [
      | inl missing ↦ absurd (ground arith)
      | inr (entry, found) ↦
          let same : entry.endpoint ≡ endpoint = ground arith in
          subst IsSafe same (h env.read_at data' entry found)
    ]
  ]

  remember-IsCacheSafe :
      (env : RouteEnv) (a : Adapter C.Store) (data' endpoint : Bytes)
      → IsSafe endpoint
      → IsCacheSafe a.cache
      → IsCacheSafe (remember C D env data' endpoint a).cache
  unfolding remember
  remember-IsCacheSafe env a data' endpoint safe h = elim (Bool-cases (a.cache_ttl == 0)) [
    | inl off ↦ rw (off, remember) h
    | inr on ↦ rw (on, remember) (insert-IsCacheSafe env.inserted_at data' _ a.cache safe h)
  ]

  abbrev pub Outcome : Type 0
  Outcome = Result ResolverError ConnectionResult × Adapter C.Store × DnsState D.Store

  -- An answer that is safe, and a state that stays so.
  pub record IsGood (out : Outcome) : Type 0 where
    pub answer : (r : ConnectionResult) → out.0 ≡ ok r → IsSafe r.endpoint
    pub cache : IsCacheSafe out.1.cache
    pub validating : out.1.skip_validation ≡ false

  finish-IsGood :
      (env : RouteEnv) (a : Adapter C.Store) (data' : Bytes) (metadata : Metadata)
      (found : Result ResolverError Bytes × DnsState D.Store)
      → IsCacheSafe a.cache
      → a.skip_validation ≡ false
      → ((text : Bytes) → found.0 ≡ ok text → IsSafe text)
      → IsGood (finish C D env a data' metadata found)
  unfolding new_connection_result remember
  finish-IsGood env a data' metadata (err e, dns) h v k = record {
    answer = λ r e. cc;
    cache = h;
    validating = v;
  }
  finish-IsGood env a data' metadata (ok text, dns) h v k = record {
    answer = λ r e. let same : text ≡ r.endpoint = ground arith in subst IsSafe same (k text refl);
    cache = remember-IsCacheSafe env a data' text (k text refl) h;
    validating = ground arith;
  }

  checked-IsSafe :
      (env : RouteEnv) (a : Adapter C.Store) (endpoint : Bytes) (dns : DnsState D.Store)
      → a.skip_validation ≡ false
      → (text : Bytes) → (checked C D env a endpoint dns).0 ≡ ok text
      → IsSafe text
  unfolding checked
  checked-IsSafe env a endpoint dns v text e =
      validate-IsSafe D env.dns endpoint text dns (rw (v, checked) at e)

  route_fresh-IsGood :
      (env : RouteEnv) (a : Adapter C.Store) (dns : DnsState D.Store) (data' : Bytes)
      → IsCacheSafe a.cache
      → a.skip_validation ≡ false
      → IsGood (route_fresh C D env a dns data')
  unfolding route_fresh
  route_fresh-IsGood env a dns data' h v = elim (Result-cases (ask env.asked_at a data')) [
    | inl (e, failed) ↦
        rw (failed, route_fresh) (record { answer = λ r e. cc; cache = h; validating = v })
    | inr (result, answered) ↦ elim (Bool-cases (is_empty result.endpoint)) [
      | inl nothing ↦
          rw (answered, nothing, route_fresh)
            (record { answer = λ r e. cc; cache = h; validating = v })
      | inr given ↦
          rw (answered, given, route_fresh)
            (finish-IsGood env a data' result.metadata (checked C D env a result.endpoint dns) h v
              (checked-IsSafe env a result.endpoint dns v))
    ]
  ]

  pub route-IsGood :
      (env : RouteEnv) (a : Adapter C.Store) (dns : DnsState D.Store) (data' : Bytes)
      → IsCacheSafe a.cache
      → a.skip_validation ≡ false
      → IsGood (route C D env a dns data')
  unfolding route new_connection_result
  route-IsGood env a dns data' h v = elim (Option-cases (cached C D env a data')) [
    | inl missing ↦ rw (missing, route) (route_fresh-IsGood env a dns data' h v)
    | inr (endpoint, found) ↦
        rw (found, route)
          (record {
            answer = λ r e.
                let same : endpoint ≡ r.endpoint = ground arith in
                subst IsSafe same (cached-IsSafe env a data' endpoint h found);
            cache = h;
            validating = v;
          })
  ]

  -- A call on an adapter and the DNS state that it shares.
  pub data Call : Type 0 where
    routes : RouteEnv → Bytes → Call
    sets_cache_ttl : ℕ → Call
    sets_on_resolve : OnResolveFn → Call
    sets_skip_validation : Bool → Call
    sets_ttl : ℕ → Call
    clears_dns : Call

  unfoldable pub step :
      Adapter C.Store × DnsState D.Store → Call → Adapter C.Store × DnsState D.Store
  step (a, dns) (routes env data') = let out = route C D env a dns data' in (out.1, out.2)
  step (a, dns) (sets_cache_ttl seconds) = (set_cache_ttl seconds a, dns)
  step (a, dns) (sets_on_resolve callback) = (set_on_resolve callback a, dns)
  step (a, dns) (sets_skip_validation skip) = (set_skip_validation skip a, dns)
  step (a, dns) (sets_ttl seconds) = (a, set_ttl seconds dns)
  step (a, dns) clears_dns = (a, clear D dns)

  unfoldable pub run :
      Adapter C.Store × DnsState D.Store → List Call → Adapter C.Store × DnsState D.Store
  run s [] = s
  run s (c ∷ cs) = run (step s c) cs

  -- No call switches validation off.
  abbrev pub KeepsValidation : List Call → Type 0
  KeepsValidation [] = Unit {0}
  KeepsValidation (sets_skip_validation skip ∷ cs) = (skip ≡ false) × KeepsValidation cs
  KeepsValidation (c ∷ cs) = KeepsValidation cs

  abbrev pub IsSound : Adapter C.Store × DnsState D.Store → Type 0
  IsSound (a, dns) = IsCacheSafe a.cache × (a.skip_validation ≡ false)

  pub run-IsSound :
      (a : Adapter C.Store) (dns : DnsState D.Store) (cs : List Call)
      → IsSound (a, dns)
      → KeepsValidation cs
      → IsSound (run (a, dns) cs)
  unfolding run step set_cache_ttl set_on_resolve set_skip_validation
  run-IsSound a dns [] h k = h
  run-IsSound a dns (routes env data' ∷ cs) h k =
      let good = route-IsGood env a dns data' h.0 h.1 in
      run-IsSound _ _ cs (good.cache, good.validating) k
  run-IsSound a dns (sets_cache_ttl seconds ∷ cs) h k =
      run-IsSound (set_cache_ttl seconds a) dns cs h k
  run-IsSound a dns (sets_on_resolve callback ∷ cs) h k =
      run-IsSound (set_on_resolve callback a) dns cs h k
  run-IsSound a dns (sets_skip_validation skip ∷ cs) h k =
      run-IsSound (set_skip_validation skip a) dns cs (h.0, k.0) k.1
  run-IsSound a dns (sets_ttl seconds ∷ cs) h k = run-IsSound a (set_ttl seconds dns) cs h k
  run-IsSound a dns (clears_dns ∷ cs) h k = run-IsSound a (clear D dns) cs h k

  -- Whatever the resolver, the callbacks, the host names' addresses and the history of calls: while no
  -- call switches validation off, an endpoint that `route` answers is the text of an address outside
  -- the refused ranges, with a port from 1 to 65535 or none.
  pub route-IsSafe :
      (resolver : Option Resolver) (protocol : Protocol) (dns : DnsState D.Store) (cs : List Call)
      (env : RouteEnv) (data' : Bytes) (r : ConnectionResult)
      → KeepsValidation cs
      → (let s = run (new C D resolver protocol, dns) cs in (route C D env s.0 s.1 data').0 ≡ ok r)
      → IsSafe r.endpoint
  unfolding new
  route-IsSafe resolver protocol dns cs env data' r k e =
      let start : IsSound (new C D resolver protocol, dns) = (build-IsCacheSafe _ _, refl) in
      let sound = run-IsSound (new C D resolver protocol) dns cs start k in
      (route-IsGood env _ _ data' sound.0 sound.1).answer r e
