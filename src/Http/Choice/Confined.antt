-- ===== src/Http/Choice/Confined.antt =====
-- Which endpoints `handle` of rust/crates/utopia-proxy/src/server/http/handler.rs forwards to.
use protocol_proxy.Dns.{DnsState}
use protocol_proxy.Adapter.Endpoint.{parse_endpoint}
use protocol_proxy.Resolver.{ProxyError, ResolverError, ConnectionResult}
use protocol_proxy.Adapter.Route.Validated.{IsSafe}
use protocol_proxy.Http.Forward.{Request, Response, forward_request, is_get_or_head}
use protocol_proxy.Adapter.Route.Safety.{IsSound, Outcome, IsGood, route-IsGood}
use protocol_proxy.Http.Config.{HttpConfig}
use protocol_proxy.Http.Pool.{Pool}
use protocol_proxy.Net.{IpAddr}
use protocol_proxy.Adapter.Route.{CacheEntry, route, Adapter}
use protocol_proxy.External.{CacheApi, MapApi, IsCache, IsMap}
use protocol_proxy.Http.Choice.{
  handle, choose_endpoint, routed_endpoint, forwarded, answered_over, answer_endpoint, Handler,
  RequestEnv, extract_host, host_header,
}
use protocol_proxy.Http.Forward.Confined.{MayDial, AreConfined, forward_request-AreConfined}
use protocol_proxy.Http.Raw.{forward_raw_request, raw_exchange}
use protocol_proxy.Prelude.{
  bytes_eq, some, ok, err, inl, inr, refl, Option-cases, Result-cases, arith, ◌≡◌, subst, Bytes,
  Result, none, Bool-cases, sym, ◌⊎◌, Option, true, false, if◌then◌else◌, Bool, ◌∙◌, ap,
}

module _ (C : CacheApi Bytes CacheEntry) (D : CacheApi Bytes IpAddr) (M : MapApi Bytes Pool) where
  routed_endpoint-pools :
      (h : Handler C D M)
      (out : Result ResolverError ConnectionResult × Adapter C.Store × DnsState D.Store)
      → (routed_endpoint C D M h out).1.pools ≡ h.pools
  routed_endpoint-pools h (err e, a, dns) = refl
  routed_endpoint-pools h (ok r, a, dns) = refl

module _ (C : CacheApi Bytes CacheEntry) (D : CacheApi Bytes IpAddr) (M : MapApi Bytes Pool)
    (config : HttpConfig) where
  pub choose_endpoint-fixed :
      (env : RequestEnv) (request : Request) (h : Handler C D M) (endpoint : Bytes)
      → config.fixed_backend ≡ some endpoint
      → choose_endpoint C D M config env request h ≡ (ok endpoint, h)
  unfolding choose_endpoint
  choose_endpoint-fixed env request h endpoint fixed = rw (fixed, choose_endpoint) refl

  pub choose_endpoint-refused :
      (env : RequestEnv) (request : Request) (h : Handler C D M) (response : Response)
      → config.fixed_backend ≡ none
      → extract_host (host_header env request) ≡ err response
      → choose_endpoint C D M config env request h ≡ (err response, h)
  unfolding choose_endpoint
  choose_endpoint-refused env request h response free refused =
      rw (free, choose_endpoint, refused) refl

  pub choose_endpoint-routed :
      (env : RequestEnv) (request : Request) (h : Handler C D M) (host : Bytes)
      → config.fixed_backend ≡ none
      → extract_host (host_header env request) ≡ ok host
      → choose_endpoint C D M config env request h
        ≡ routed_endpoint C D M h (route C D env.route h.adapter h.dns host)
  unfolding choose_endpoint
  choose_endpoint-routed env request h host free given = rw (free, choose_endpoint, given) refl

  -- The choice of an endpoint leaves the pools.
  pub choose_endpoint-pools :
      (env : RequestEnv) (request : Request) (h : Handler C D M)
      → (choose_endpoint C D M config env request h).1.pools ≡ h.pools
  choose_endpoint-pools env request h = elim (Option-cases config.fixed_backend) [
    | inr (endpoint, fixed) ↦
        ap (λ out. out.1.pools) (choose_endpoint-fixed env request h endpoint fixed)
    | inl free ↦ elim (Result-cases (extract_host (host_header env request))) [
      | inl (response, refused) ↦
          ap (λ out. out.1.pools) (choose_endpoint-refused env request h response free refused)
      | inr (host, given) ↦
          ap (λ out. out.1.pools) (choose_endpoint-routed env request h host free given)
          ∙ routed_endpoint-pools C D M h (route C D env.route h.adapter h.dns host)
    ]
  ]

module _ (C : CacheApi Bytes CacheEntry) (D : CacheApi Bytes IpAddr) (M : MapApi Bytes Pool)
    (laws : IsCache Bytes CacheEntry C) (map_laws : IsMap Bytes Pool M) (config : HttpConfig) where
  -- A worker whose adapter validates and has only safe endpoints in its cache, and whose pools dial only endpoints that
  -- may be dialed.
  pub record IsConfined (h : Handler C D M) : Type 0 where
    pub sound : IsSound C D laws (h.adapter, h.dns)
    pub pools : AreConfined M map_laws config h.pools

  -- The worker stays so, and an endpoint may be dialed.
  abbrev pub IsChosen : Result Response Bytes × Handler C D M → Type 0
  IsChosen out =
      IsConfined out.1 × ((endpoint : Bytes) → out.0 ≡ ok endpoint → MayDial config endpoint)

  routed_endpoint-IsChosen :
      (h : Handler C D M) (out : Outcome C D laws)
      → IsGood C D laws out
      → IsConfined h
      → IsChosen (routed_endpoint C D M h out)
  routed_endpoint-IsChosen h (err e, a, dns) good c =
      (record { sound = (good.cache, good.validating); pools = c.pools }, λ endpoint e. cc)
  routed_endpoint-IsChosen h (ok r, a, dns) good c = (
    record { sound = (good.cache, good.validating); pools = c.pools },
    λ endpoint e. inr (subst IsSafe (ground arith) (good.answer r refl)),
  )

  pub choose_endpoint-IsChosen :
      (env : RequestEnv) (request : Request) (h : Handler C D M)
      → IsConfined h
      → IsChosen (choose_endpoint C D M config env request h)
  choose_endpoint-IsChosen env request h c = elim (Option-cases config.fixed_backend) [
    | inr (endpoint, fixed) ↦
        subst IsChosen (sym (choose_endpoint-fixed C D M config env request h endpoint fixed))
          (c, λ e same. inl (ground arith))
    | inl free ↦ elim (Result-cases (extract_host (host_header env request))) [
      | inl (response, refused) ↦
          subst IsChosen
            (sym (choose_endpoint-refused C D M config env request h response free refused))
            (c, λ endpoint e. cc)
      | inr (host, given) ↦
          subst IsChosen (sym (choose_endpoint-routed C D M config env request h host free given)) (
            routed_endpoint-IsChosen h (route C D env.route h.adapter h.dns host)
              (route-IsGood C D laws env.route h.adapter h.dns host c.sound.0 c.sound.1) c)
    ]
  ]

  -- A forward over a connection of its own leaves the pools.
  forward_raw_request-pools :
      (env : RequestEnv) (request : Request) (endpoint : Bytes) (m m' : M.Map)
      (r : Result ProxyError Response)
      → forward_raw_request M config env.backend env.raw request endpoint m ≡ some (r, m')
      → (m' ≡ m) ⊎ (m' ≡ (forward_request M config env.backend request endpoint m).1)
  unfolding forward_raw_request
  forward_raw_request-pools env request endpoint m m' r e =
      let target = parse_endpoint endpoint 80 in
      elim (Bool-cases (is_get_or_head request.method)) [
        | inr pooled ↦ inr (ground (arith, pooled))
        | inl raw ↦ elim (Option-cases (raw_exchange config env.raw request target.0 target.1)) [
          | inl waits ↦ absurd (ground (arith, raw, waits))
          | inr (out, done) ↦ inl (ground (arith, raw, done))
        ]
      ]

  forward_raw_request-AreConfined :
      (env : RequestEnv) (request : Request) (endpoint : Bytes) (m m' : M.Map)
      (r : Result ProxyError Response)
      → MayDial config endpoint
      → AreConfined M map_laws config m
      → forward_raw_request M config env.backend env.raw request endpoint m ≡ some (r, m')
      → AreConfined M map_laws config m'
  forward_raw_request-AreConfined env request endpoint m m' r may c e =
      elim (forward_raw_request-pools env request endpoint m m' r e) [
        | inl same ↦ subst (AreConfined M map_laws config) (sym same) c
        | inr pooled ↦
            subst (AreConfined M map_laws config) (sym pooled)
              (forward_request-AreConfined M map_laws config env.backend request endpoint m may c)
      ]

  answered_over-IsConfined :
      (h h' : Handler C D M) (out : Option (Result ProxyError Response × M.Map))
      (response : Response)
      → IsConfined h
      → ((r : Result ProxyError Response) (m : M.Map)
          → out ≡ some (r, m)
          → AreConfined M map_laws config m)
      → answered_over C D M h out ≡ some (response, h')
      → IsConfined h'
  answered_over-IsConfined h h' none response c k e = cc
  answered_over-IsConfined h h' (some (r, m)) response c k e =
      let next = record h { pools = m } in
      let same : next ≡ h' = ground arith in
      subst IsConfined same (record { sound = c.sound; pools = k r m refl })

  either-AreConfined :
      (raw : Bool) (env : RequestEnv) (request : Request) (endpoint : Bytes) (m m' : M.Map)
      (r : Result ProxyError Response)
      → MayDial config endpoint
      → AreConfined M map_laws config m
      → (if raw
          then forward_raw_request M config env.backend env.raw request endpoint m
          else some (forward_request M config env.backend request endpoint m))
        ≡ some (r, m')
      → AreConfined M map_laws config m'
  either-AreConfined true env request endpoint m m' r may c e =
      forward_raw_request-AreConfined env request endpoint m m' r may c e
  either-AreConfined false env request endpoint m m' r may c e =
      subst (AreConfined M map_laws config) (ground arith)
        (forward_request-AreConfined M map_laws config env.backend request endpoint m may c)

  forwarded-IsConfined :
      (env : RequestEnv) (request : Request) (endpoint : Bytes) (h h' : Handler C D M)
      (response : Response)
      → MayDial config endpoint
      → IsConfined h
      → forwarded C D M config env request endpoint h ≡ some (response, h')
      → IsConfined h'
  unfolding forwarded
  forwarded-IsConfined env request endpoint h h' response may c e =
      answered_over-IsConfined h h'
        (if config.raw_backend
          then forward_raw_request M config env.backend env.raw request endpoint h.pools
          else some (forward_request M config env.backend request endpoint h.pools))
        response c
        (λ r m. either-AreConfined config.raw_backend env request endpoint h.pools m r may c.pools)
        e

  answer_endpoint-IsConfined :
      (env : RequestEnv) (request : Request) (out : Result Response Bytes × Handler C D M)
      (response : Response) (h' : Handler C D M)
      → IsChosen out
      → answer_endpoint C D M config env request out ≡ some (response, h')
      → IsConfined h'
  answer_endpoint-IsConfined env request (err answer, h) response h' c e =
      subst IsConfined (ground arith) c.0
  answer_endpoint-IsConfined env request (ok endpoint, h) response h' c e =
      forwarded-IsConfined env request endpoint h h' response (c.1 endpoint refl) c.0 e

  pub handle-IsConfined :
      (env : RequestEnv) (request : Request) (h : Handler C D M) (response : Response)
      (h' : Handler C D M)
      → IsConfined h
      → handle C D M config env request h ≡ some (response, h')
      → IsConfined h'
  unfolding handle
  handle-IsConfined env request h response h' c e = elim (Option-cases config.request_handler) [
    | inr (custom, given) ↦ subst IsConfined (ground (arith, given)) c
    | inl none_given ↦ elim (Option-cases config.direct_response) [
      | inr (body, direct) ↦ subst IsConfined (ground (arith, none_given, direct)) c
      | inl forwards ↦
          answer_endpoint-IsConfined env request (choose_endpoint C D M config env request h)
            response h' (choose_endpoint-IsChosen env request h c)
            (rw (none_given, handle, forwards) at e)
    ]
  ]
