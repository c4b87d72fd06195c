-- ===== src/Http/Server/Confined.antt =====
-- Where the requests that an HTTP worker serves, one after another, can be forwarded to.
use protocol_proxy.Adapter.Route.Safety.{build-IsCacheSafe}
use protocol_proxy.Protocol.{http}
use protocol_proxy.Dns.{DnsState, nanos_per_second}
use protocol_proxy.Resolver.{Resolver}
use protocol_proxy.Http.Forward.{Request, Response}
use protocol_proxy.Http.Config.{HttpConfig}
use protocol_proxy.Http.Pool.{Pool}
use protocol_proxy.Net.{IpAddr}
use protocol_proxy.Adapter.Route.{CacheEntry, new, set_cache_ttl, cache_capacity}
use protocol_proxy.External.{CacheApi, MapApi, IsCache, IsMap}
use protocol_proxy.Http.Choice.{handle, choose_endpoint, new_handler, Handler, RequestEnv}
use protocol_proxy.Http.Choice.Confined.{IsConfined, handle-IsConfined, choose_endpoint-IsChosen}
use protocol_proxy.Http.Forward.Confined.{MayDial, AreConfined}
use protocol_proxy.Http.Server.{run_worker, serve_requests, Hook}
use protocol_proxy.Prelude.{
  bytes_eq, [], ◌∷◌, none, some, false, ok, inl, inr, Option-cases, arith, ℕ, ◌≡◌, subst, Bytes,
  List, Option, refl, sym, ◌*◌,
}

module _ (C : CacheApi Bytes CacheEntry) (D : CacheApi Bytes IpAddr) (M : MapApi Bytes Pool)
    (laws : IsCache Bytes CacheEntry C) (map_laws : IsMap Bytes Pool M) (config : HttpConfig) where
  requests-IsConfined :
      (requests : List (RequestEnv × Request)) (responses : List Response) (h h' : Handler C D M)
      → IsConfined C D M laws map_laws config h
      → serve_requests C D M config requests h ≡ some (responses, h')
      → IsConfined C D M laws map_laws config h'
  unfolding serve_requests
  requests-IsConfined [] responses h h' c e =
      subst (IsConfined C D M laws map_laws config) (ground arith) c
  requests-IsConfined ((env, request) ∷ rest) responses h h' c e =
      elim (Option-cases (handle C D M config env request h)) [
        | inl waits ↦ absurd (ground (arith, waits))
        | inr ((response, next), done) ↦
            let served =
              handle-IsConfined C D M laws map_laws config env request h response next c done in
            elim (Option-cases (serve_requests C D M config rest next)) [
              | inl waits ↦ absurd (ground (arith, done, waits))
              | inr ((more, last), went) ↦
                  let same : last ≡ h' = ground (arith, done, went) in
                  requests-IsConfined rest more next h' served (ground arith)
            ]
      ]

  -- A worker that validates and whose adapter no start hook changes.
  pub record IsPlain : Type 0 where
    pub no_hook : config.worker_start ≡ none
    pub validates : config.skip_validation ≡ false

  run_worker-plain :
      (hook : Hook C D M) (resolver : Option Resolver) (dns : DnsState D.Store) (worker_id : ℕ)
      → IsPlain
      → run_worker C D M config hook resolver dns worker_id
        ≡ new_handler C D M (set_cache_ttl config.cache_ttl (new C D resolver http)) dns
  unfolding run_worker
  run_worker-plain hook resolver dns worker_id plain =
      rw (plain.no_hook, run_worker, plain.validates) refl

  pub run_worker-IsConfined :
      (hook : Hook C D M) (resolver : Option Resolver) (dns : DnsState D.Store) (worker_id : ℕ)
      → IsPlain
      → IsConfined C D M laws map_laws config (run_worker C D M config hook resolver dns worker_id)
  unfolding new set_cache_ttl new_handler
  run_worker-IsConfined hook resolver dns worker_id plain =
      let start = new_handler C D M (set_cache_ttl config.cache_ttl (new C D resolver http)) dns in
      let confined : IsConfined C D M laws map_laws config start = record {
        sound = (build-IsCacheSafe C D laws cache_capacity (3600 * nanos_per_second), refl);
        pools = λ key p found. absurd (ground (arith, map_laws.get-new key, found));
      } in
      subst (IsConfined C D M laws map_laws config)
        (sym (run_worker-plain hook resolver dns worker_id plain)) confined

  -- However many requests a worker has served, whatever they and the backends say and however the code around
  -- behaves, where validation is on and no start hook changes the adapter: every pool dials the host and the port of the endpoint that
  -- the settings fix, or of the text of an address outside the refused ranges.
  serve_requests-AreConfined :
      (hook : Hook C D M) (resolver : Option Resolver) (dns : DnsState D.Store) (worker_id : ℕ)
      (requests : List (RequestEnv × Request)) (responses : List Response) (h : Handler C D M)
      → IsPlain
      → serve_requests C D M config requests (run_worker C D M config hook resolver dns worker_id)
        ≡ some (responses, h)
      → AreConfined M map_laws config h.pools
  serve_requests-AreConfined hook resolver dns worker_id requests responses h plain e =
      (requests-IsConfined requests responses _ h
        (run_worker-IsConfined hook resolver dns worker_id plain) e).pools

  -- In such a worker, the endpoint that the next request is forwarded to is the one that the settings fix, or the text of an address
  -- outside the refused ranges with a port from 1 to 65535 or none.
  choose_endpoint-MayDial :
      (hook : Hook C D M) (resolver : Option Resolver) (dns : DnsState D.Store) (worker_id : ℕ)
      (requests : List (RequestEnv × Request)) (responses : List Response) (h : Handler C D M)
      (env : RequestEnv) (request : Request) (endpoint : Bytes)
      → IsPlain
      → serve_requests C D M config requests (run_worker C D M config hook resolver dns worker_id)
        ≡ some (responses, h)
      → (choose_endpoint C D M config env request h).0 ≡ ok endpoint
      → MayDial config endpoint
  choose_endpoint-MayDial hook resolver dns worker_id requests responses h env request endpoint
        plain e chosen =
      let c =
        requests-IsConfined requests responses _ h
          (run_worker-IsConfined hook resolver dns worker_id plain) e in
      (choose_endpoint-IsChosen C D M laws map_laws config env request h c).1 endpoint chosen
