-- ===== src/Http/Answers.antt =====
-- The answers that rust/crates/utopia-proxy/src/server/http/handler.rs gives in place of a backend's.
use protocol_proxy.Http.Forward.{Request, Response}
use protocol_proxy.Http.Pool.{Pool}
use protocol_proxy.Http.Config.{HttpConfig}
use protocol_proxy.Http.Names.{is_valid_hostname}
use protocol_proxy.Net.{IpAddr}
use protocol_proxy.Adapter.Route.{CacheEntry}
use protocol_proxy.External.{CacheApi, MapApi}
use protocol_proxy.Http.Choice.Confined.{
  choose_endpoint-fixed, choose_endpoint-refused, choose_endpoint-routed, choose_endpoint-pools,
}
use protocol_proxy.Http.Forward.{status_or}
use protocol_proxy.Resolver.Errors.{code_range}
use protocol_proxy.Adapter.Route.{Adapter, route}
use protocol_proxy.Resolver.{ConnectionResult, ResolverError}
use protocol_proxy.Dns.{DnsState}
use protocol_proxy.Http.Choice.{resolver_error_response, routed_endpoint}
use protocol_proxy.Http.Choice.{
  handle, choose_endpoint, extract_host, text_response, RequestEnv, Handler, host_header,
}
use protocol_proxy.Prelude.{
  none, some, false, err, inl, inr, refl, Bool-cases, ◌≡◌, Bytes, Option, is_empty, codes, ok,
  Option-cases, Result-cases, arith, ℕ, Result, ap, ◌<◌, ◌≤◌, subst,
}

-- A bad name is answered with a 400.
extract_host-bad :
    (o : Option Bytes)
    → ((host : Bytes) → o ≡ some host → is_valid_hostname host ≡ false)
    → (response : Response) × (extract_host o ≡ err response) × (response.status ≡ 400)
unfolding extract_host text_response
extract_host-bad none bad = (text_response 400 (codes "Missing Host header"), refl, refl)
extract_host-bad (some host) bad = elim (Bool-cases (is_empty host)) [
  | inl nothing ↦
      (text_response 400 (codes "Missing Host header"), rw (nothing, extract_host) refl, refl)
  | inr given ↦ (
    text_response 400 (codes "Invalid Host header"),
    rw (given, extract_host, bad host refl) refl,
    refl,
  )
]

-- A status of HTTP that tells of an error.
abbrev pub IsError : ℕ → Type 0
IsError status = (400 ≤ status) × (status < 600)

resolver_error_response-IsError : (e : ResolverError) → IsError (resolver_error_response e).status
unfolding resolver_error_response text_response status_or
resolver_error_response-IsError e = let range = code_range e in ground arith

extract_host-IsError :
    (o : Option Bytes) (response : Response)
    → extract_host o ≡ err response
    → IsError response.status
unfolding extract_host text_response
extract_host-IsError none response e = ground arith
extract_host-IsError (some host) response e = ground arith

module _ (C : CacheApi Bytes CacheEntry) (D : CacheApi Bytes IpAddr) (M : MapApi Bytes Pool)
    (config : HttpConfig) (env : RequestEnv) (request : Request) (h : Handler C D M) where
  -- An answer in place of the endpoint is the response.
  handle-answer :
      (response : Response) (h' : Handler C D M)
      → config.request_handler ≡ none
      → config.direct_response ≡ none
      → choose_endpoint C D M config env request h ≡ (err response, h')
      → handle C D M config env request h ≡ some (response, h')
  unfolding handle
  handle-answer response h' c d e = rw (c, handle, d, e) refl

  choose_endpoint-err :
      (response : Response)
      → config.fixed_backend ≡ none
      → extract_host (host_header env request) ≡ err response
      → choose_endpoint C D M config env request h ≡ (err response, h)
  unfolding choose_endpoint
  choose_endpoint-err response f e = rw (f, choose_endpoint, e) refl

  -- Where the endpoint comes from routing and the `Host` is missing, empty or no valid name, the client gets
  -- a 400, and neither the adapter nor the pools have changed.
  handle-bad_host :
      config.request_handler ≡ none
      → config.direct_response ≡ none
      → config.fixed_backend ≡ none
      → ((host : Bytes) → host_header env request ≡ some host → is_valid_hostname host ≡ false)
      → (response : Response) × (handle C D M config env request h ≡ some (response, h))
        × (response.status ≡ 400)
  handle-bad_host c d f bad =
      let answer = extract_host-bad (host_header env request) bad in
      (answer.0, handle-answer answer.0 h c d (choose_endpoint-err answer.0 f answer.1), answer.2)

  routed_endpoint-IsError :
      (out : Result ResolverError ConnectionResult × Adapter C.Store × DnsState D.Store)
      (response : Response)
      → (routed_endpoint C D M h out).0 ≡ err response
      → IsError response.status
  routed_endpoint-IsError (err e, a, dns) response failed =
      let same : resolver_error_response e ≡ response = ground arith in
      subst (λ (r : Response). IsError r.status) same (resolver_error_response-IsError e)
  routed_endpoint-IsError (ok r, a, dns) response failed = cc

  choose_endpoint-IsError :
      (response : Response)
      → (choose_endpoint C D M config env request h).0 ≡ err response
      → IsError response.status
  choose_endpoint-IsError response failed = elim (Option-cases config.fixed_backend) [
    | inr (endpoint, fixed) ↦
        let chosen = choose_endpoint-fixed C D M config env request h endpoint fixed in cc
    | inl free ↦ elim (Result-cases (extract_host (host_header env request))) [
      | inl (refusal, refused) ↦
          let chosen = choose_endpoint-refused C D M config env request h refusal free refused in
          let same : refusal ≡ response = cc in
          subst (λ (r : Response). IsError r.status) same
            (extract_host-IsError (host_header env request) refusal refused)
      | inr (host, given) ↦
          let routed = choose_endpoint-routed C D M config env request h host free given in
          routed_endpoint-IsError (route C D env.route h.adapter h.dns host) response
            (rw routed at failed)
    ]
  ]

  -- Where requests are neither handled by a custom handler nor answered directly: for whatever reason no endpoint is
  -- chosen, a missing, empty or bad `Host` or any error of routing, the client is answered, with a status from 400 to
  -- 599, and the pools are as before.
  pub handle-refused :
      (response : Response)
      → config.request_handler ≡ none
      → config.direct_response ≡ none
      → (choose_endpoint C D M config env request h).0 ≡ err response
      → (h' : Handler C D M) × (handle C D M config env request h ≡ some (response, h'))
        × (h'.pools ≡ h.pools)
        × IsError response.status
  handle-refused response c d failed =
      let out = choose_endpoint C D M config env request h in
      (
        out.1,
        handle-answer response out.1 c d (ap (λ r. (r, out.1)) failed),
        choose_endpoint-pools C D M config env request h,
        choose_endpoint-IsError response failed,
      )
