-- ===== src/Http/Choice.antt =====
-- How rust/crates/utopia-proxy/src/server/http/handler.rs answers a request: the custom handler, the direct
-- response, the endpoint, the answers made here, and forwarding to the endpoint over a pooled client (Forward) or
-- over a connection of its own (Raw).
pub mod Confined
use protocol_proxy.Http.Raw.{RawEnv, forward_raw_request}
use protocol_proxy.Http.Pool.{Pool}
use protocol_proxy.Http.Forward.{Response, status_or, Request, BackendEnv, forward_request}
use protocol_proxy.Http.Config.{HttpConfig}
use protocol_proxy.Dns.{DnsState}
use protocol_proxy.Net.{IpAddr}
use protocol_proxy.Resolver.{display}
use protocol_proxy.Http.Names.{is_valid_hostname}
use protocol_proxy.External.{CacheApi, MapApi}
use protocol_proxy.Adapter.Route.{RouteEnv, CacheEntry, Adapter, route}
use protocol_proxy.Resolver.{ResolverError, code, ProxyError, ConnectionResult}
use protocol_proxy.Prelude.{
  bytes_eq, [], ◌∷◌, none, some, ok, err, if◌then◌else◌, codes, Bytes, ℕ, Option, Result, is_empty,
  lookup,
}

unfoldable pub text_response : ℕ → Bytes → Response
text_response status body = record { status = status; headers = []; body = body }

unfoldable pub service_unavailable : Response
service_unavailable = record {
  status = 503;
  headers = (codes "content-type", codes "application/json") ∷ [];
  body =
      codes
        "{\"error\":\"Service Unavailable\",\"message\":\"The requested service is temporarily unavailable\"}";
}

unfoldable pub resolver_error_response : ResolverError → Response
unfolding status_or text_response
resolver_error_response error = text_response (status_or (code error) 503) (display error)

-- The value of the `Host` header, where it is visible text.
unfoldable pub extract_host : Option Bytes → Result Response Bytes
unfolding text_response
extract_host none = err (text_response 400 (codes "Missing Host header"))
extract_host (some host) =
    if is_empty host
    then err (text_response 400 (codes "Missing Host header"))
    else if is_valid_hostname host
    then ok host
    else err (text_response 400 (codes "Invalid Host header"))

-- What the code around gives for one request: the routing's, the answer of a custom handler, the text of a
-- header's value where it is visible, and what forwarding meets.
pub record RequestEnv : Type 0 where
  pub route : RouteEnv
  pub request_handler : ℕ → Request → Result ProxyError Response
  pub to_str : Bytes → Option Bytes
  pub backend : BackendEnv
  pub raw : RawEnv

unfoldable pub host_header : RequestEnv → Request → Option Bytes
unfolding lookup
host_header env request = elim (lookup (codes "host") request.headers) [
  | none ↦ none
  | some value ↦ env.to_str value
]

abbrev handled : Result ProxyError Response → Response
handled (ok response) = response
handled (err e) = text_response 500 (codes "Internal Server Error")

abbrev answer_forward : Result ProxyError Response → Response
answer_forward (ok response) = response
answer_forward (err e) = service_unavailable

module _ (C : CacheApi Bytes CacheEntry) (D : CacheApi Bytes IpAddr) (M : MapApi Bytes Pool) where
  -- The state of a worker: its adapter, the process's table of resolved names and the registry of pools.
  pub record Handler : Type 0 where
    pub adapter : Adapter C.Store
    pub dns : DnsState D.Store
    pub pools : M.Map

  unfoldable pub new_handler : Adapter C.Store → DnsState D.Store → Handler
  new_handler adapter dns = record { adapter = adapter; dns = dns; pools = M.new }

  -- The endpoint, or the answer in its place.
  abbrev pub routed_endpoint :
      Handler
      → Result ResolverError ConnectionResult × Adapter C.Store × DnsState D.Store
      → Result Response Bytes × Handler
  routed_endpoint h (err e, a, dns) =
      (err (resolver_error_response e), record h { adapter = a; dns = dns })
  routed_endpoint h (ok r, a, dns) = (ok r.endpoint, record h { adapter = a; dns = dns })

  unfoldable pub choose_endpoint :
      HttpConfig → RequestEnv → Request → Handler → Result Response Bytes × Handler
  unfolding resolver_error_response
  choose_endpoint config env request h = elim config.fixed_backend [
    | some endpoint ↦ (ok endpoint, h)
    | none ↦ elim (extract_host (host_header env request)) [
      | err response ↦ (err response, h)
      | ok host ↦ routed_endpoint h (route C D env.route h.adapter h.dns host)
    ]
  ]

  abbrev answered_over :
      Handler → Option (Result ProxyError Response × M.Map) → Option (Response × Handler)
  answered_over h none = none
  answered_over h (some (r, pools)) = some (answer_forward r, record h { pools = pools })

  unfoldable pub forwarded :
      HttpConfig → RequestEnv → Request → Bytes → Handler → Option (Response × Handler)
  unfolding service_unavailable
  forwarded config env request endpoint h = answered_over h (
      if config.raw_backend
      then forward_raw_request M config env.backend env.raw request endpoint h.pools
      else some (forward_request M config env.backend request endpoint h.pools))

  abbrev answer_endpoint :
      HttpConfig
      → RequestEnv
      → Request
      → Result Response Bytes × Handler
      → Option (Response × Handler)
  answer_endpoint config env request (err response, h) = some (response, h)
  answer_endpoint config env request (ok endpoint, h) = forwarded config env request endpoint h

  -- The response and the worker after it; none while a raw forward waits for its next read.
  unfoldable pub handle : HttpConfig → RequestEnv → Request → Handler → Option (Response × Handler)
  unfolding text_response status_or
  handle config env request h = elim config.request_handler [
    | some handler ↦ some (handled (env.request_handler handler request), h)
    | none ↦ elim config.direct_response [
      | some body ↦ some (text_response (status_or config.direct_response_status 200) body, h)
      | none ↦ answer_endpoint config env request (choose_endpoint config env request h)
    ]
  ]
