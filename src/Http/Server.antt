-- ===== src/Http/Server.antt =====
-- `HttpServer::start` of rust/crates/utopia-proxy/src/server/http/server.rs: a listener and a handler for each worker.
-- Binding is an argument, and so is what the start hook does to a worker's adapter.
pub mod Workers
pub mod Confined
pub mod Tasks
use protocol_proxy.Text.Decimal.{print_decimal, parse_u16}
use protocol_proxy.Text.Split.{starts_with, rsplit_once, ends_with_byte}
use protocol_proxy.Dns.{DnsState}
use protocol_proxy.Http.Forward.{Request, Response}
use protocol_proxy.Resolver.{Resolver}
use protocol_proxy.Http.Choice.{handle, RequestEnv, new_handler, Handler}
use protocol_proxy.Http.Pool.{Pool}
use protocol_proxy.Net.{IpAddr, parse_ipv4, parse_ip, v4, v6, is_socket_addr}
use protocol_proxy.Adapter.Route.{CacheEntry, new, Adapter, set_cache_ttl, set_skip_validation}
use protocol_proxy.External.{CacheApi, MapApi}
use protocol_proxy.Http.Config.{HttpConfig}
use protocol_proxy.Protocol.{http}
use protocol_proxy.Prelude.{
  [], ◌∷◌, none, some, true, ok, err, zero, suc, if◌then◌else◌, ◌==◌, ◌&&◌, Bytes, ℕ, Option,
  Result, List, max, ltb, map, false, codes, ◌++◌, ◌||◌, Bool, not, is_some, drop,
}

-- How a worker binds the address: with `SO_REUSEPORT`, or without.
pub data Binding : Type 0 where
  reuse_port plain : Binding

-- The bindings that stand, the latest first, and the new one.
abbrev pub Bind : Type 0
Bind = List Binding → Binding → Result Bytes (Unit {0})

unfoldable pub worker_count : HttpConfig → ℕ
worker_count config = max config.workers 1

unfoldable pub binding : HttpConfig → ℕ → Binding
unfolding worker_count
binding config worker_id =
    if config.enable_reuse_port && ltb 1 (worker_count config)
    then reuse_port
    else if worker_id == 0
    then plain
    else if config.enable_reuse_port
    then reuse_port
    else plain

-- The listeners of so many workers from an id on.
unfoldable pub bind_workers : HttpConfig → Bind → ℕ → ℕ → List Binding → Result Bytes (List Binding)
unfolding binding
bind_workers config bind zero worker_id bound = ok bound
bind_workers config bind (suc n) worker_id bound = elim (bind bound (binding config worker_id)) [
  | err e ↦ err e
  | ok done ↦ bind_workers config bind n (suc worker_id) (binding config worker_id ∷ bound)
]

module _ (C : CacheApi Bytes CacheEntry) (D : CacheApi Bytes IpAddr) (M : MapApi Bytes Pool) where
  -- What a start hook does to a worker's adapter, by the hook and the worker's id.
  abbrev pub Hook : Type 0
  Hook = ℕ → ℕ → Adapter C.Store → Adapter C.Store

  -- The handler that `run_worker` serves requests with; the registry of pools is its own.
  unfoldable pub run_worker :
      HttpConfig → Hook → Option Resolver → DnsState D.Store → ℕ → Handler C D M
  unfolding new set_cache_ttl set_skip_validation new_handler
  run_worker config hook resolver dns worker_id =
      let adapter = set_cache_ttl config.cache_ttl (new C D resolver http) in
      let checked = if config.skip_validation then set_skip_validation true adapter else adapter in
      elim config.worker_start [
        | none ↦ new_handler C D M checked dns
        | some start ↦ new_handler C D M (hook start worker_id checked) dns
      ]

  unfoldable pub run_workers :
      HttpConfig → Hook → Option Resolver → DnsState D.Store → ℕ → ℕ → List (Handler C D M)
  unfolding run_worker
  run_workers config hook resolver dns zero worker_id = []
  run_workers config hook resolver dns (suc n) worker_id =
      run_worker config hook resolver dns worker_id
      ∷ run_workers config hook resolver dns n (suc worker_id)

  -- A worker's handler takes one request after another.
  unfoldable pub serve_requests :
      HttpConfig
      → List (RequestEnv × Request)
      → Handler C D M
      → Option (List Response × Handler C D M)
  unfolding handle
  serve_requests config [] h = some ([], h)
  serve_requests config ((env, request) ∷ rest) h = elim (handle C D M config env request h) [
    | none ↦ none
    | some (response, h') ↦ elim (serve_requests config rest h') [
      | none ↦ none
      | some (responses, h'') ↦ some (response ∷ responses, h'')
    ]
  ]

  -- The handlers of the workers, where all are bound.
  unfoldable pub start :
      HttpConfig
      → Bind
      → Hook
      → Option Resolver
      → DnsState D.Store
      → Result Bytes (List (Handler C D M))
  unfolding is_socket_addr bind_workers worker_count run_workers
  start config bind hook resolver dns =
      if not (is_socket_addr (config.host ++ b':' ∷ print_decimal config.port))
      then err (codes "invalid socket address syntax")
      else elim (bind_workers config bind (worker_count config) 0 []) [
        | err e ↦ err e
        | ok bound ↦ ok (run_workers config hook resolver dns (worker_count config) 0)
      ]
