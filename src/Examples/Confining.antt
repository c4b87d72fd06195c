-- ===== src/Examples/Confining.antt =====
-- Requests that an HTTP worker routes and forwards.
use protocol_proxy.Http.Forward.{Request, Response}
use protocol_proxy.Dns.{initial_dns}
use protocol_proxy.Examples.Forwarding.{http_config, registry, registry_laws, request, request_env}
use protocol_proxy.Examples.Data.{routes_cache, resolver, hosts_cache, routes_laws}
use protocol_proxy.Http.Server.{run_worker, serve_requests, Hook}
use protocol_proxy.Http.Server.Confined.{IsPlain}
use protocol_proxy.Http.Pool.Shared as Shared
use protocol_proxy.Http.Pool.Shared.{waiting, choosing}
use protocol_proxy.Http.Pool.Shared.Bound.{IsBounded}
use protocol_proxy.Http.Pool.{Pool, get_or_create, new_pool, take_permit}
use protocol_proxy.Http.Forward.Permits.{pool_key}
use protocol_proxy.Http.Server.Tasks.{
  System, Reach, starts, later, arrives, moves, chooses, joins, works, arrived, forwarding, pooled,
}
use protocol_proxy.Http.Server.Tasks.Pooled.{IsShared, Reach-IsShared, Reach-pool_size}
use protocol_proxy.Http.Server.Tasks.Confined.{AreAllowed, Reach-AreConfined}
use protocol_proxy.Http.Forward.Confined.{AreConfined}
use protocol_proxy.Http.Choice.{Handler, RequestEnv, choose_endpoint}
use protocol_proxy.Prelude.{
  bytes_eq, [], ◌∷◌, none, some, refl, codes, List, ◌≡◌, map, Bytes, arith, ok,
}

abbrev no_hook : Hook routes_cache hosts_cache registry
no_hook start worker_id a = a

abbrev first : Handler routes_cache hosts_cache registry
first =
    run_worker routes_cache hosts_cache registry http_config no_hook (some resolver) initial_dns 0

abbrev requests : List (RequestEnv × Request)
requests = (request_env, request) ∷ []

abbrev served : List Response × Handler routes_cache hosts_cache registry
served = elim (serve_requests routes_cache hosts_cache registry http_config requests first) [
  | some out ↦ out
  | none ↦ ([], first)
]

is_plain : IsPlain routes_cache hosts_cache registry routes_laws registry_laws http_config
unfolding protocol_proxy.Http.Config.default
is_plain = record { no_hook = refl; validates = refl }

-- Two requests: the second joins the pool while the first has a permit of it.
abbrev Requests : Type 0
Requests = System routes_cache hosts_cache registry http_config

abbrev Reached : Requests → Type 0
Reached = Reach routes_cache hosts_cache registry http_config first

abbrev chosen :
    Handler routes_cache hosts_cache registry → Handler routes_cache hosts_cache registry
chosen h = (choose_endpoint routes_cache hosts_cache registry http_config request_env request h).1

abbrev target : Bytes
target = codes "8.8.8.8:80"

abbrev joined :
    Handler routes_cache hosts_cache registry → Handler routes_cache hosts_cache registry
joined h = record h {
  pools = (get_or_create registry (pool_key target) http_config.pool_size h.pools).1;
}

abbrev fresh : Pool
fresh = new_pool (pool_key target) http_config.pool_size

abbrev granted :
    Handler routes_cache hosts_cache registry → Handler routes_cache hosts_cache registry
granted h = record h { pools = registry.insert (pool_key target) (take_permit fresh) h.pools }

abbrev one : Requests
one = record {
  handler = granted (joined (chosen first));
  jobs = pooled (pool_key target) choosing ∷ [];
}

abbrev two : Requests
two = record {
  handler = joined (chosen one.handler);
  jobs = pooled (pool_key target) waiting ∷ one.jobs;
}

first_chosen :
    (choose_endpoint routes_cache hosts_cache registry http_config request_env request first).0
    ≡ ok target
unfolding protocol_proxy.Http.Config.default choose_endpoint protocol_proxy.Http.Choice.extract_host
    protocol_proxy.Http.Choice.host_header protocol_proxy.Prelude.bytes_beq
    protocol_proxy.Http.Names.is_valid_hostname protocol_proxy.Http.Names.host_part
    protocol_proxy.Text.Split.rsplit_once protocol_proxy.Net.parse_ipv4
    protocol_proxy.Text.Split.split protocol_proxy.Http.Names.is_valid_label
    protocol_proxy.Text.Split.starts_with protocol_proxy.Text.Split.ends_with_byte
    protocol_proxy.Adapter.Route.route protocol_proxy.Adapter.Route.cached run_worker
    protocol_proxy.Adapter.Route.ask protocol_proxy.Adapter.Route.validate
    protocol_proxy.Adapter.Endpoint.endpoint_parts protocol_proxy.Text.Split.splitn
    protocol_proxy.Text.Split.split_once protocol_proxy.Text.Decimal.parse_uint
    protocol_proxy.Net.parse_ip protocol_proxy.Dns.resolve
    protocol_proxy.Adapter.Blocked.is_blocked_ip protocol_proxy.Prelude.insert
    protocol_proxy.Resolver.new_connection_result protocol_proxy.Adapter.Endpoint.endpoint_text
    protocol_proxy.Net.print_ip
first_chosen = refl

one_chosen :
    (choose_endpoint routes_cache hosts_cache registry http_config request_env request
      one.handler).0
    ≡ ok target
unfolding protocol_proxy.Http.Config.default choose_endpoint protocol_proxy.Http.Choice.extract_host
    protocol_proxy.Http.Choice.host_header protocol_proxy.Prelude.bytes_beq
    protocol_proxy.Http.Names.is_valid_hostname protocol_proxy.Http.Names.host_part
    protocol_proxy.Text.Split.rsplit_once protocol_proxy.Net.parse_ipv4
    protocol_proxy.Text.Split.split protocol_proxy.Http.Names.is_valid_label
    protocol_proxy.Text.Split.starts_with protocol_proxy.Text.Split.ends_with_byte
    protocol_proxy.Adapter.Route.route protocol_proxy.Adapter.Route.cached run_worker
    protocol_proxy.Adapter.Route.ask protocol_proxy.Adapter.Route.validate
    protocol_proxy.Adapter.Endpoint.endpoint_parts protocol_proxy.Text.Split.splitn
    protocol_proxy.Text.Split.split_once protocol_proxy.Text.Decimal.parse_uint
    protocol_proxy.Net.parse_ip protocol_proxy.Dns.resolve
    protocol_proxy.Adapter.Blocked.is_blocked_ip protocol_proxy.Prelude.insert
    protocol_proxy.Resolver.new_connection_result protocol_proxy.Adapter.Endpoint.endpoint_text
    protocol_proxy.Net.print_ip
one_chosen = refl

two_pool : registry.get (pool_key target) two.handler.pools ≡ some (take_permit fresh)
unfolding protocol_proxy.Http.Config.default choose_endpoint protocol_proxy.Http.Choice.extract_host
    protocol_proxy.Http.Choice.host_header protocol_proxy.Prelude.bytes_beq
    protocol_proxy.Http.Names.is_valid_hostname protocol_proxy.Http.Names.host_part
    protocol_proxy.Text.Split.rsplit_once protocol_proxy.Net.parse_ipv4
    protocol_proxy.Text.Split.split protocol_proxy.Http.Names.is_valid_label
    protocol_proxy.Text.Split.starts_with protocol_proxy.Text.Split.ends_with_byte
    protocol_proxy.Adapter.Route.route protocol_proxy.Adapter.Route.cached run_worker
    protocol_proxy.Adapter.Route.ask protocol_proxy.Adapter.Route.validate
    protocol_proxy.Adapter.Endpoint.endpoint_parts protocol_proxy.Text.Split.splitn
    protocol_proxy.Text.Split.split_once protocol_proxy.Text.Decimal.parse_uint
    protocol_proxy.Net.parse_ip protocol_proxy.Dns.resolve
    protocol_proxy.Adapter.Blocked.is_blocked_ip protocol_proxy.Prelude.insert
    protocol_proxy.Resolver.new_connection_result protocol_proxy.Adapter.Endpoint.endpoint_text
    protocol_proxy.Net.print_ip get_or_create protocol_proxy.Prelude.lookup
    protocol_proxy.Http.Forward.authority take_permit new_pool
    protocol_proxy.Adapter.Endpoint.parse_endpoint
two_pool = refl

first_pool : registry.get (pool_key target) (joined (chosen first)).pools ≡ some fresh
unfolding protocol_proxy.Http.Config.default choose_endpoint protocol_proxy.Http.Choice.extract_host
    protocol_proxy.Http.Choice.host_header protocol_proxy.Prelude.bytes_beq
    protocol_proxy.Http.Names.is_valid_hostname protocol_proxy.Http.Names.host_part
    protocol_proxy.Text.Split.rsplit_once protocol_proxy.Net.parse_ipv4
    protocol_proxy.Text.Split.split protocol_proxy.Http.Names.is_valid_label
    protocol_proxy.Text.Split.starts_with protocol_proxy.Text.Split.ends_with_byte
    protocol_proxy.Adapter.Route.route protocol_proxy.Adapter.Route.cached run_worker
    protocol_proxy.Adapter.Route.ask protocol_proxy.Adapter.Route.validate
    protocol_proxy.Adapter.Endpoint.endpoint_parts protocol_proxy.Text.Split.splitn
    protocol_proxy.Text.Split.split_once protocol_proxy.Text.Decimal.parse_uint
    protocol_proxy.Net.parse_ip protocol_proxy.Dns.resolve
    protocol_proxy.Adapter.Blocked.is_blocked_ip protocol_proxy.Prelude.insert
    protocol_proxy.Resolver.new_connection_result protocol_proxy.Adapter.Endpoint.endpoint_text
    protocol_proxy.Net.print_ip get_or_create protocol_proxy.Prelude.lookup
    protocol_proxy.Http.Forward.authority new_pool protocol_proxy.Adapter.Endpoint.parse_endpoint
first_pool = refl

first_empty : first.pools ≡ registry.new
unfolding run_worker protocol_proxy.Http.Config.default
first_empty = refl

one-Reach : Reached one
unfolding protocol_proxy.Http.Config.default protocol_proxy.Prelude.bytes_beq new_pool
one-Reach =
    let r1 : Reached (record { handler = first; jobs = arrived request ∷ [] }) =
      later (starts first_empty) (arrives request) in
    let r2 : Reached (record { handler = chosen first; jobs = forwarding request target ∷ [] }) =
      later r1 (
        moves [] [] (forwarding request target ∷ []) refl
          (chooses {request = request} request_env target refl refl first_chosen)) in
    let r3 : Reached
        (record { handler = joined (chosen first); jobs = pooled (pool_key target) waiting ∷ [] }) =
      later r2 (moves [] [] (pooled (pool_key target) waiting ∷ []) refl (joins refl)) in
    later r3 (
      moves [] [] (pooled (pool_key target) choosing ∷ []) refl
        (works {p = fresh} first_pool (Shared.granted (ground arith))))

two-Reach : Reached two
unfolding protocol_proxy.Http.Config.default protocol_proxy.Prelude.bytes_beq
two-Reach =
    let r1 : Reached (record { handler = one.handler; jobs = arrived request ∷ one.jobs }) =
      later one-Reach (arrives request) in
    let r2 : Reached
        (record { handler = chosen one.handler; jobs = forwarding request target ∷ one.jobs }) =
      later r1 (
        moves [] one.jobs (forwarding request target ∷ []) refl
          (chooses {request = request} request_env target refl refl one_chosen)) in
    later r2 (moves [] one.jobs (pooled (pool_key target) waiting ∷ []) refl (joins refl))

Reach-AreConfined_example :
    AreAllowed http_config two.jobs
    × AreConfined registry registry_laws http_config two.handler.pools
Reach-AreConfined_example =
    Reach-AreConfined routes_cache hosts_cache registry routes_laws registry_laws http_config
      no_hook (some resolver) initial_dns 0 is_plain two-Reach

Reach-IsShared_example :
    IsShared routes_cache hosts_cache registry registry_laws http_config (pool_key target) two
Reach-IsShared_example =
    Reach-IsShared routes_cache hosts_cache registry registry_laws http_config (pool_key target)
      two-Reach

Reach-pool_size_example :
    IsBounded http_config.pool_size
      (record { pool = take_permit fresh; tasks = waiting ∷ choosing ∷ [] })
unfolding protocol_proxy.Prelude.bytes_beq protocol_proxy.Http.Forward.authority
    protocol_proxy.Adapter.Endpoint.parse_endpoint protocol_proxy.Text.Split.split_once
    protocol_proxy.Text.Decimal.print_decimal protocol_proxy.Text.Decimal.parse_uint
Reach-pool_size_example =
    Reach-pool_size routes_cache hosts_cache registry registry_laws http_config (pool_key target)
      (take_permit fresh) two-Reach two_pool

one_response : map (λ (r : Response). r.status) served.0 ≡ 200 ∷ []
unfolding serve_requests protocol_proxy.Http.Config.default choose_endpoint
    protocol_proxy.Http.Choice.extract_host protocol_proxy.Http.Choice.host_header
    protocol_proxy.Prelude.bytes_beq protocol_proxy.Http.Names.is_valid_hostname
    protocol_proxy.Http.Names.host_part protocol_proxy.Text.Split.rsplit_once
    protocol_proxy.Net.parse_ipv4 protocol_proxy.Text.Split.split
    protocol_proxy.Http.Names.is_valid_label protocol_proxy.Text.Split.starts_with
    protocol_proxy.Text.Split.ends_with_byte protocol_proxy.Adapter.Route.route
    protocol_proxy.Adapter.Route.cached run_worker protocol_proxy.Adapter.Route.ask
    protocol_proxy.Adapter.Route.validate protocol_proxy.Adapter.Endpoint.endpoint_parts
    protocol_proxy.Text.Split.splitn protocol_proxy.Text.Split.split_once
    protocol_proxy.Text.Decimal.parse_uint protocol_proxy.Net.parse_ip protocol_proxy.Dns.resolve
    protocol_proxy.Adapter.Blocked.is_blocked_ip protocol_proxy.Http.Choice.forwarded
    protocol_proxy.Http.Forward.forward_request protocol_proxy.Http.Forward.exchange
one_response = refl
