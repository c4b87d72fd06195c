-- ===== src/Examples/Forwarding.antt =====
-- HTTP requests: their answers, their forwarding and the pool of clients.
use protocol_proxy.Protocol.{http}
use protocol_proxy.Resolver.{ProxyError, ResolverError}
use protocol_proxy.Http.Pool.Shared.Overflow.{live, overflow}
use protocol_proxy.Dns.{initial_dns}
use protocol_proxy.Http.Raw.Framing.{read_response-all}
use protocol_proxy.Http.Forward.Reuse.{IsUnsent, IsAnswered, IsUnhealthy, exchange-cases}
use protocol_proxy.Http.Forward.Permits.{pool_of, forward_request-capacity}
use protocol_proxy.Http.Names.{is_valid_hostname}
use protocol_proxy.Examples.Data.{env, routes_cache, fails, hosts_cache}
use protocol_proxy.Http.Pool.Shared.{Reach, System}
use protocol_proxy.Http.Pool.Shared.Bound.{total}
use protocol_proxy.Http.Pool.{Pool, Wait, lease, new_pool}
use protocol_proxy.Http.Forward.Headers.{values, outbound-headers}
use protocol_proxy.Adapter.Route.{Adapter, route}
use protocol_proxy.Resolver.{code}
use protocol_proxy.Http.Answers.{handle-refused, IsError}
use protocol_proxy.Http.Choice.{resolver_error_response, choose_endpoint, extract_host, handle}
use protocol_proxy.Http.Choice.{RequestEnv, Handler, host_header}
use protocol_proxy.Http.Raw.{Reads, RawEnv, read_response, build_response}
use protocol_proxy.Http.Heads.{Head}
use protocol_proxy.Http.Forward.{
  Request, Reply, BackendEnv, Response, exchange, outbound, client_response, forward_request,
}
use protocol_proxy.External.{MapApi, IsMap, list_map, list_map-IsMap, elapsed, finished}
use protocol_proxy.Http.Config.{HttpConfig, default}
use protocol_proxy.Prelude.{
  bytes_eq, [], ◌∷◌, none, some, true, false, ok, err, zero, suc, refl, arith, codes, ◌++◌, Bytes,
  ℕ, ◌≡◌, ◌⊎◌, lookup, bytes_beq, ◌≤◌, length,
}

abbrev pub http_config : HttpConfig
http_config = default 4

abbrev pub registry : MapApi Bytes Pool
registry = list_map

abbrev pub registry_laws : IsMap Bytes Pool registry
registry_laws = list_map-IsMap

abbrev pub request : Request
request = record {
  method = codes "GET";
  path_and_query = some (codes "/a");
  headers = (codes "host", codes "a.example") ∷ (codes "accept", codes "*/*") ∷ [];
  body = elapsed;
}

abbrev bad_request : Request
bad_request = record request { headers = (codes "host", codes "bad..com") ∷ [] }

abbrev reply : Reply
reply = record {
  status = 200;
  headers = (codes "connection", codes "close") ∷ (codes "etag", codes "1") ∷ [];
  body = finished (codes "hi");
}

abbrev backend_env : BackendEnv
backend_env = record {
  wait = Wait.granted;
  ready_before = λ sender. true;
  ready_after = λ sender. true;
  stream = finished tt;
  nodelay = ok tt;
  handshake = ok 7;
  build_error = λ out. none;
  answer = λ out. finished reply;
}

abbrev head : Bytes
head = codes "HTTP/1.1 200\r\nContent-Length: 2"

abbrev parsed : Head
parsed = record { status = 200; headers = []; content_length = some 2; chunked = false }

abbrev one_by_one : ℕ → Reads
one_by_one zero = []
one_by_one (suc n) = finished 1 ∷ one_by_one n

abbrev raw_env : RawEnv
raw_env = record {
  connected = finished tt;
  nodelay = ok tt;
  written = finished tt;
  incoming = λ line. head ++ (codes "\r\n\r\n" ++ codes "hi");
  reads = one_by_one 60;
  build_error = λ h. none;
}

abbrev pub request_env : RequestEnv
request_env = record {
  route = env;
  request_handler = λ handler r. err (ProxyError.other []);
  to_str = λ value. some value;
  backend = backend_env;
  raw = raw_env;
}

abbrev failing_adapter : Adapter routes_cache.Store
failing_adapter = record {
  resolver = some fails;
  protocol = http;
  cache = [];
  cache_ttl = 0;
  skip_validation = false;
  on_resolve = none;
}

abbrev handler : Handler routes_cache hosts_cache registry
handler = record { adapter = failing_adapter; dns = initial_dns; pools = [] }

handle-refused_example :
    (h : Handler routes_cache hosts_cache registry) × (handle routes_cache hosts_cache registry
        http_config request_env request handler
      ≡ some (resolver_error_response (ResolverError.not_found (codes "no") []), h))
    × (h.pools ≡ handler.pools)
    × IsError 404
unfolding default host_header bytes_beq is_valid_hostname protocol_proxy.Http.Names.host_part
    protocol_proxy.Text.Split.rsplit_once protocol_proxy.Net.parse_ipv4
    protocol_proxy.Text.Split.split protocol_proxy.Http.Names.is_valid_label
    protocol_proxy.Text.Split.starts_with protocol_proxy.Text.Split.ends_with_byte route
    protocol_proxy.Adapter.Route.cached protocol_proxy.Adapter.Route.ask choose_endpoint
    extract_host resolver_error_response code
handle-refused_example =
    handle-refused routes_cache hosts_cache registry http_config request_env request handler
      (resolver_error_response (ResolverError.not_found (codes "no") [])) refl refl refl

bad_bytes : (host : Bytes) → some (codes "bad..com") ≡ some host → is_valid_hostname host ≡ false
unfolding is_valid_hostname protocol_proxy.Http.Names.host_part
    protocol_proxy.Text.Split.rsplit_once protocol_proxy.Net.parse_ipv4
    protocol_proxy.Text.Split.split protocol_proxy.Http.Names.is_valid_label
    protocol_proxy.Text.Split.starts_with protocol_proxy.Text.Split.ends_with_byte
bad_bytes host e = let same : codes "bad..com" ≡ host = ground arith in rw (← same) refl

bad_name :
    (host : Bytes)
    → host_header request_env bad_request ≡ some host
    → is_valid_hostname host ≡ false
unfolding host_header lookup bytes_beq
bad_name host e = bad_bytes host e

outbound-headers_example :
    values (codes "accept") (outbound request (codes "b.example") []).headers ≡ codes "*/*" ∷ []
unfolding protocol_proxy.Prelude.bytes_beq
outbound-headers_example = outbound-headers request (codes "b.example") [] (codes "accept")

exchange-cases_example :
    let out = exchange http_config backend_env request (codes "b.example") (lease true 7) in
    (IsUnsent http_config (lease true 7) backend_env request (codes "b.example") out
      ⊎ IsAnswered http_config (lease true 7) backend_env request (codes "b.example") out)
    ⊎ IsUnhealthy http_config (lease true 7) out
exchange-cases_example =
    exchange-cases http_config (lease true 7) backend_env request (codes "b.example")

forward_request-capacity_example :
    (p : Pool) × (p.capacity
      ≡ (pool_of registry http_config backend_env request (codes "b.example") []).capacity)
    × (lookup
          (codes "c:80")
          (forward_request registry http_config backend_env request (codes "b.example") []).1
        ≡ none)
unfolding protocol_proxy.Http.Pool.get_or_create lookup default protocol_proxy.Prelude.bytes_beq
    protocol_proxy.Http.Forward.authority protocol_proxy.Adapter.Endpoint.parse_endpoint
    protocol_proxy.Text.Split.split_once
forward_request-capacity_example =
    forward_request-capacity registry http_config backend_env request registry_laws
      (codes "b.example") (codes "c:80") [] (omega arith)

read_response-all_example :
    read_response http_config raw_env (head ++ (codes "\r\n\r\n" ++ codes "hi"))
    ≡ some (build_response raw_env parsed (ok (codes "hi")))
unfolding mathlib.Core.List.flatten protocol_proxy.Http.Names.find_subslice
    protocol_proxy.Text.Split.starts_with protocol_proxy.Http.Heads.parse_head
    protocol_proxy.Text.Split.split_crlf protocol_proxy.Http.Heads.add_lines
    protocol_proxy.Http.Heads.add_line default protocol_proxy.Http.Forward.status_or
    protocol_proxy.Text.Utf8.from_utf8 protocol_proxy.Text.Trim.trim_text
    protocol_proxy.Text.Split.split_once bytes_beq protocol_proxy.Text.Words.trim
    protocol_proxy.Text.Words.trim_start protocol_proxy.Text.Words.trim_end
    protocol_proxy.Text.Utf8.is_whitespace protocol_proxy.Text.Decimal.parse_uint
    protocol_proxy.Text.Decimal.parse_digits protocol_proxy.Http.Names.parse_status_line
    protocol_proxy.Text.Words.after_blank protocol_proxy.Text.Words.first_word
    protocol_proxy.Text.Words.take_word protocol_proxy.Text.Ascii.eq_ignore_ascii_case
    protocol_proxy.Text.Ascii.to_lower
read_response-all_example =
    read_response-all http_config raw_env head (codes "hi") parsed refl (omega arith) (omega arith)
      refl refl refl

-- A pool with an idle client, which is leased in place of a new one.
abbrev pool_idle : Pool
pool_idle = record {
  endpoint = codes "b:80";
  capacity = 1;
  idle = record { sender = 3; healthy = true } ∷ [];
}

overflow_example :
    (s : System) × Reach (codes "b:80") 1 s × (total live s.tasks ≡ 4) × (s.pool.capacity ≡ 0)
overflow_example = overflow (codes "b:80") 1 3
