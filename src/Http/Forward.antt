-- ===== src/Http/Forward.antt =====
-- `forward_request` of rust/crates/utopia-proxy/src/server/http/handler.rs: the request for the backend, the exchange
-- over a pooled client and the response for the client. Names of headers are in lower case.
pub mod Headers
pub mod Reuse
pub mod Permits
pub mod Confined
use protocol_proxy.Adapter.Endpoint.{parse_endpoint}
use protocol_proxy.Text.Durations.{debug_duration}
use protocol_proxy.Http.Names.{is_hop_by_hop}
use protocol_proxy.Http.Config.{HttpConfig}
use protocol_proxy.Resolver.{Duration, ProxyError, other, backend_connect}
use protocol_proxy.Text.Decimal.{print_decimal}
use protocol_proxy.Http.Pool.{
  Wait, invalidate, PooledClient, send, Dialed, Pool, drop_lease, get_or_create, acquire, connect,
}
use protocol_proxy.External.{failed, Timed, MapApi, finished, elapsed}
use protocol_proxy.Prelude.{
  [], ◌∷◌, none, some, ok, err, if◌then◌else◌, codes, ◌++◌, ◌==◌, ◌||◌, Bytes, ℕ, Option, Result,
  List, Bool, bytes_beq, unwrap_or, ◌&&◌, leb, ltb,
}

pub record Request : Type 0 where
  pub method : Bytes
  pub path_and_query : Option Bytes
  pub headers : List (Bytes × Bytes)
  -- `body.collect()` under a timeout.
  pub body : Timed Bytes

pub record Outbound : Type 0 where
  pub method : Bytes
  pub uri : Bytes
  pub headers : List (Bytes × Bytes)
  pub body : Bytes

-- What a backend answers: the head, and what the collection of the body gives.
pub record Reply : Type 0 where
  pub status : ℕ
  pub headers : List (Bytes × Bytes)
  pub body : Timed Bytes

pub record Response : Type 0 where
  pub status : ℕ
  pub headers : List (Bytes × Bytes)
  pub body : Bytes

-- `StatusCode::from_u16` takes the numbers from 100 to 999.
unfoldable pub status_or : ℕ → ℕ → ℕ
status_or code fallback = if leb 100 code && ltb code 1000 then code else fallback

-- What happens around one request: the wait for a permit, which clients are ready when one is taken and when one
-- is given back, what the steps of dialing give, the error with which a request is not built, and the answer to one.
pub record BackendEnv : Type 0 where
  pub wait : Wait
  pub ready_before : ℕ → Bool
  pub ready_after : ℕ → Bool
  pub stream : Timed (Unit {0})
  pub nodelay : Result Bytes (Unit {0})
  pub handshake : Result Bytes ℕ
  pub build_error : Outbound → Option Bytes
  pub answer : Outbound → Timed Reply

unfoldable pub authority : Bytes → ℕ → Bytes
authority host port = host ++ b':' ∷ print_decimal port

unfoldable pub host_value : Bytes → ℕ → Bytes
unfolding authority
host_value host port = if port == 80 then host else authority host port

abbrev pub is_get_or_head : Bytes → Bool
is_get_or_head method = bytes_beq method (codes "GET") || bytes_beq method (codes "HEAD")

-- The headers that are sent on, `Host` and `Connection` left out.
unfoldable pub kept_headers : List (Bytes × Bytes) → List (Bytes × Bytes)
kept_headers [] = []
kept_headers ((name, value) ∷ rest) =
    if bytes_beq name (codes "host") || bytes_beq name (codes "connection")
    then kept_headers rest
    else (name, value) ∷ kept_headers rest

unfoldable pub outbound : Request → Bytes → Bytes → Outbound
unfolding kept_headers
outbound request host body = record {
  method = request.method;
  uri = unwrap_or request.path_and_query (codes "/");
  headers = kept_headers request.headers ++ (codes "host", host) ∷ [];
  body = body;
}

abbrev timed_out_after : Bytes → Duration → ProxyError
timed_out_after what time = other (what ++ codes " timed out after " ++ debug_duration time)

abbrev read_body : HttpConfig → Timed Bytes → Result ProxyError Bytes
read_body config (finished body) = ok body
read_body config (failed error) = err (other (codes "failed to read request body: " ++ error))
read_body config elapsed = err (timed_out_after (codes "reading request body") config.timeout)

-- A GET or HEAD forwards an empty body, and its own is not read.
unfoldable pub request_body : HttpConfig → Request → Result ProxyError Bytes
unfolding bytes_beq debug_duration
request_body config request =
    if is_get_or_head request.method then ok [] else read_body config request.body

unfoldable pub relayed_headers : List (Bytes × Bytes) → List (Bytes × Bytes)
unfolding is_hop_by_hop
relayed_headers [] = []
relayed_headers ((name, value) ∷ rest) =
    if is_hop_by_hop name then relayed_headers rest else (name, value) ∷ relayed_headers rest

unfoldable pub client_response : HttpConfig → Reply → Bytes → Response
unfolding relayed_headers
client_response config reply body = record {
  status = if config.fast_path_assume_ok then 200 else reply.status;
  headers = relayed_headers reply.headers;
  body = body;
}

abbrev pub Exchanged : Type 0
Exchanged = Result ProxyError Response × PooledClient

collected : HttpConfig → Reply → Timed Bytes → PooledClient → Exchanged
unfolding client_response invalidate debug_duration
collected config reply (finished body) l = (ok (client_response config reply body), l)
collected config reply (failed error) l =
    (err (other (codes "reading backend body failed: " ++ error)), invalidate l)
collected config reply elapsed l =
    (err (timed_out_after (codes "reading backend body") config.timeout), invalidate l)

-- The client after its `send`.
abbrev after_send : Result Bytes Reply → PooledClient → PooledClient
after_send result l = record l { client = (send result l.client).1 }

answered : HttpConfig → Timed Reply → PooledClient → Exchanged
unfolding send invalidate debug_duration collected
answered config elapsed l =
    (err (timed_out_after (codes "backend request") config.timeout), invalidate l)
answered config (failed error) l =
    (err (backend_connect error), invalidate (after_send (err error) l))
answered config (finished reply) l = collected config reply reply.body (after_send (ok reply) l)

built : HttpConfig → BackendEnv → Outbound → Option Bytes → PooledClient → Exchanged
unfolding answered
built config env out (some error) l = (err (other (codes "build outbound request: " ++ error)), l)
built config env out none l = answered config (env.answer out) l

-- What is done with a lease: the result, and the lease as it is dropped.
unfoldable pub exchange : HttpConfig → BackendEnv → Request → Bytes → PooledClient → Exchanged
unfolding built request_body outbound
exchange config env request host l = elim (request_body config request) [
  | err e ↦ (err e, l)
  | ok body ↦ let out = outbound request host body in built config env out (env.build_error out) l
]

module _ (M : MapApi Bytes Pool) where
  abbrev with_lease :
      HttpConfig
      → BackendEnv
      → Request
      → Bytes
      → Result ProxyError PooledClient × Pool
      → Result ProxyError Response × Pool
  with_lease config env request host (err e, p) = (err e, p)
  with_lease config env request host (ok l, p) =
      let out = exchange config env request host l in (out.0, drop_lease env.ready_after out.1 p)

  -- What a dial for the pool gives.
  abbrev dial : HttpConfig → BackendEnv → Pool → Dialed
  dial config env p = connect p.endpoint config.connect_timeout env.stream env.nodelay env.handshake

  -- The pool is shared: its changes are the registry's entry after the call.
  unfoldable pub forward_request :
      HttpConfig → BackendEnv → Request → Bytes → M.Map → Result ProxyError Response × M.Map
  unfolding authority host_value get_or_create acquire connect drop_lease
  forward_request config env request endpoint m =
      let target = parse_endpoint endpoint 80 in
      let key = authority target.0 target.1 in
      let found = get_or_create M key config.pool_size m in
      let out =
        with_lease config env request (host_value target.0 target.1)
          (acquire env.wait env.ready_before (dial config env found.0) found.0) in
      (out.0, M.insert key out.1 found.1)
