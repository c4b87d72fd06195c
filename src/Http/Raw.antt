-- ===== src/Http/Raw.antt =====
-- `forward_raw_request` of rust/crates/utopia-proxy/src/server/http/handler.rs: a request over a connection of its own.
-- A response comes as the backend's bytes and a list of what each `read` gives: how many bytes at most, or an
-- error. Where the list ends, the call still waits.
mod Search
pub mod Framing
use protocol_proxy.Adapter.Endpoint.{parse_endpoint}
use protocol_proxy.Http.Pool.{Pool}
use protocol_proxy.Http.Names.{find_subslice}
use protocol_proxy.Http.Forward.{
  host_value, authority, Response, Request, forward_request, BackendEnv, is_get_or_head,
}
use protocol_proxy.Http.Config.{HttpConfig}
use protocol_proxy.Http.Heads.{Head, parse_head}
use protocol_proxy.Resolver.{ProxyError, other, backend_connect}
use protocol_proxy.External.{Timed, MapApi, failed, finished, elapsed}
use protocol_proxy.Prelude.{
  [], ◌∷◌, none, some, true, false, ok, err, if◌then◌else◌, codes, ◌++◌, Bytes, ℕ, Option, Result,
  List, take, drop, min, ◌+◌, ltb, length, unwrap_or, bytes_beq, is_empty, ◌-◌,
}

-- What happens around one raw request: connecting, the socket option, writing, the backend's bytes for what was
-- written, the reads, and the error with which a response is not built.
pub record RawEnv : Type 0 where
  pub connected : Timed (Unit {0})
  pub nodelay : Result Bytes (Unit {0})
  pub written : Timed (Unit {0})
  pub incoming : Bytes → Bytes
  pub reads : List (Timed ℕ)
  pub build_error : Head → Option Bytes

abbrev pub Reads : Type 0
Reads = List (Timed ℕ)

-- What `read` puts in a chunk of so many bytes, and what stays.
abbrev pub chunk : ℕ → ℕ → Bytes → Bytes
chunk cap n stream = take (min n cap) stream

abbrev pub after_chunk : ℕ → ℕ → Bytes → Bytes
after_chunk cap n stream = drop (min n cap) stream

abbrev separator : Bytes
separator = codes "\r\n\r\n"

abbrev pub read_failed : Bytes → ProxyError
read_failed error = other (codes "read failed: " ++ error)

-- The head, and what is read of the body already; the stream and the reads that are left.
pub record Received : Type 0 where
  pub head : Bytes
  pub buffer : Bytes
  pub stream : Bytes
  pub reads : Reads

abbrev cut : ℕ → Bytes → Bytes → Reads → Received
cut position buffer stream reads = record {
  head = take position buffer;
  buffer = drop (position + 4) buffer;
  stream = stream;
  reads = reads;
}

-- The loop that reads up to the empty line.
unfoldable pub read_head : Bytes → Bytes → Reads → Option (Result ProxyError Received)
read_head buffer stream [] = elim (find_subslice buffer separator) [
  | some position ↦ some (ok (cut position buffer stream []))
  | none ↦ none
]
read_head buffer stream (r ∷ reads) = elim (find_subslice buffer separator) [
  | some position ↦ some (ok (cut position buffer stream (r ∷ reads)))
  | none ↦ elim r [
    | elapsed ↦ some (err (other (codes "read timed out")))
    | failed error ↦ some (err (read_failed error))
    | finished n ↦
        if is_empty (chunk 8192 n stream)
        then some (err (other (codes "backend closed before headers")))
        else read_head (buffer ++ chunk 8192 n stream) (after_chunk 8192 n stream) reads
  ]
]

-- The loop that reads the body up to its length.
unfoldable pub read_rest : ℕ → Bytes → Bytes → Reads → Option (Result ProxyError Bytes)
read_rest total body stream [] = if ltb (length body) total then none else some (ok body)
read_rest total body stream (r ∷ reads) = elim (ltb (length body) total) [
  | false ↦ some (ok body)
  | true ↦ elim r [
    | elapsed ↦ some (err (other (codes "read timed out")))
    | failed error ↦ some (err (read_failed error))
    | finished n ↦
        let cap = min (total - length body) 8192 in
        if is_empty (chunk cap n stream)
        then some (err (other (codes "backend closed mid-body")))
        else read_rest total (body ++ chunk cap n stream) (after_chunk cap n stream) reads
  ]
]

-- The body: what has come already where no length is given, or so many bytes.
unfoldable pub read_body : Head → Received → Option (Result ProxyError Bytes)
unfolding read_rest
read_body head got = elim head.content_length [
  | none ↦ some (ok got.buffer)
  | some total ↦
      if head.chunked then some (ok got.buffer) else read_rest total got.buffer got.stream got.reads
]

unfoldable pub build_response : RawEnv → Head → Result ProxyError Bytes → Result ProxyError Response
build_response env head (err e) = err e
build_response env head (ok body) = elim (env.build_error head) [
  | some error ↦ err (other (codes "build response: " ++ error))
  | none ↦ ok (record { status = head.status; headers = head.headers; body = body })
]

abbrev build_when :
    RawEnv → Head → Option (Result ProxyError Bytes) → Option (Result ProxyError Response)
build_when env head none = none
build_when env head (some r) = some (build_response env head r)

abbrev with_head : RawEnv → Received → Result ProxyError Head → Option (Result ProxyError Response)
with_head env got (err e) = some (err e)
with_head env got (ok head) = build_when env head (read_body head got)

abbrev with_received :
    HttpConfig → RawEnv → Result ProxyError Received → Option (Result ProxyError Response)
with_received config env (err e) = some (err e)
with_received config env (ok got) = with_head env got (parse_head config got.head)

-- The response that is read from the backend's bytes.
unfoldable pub read_response : HttpConfig → RawEnv → Bytes → Option (Result ProxyError Response)
unfolding read_head read_body build_response parse_head
read_response config env stream = elim (read_head [] stream env.reads) [
  | none ↦ none
  | some r ↦ with_received config env r
]

unfoldable pub request_line : Request → Bytes → ℕ → Bytes
unfolding host_value
request_line request host port =
    request.method
    ++ (codes " "
        ++ (unwrap_or request.path_and_query (codes "/")
            ++ (codes " HTTP/1.1\r\nHost: "
                ++ (host_value host port ++ codes "\r\nConnection: keep-alive\r\n\r\n"))))

-- A write that fails is not looked at; only its time-out is.
abbrev after_write :
    HttpConfig → RawEnv → Bytes → Timed (Unit {0}) → Option (Result ProxyError Response)
after_write config env line elapsed =
    some (err (other (codes "write request timed out: deadline has elapsed")))
after_write config env line (failed error) = read_response config env (env.incoming line)
after_write config env line (finished done) = read_response config env (env.incoming line)

abbrev after_nodelay :
    HttpConfig → RawEnv → Bytes → Result Bytes (Unit {0}) → Option (Result ProxyError Response)
after_nodelay config env line (err error) = some (err (backend_connect error))
after_nodelay config env line (ok done) = after_write config env line env.written

unfoldable pub raw_exchange :
    HttpConfig → RawEnv → Request → Bytes → ℕ → Option (Result ProxyError Response)
unfolding read_response request_line authority
raw_exchange config env request host port = elim env.connected [
  | elapsed ↦
      some
        (err (backend_connect (codes "connect to " ++ (authority host port ++ codes " timed out"))))
  | failed error ↦ some (err (backend_connect error))
  | finished done ↦ after_nodelay config env (request_line request host port) env.nodelay
]

module _ (M : MapApi Bytes Pool) where
  abbrev after_raw :
      M.Map → Option (Result ProxyError Response) → Option (Result ProxyError Response × M.Map)
  after_raw m none = none
  after_raw m (some r) = some (r, m)

  unfoldable pub forward_raw_request :
      HttpConfig
      → BackendEnv
      → RawEnv
      → Request
      → Bytes
      → M.Map
      → Option (Result ProxyError Response × M.Map)
  unfolding raw_exchange forward_request parse_endpoint bytes_beq
  forward_raw_request config env raw request endpoint m =
      let target = parse_endpoint endpoint 80 in
      if is_get_or_head request.method
      then after_raw m (raw_exchange config raw request target.0 target.1)
      else some (forward_request M config env request endpoint m)
