-- ===== src/Http/Forward/Headers.antt =====
-- Which headers pass between a client and a backend.
use protocol_proxy.Http.Config.{HttpConfig}
use mathlib.Core.List.{append-nil}
use protocol_proxy.Http.Names.{is_hop_by_hop}
use protocol_proxy.Http.Forward.{
  kept_headers, outbound, relayed_headers, Request, client_response, Reply,
}
use protocol_proxy.Prelude.{
  [], ◌∷◌, refl, arith, if◌then◌else◌, codes, ◌++◌, ◌||◌, List, ◌≡◌, Bytes, bytes_beq,
  bytes_beq_iff,
}

-- The values that a list of headers has for a name, in order.
abbrev pub values : Bytes → List (Bytes × Bytes) → List Bytes
values name [] = []
values name ((n, value) ∷ rest) =
    if bytes_beq n name then value ∷ values name rest else values name rest

values-append :
    (name : Bytes) (a b : List (Bytes × Bytes))
    → values name (a ++ b) ≡ values name a ++ values name b
values-append name [] b = refl
values-append name ((n, value) ∷ a) b = ground (arith, values-append name a b)

values-kept_headers :
    (name : Bytes) (headers : List (Bytes × Bytes))
    → values name (kept_headers headers) ≡ (
        if bytes_beq name (codes "host") || bytes_beq name (codes "connection")
        then []
        else values name headers)
unfolding kept_headers
values-kept_headers name [] = ground arith
values-kept_headers name ((n, value) ∷ rest) =
    ground (arith, values-kept_headers name rest, bytes_beq_iff n name)

-- The request for the backend has one `Host`, the backend's, and no `Connection`; of every other header it has
-- the client's values, in order.
pub outbound-headers :
    (request : Request) (host body name : Bytes)
    → values name (outbound request host body).headers ≡ (
        if bytes_beq (codes "host") name
        then host ∷ []
        else if bytes_beq name (codes "connection")
        then []
        else values name request.headers)
unfolding outbound
outbound-headers request host body name = ground (
  arith,
  values-append name (kept_headers request.headers) ((codes "host", host) ∷ []),
  values-kept_headers name request.headers,
  append-nil (values name request.headers),
  bytes_beq_iff (codes "host") name,
  bytes_beq_iff name (codes "host"),
  bytes_beq_iff name (codes "connection"),
)

values-relayed_headers :
    (name : Bytes) (headers : List (Bytes × Bytes))
    → values name (relayed_headers headers)
      ≡ (if is_hop_by_hop name then [] else values name headers)
unfolding relayed_headers
values-relayed_headers name [] = ground arith
values-relayed_headers name ((n, value) ∷ rest) =
    ground (arith, values-relayed_headers name rest, bytes_beq_iff n name)

-- The response for the client has no header of one connection, and of every other header it has the backend's
-- values, in order; its status is the backend's, or 200 where the settings say so.
client_response-headers :
    (config : HttpConfig) (reply : Reply) (body name : Bytes)
    → let response = client_response config reply body in
      (values name response.headers
        ≡ (if is_hop_by_hop name then [] else values name reply.headers))
      × (response.status ≡ (if config.fast_path_assume_ok then 200 else reply.status))
      × (response.body ≡ body)
unfolding client_response
client_response-headers config reply body name =
    (values-relayed_headers name reply.headers, refl, refl)
