-- ===== src/Http/Server/Tasks.antt =====
-- The requests that one worker of rust/crates/utopia-proxy/src/server/http/server.rs serves at once. Each is a task that
-- runs `Handler::handle`, and between two of its steps any other task may take steps on the handler they share. A step
-- is what happens between two waits: the choice of the endpoint, the look into the registry of pools, and the
-- steps of a pool's task (Pool.Shared). The entry of the registry is the pool that its tasks share. A custom handler
-- is taken to leave the adapter as it is.
pub mod Pooled
pub mod Confined
use protocol_proxy.Dns.{DnsState}
use protocol_proxy.Http.Pool.Shared as Shared
use protocol_proxy.Http.Forward.Permits.{pool_key}
use protocol_proxy.Http.Forward.{Request, Response, is_get_or_head}
use protocol_proxy.Http.Pool.{Pool, get_or_create}
use protocol_proxy.Http.Config.{HttpConfig}
use protocol_proxy.Net.{IpAddr}
use protocol_proxy.Adapter.Route.{CacheEntry}
use protocol_proxy.Http.Choice.{Handler, RequestEnv, choose_endpoint}
use protocol_proxy.External.{CacheApi, MapApi}
use protocol_proxy.Prelude.{
  [], ◌∷◌, none, some, ok, err, false, true, ◌++◌, ◌&&◌, map, Bytes, List, Bool, ◌≡◌, ℕ,
}

-- A request that has arrived, that is to be forwarded to an endpoint, or whose task works with the pool of a key.
pub data Job : Type 0 where
  arrived : Request → Job
  forwarding : (request : Request) (endpoint : Bytes) → Job
  pooled : (key : Bytes) (task : Shared.Task) → Job

-- Whether a request is forwarded over a connection of its own.
abbrev pub is_raw : HttpConfig → Request → Bool
is_raw config request = config.raw_backend && is_get_or_head request.method

module _ (C : CacheApi Bytes CacheEntry) (D : CacheApi Bytes IpAddr) (M : MapApi Bytes Pool)
    (config : HttpConfig) where
  -- One step of one job: the handler after it, and what is left of the job.
  pub data Move (h : Handler C D M) : Job → Handler C D M → List Job → Type 0 where
    handles :
        {request : Request} (handler : ℕ)
        → config.request_handler ≡ some handler
        → Move h (arrived request) h []
    responds :
        {request : Request} (body : Bytes)
        → config.request_handler ≡ none
        → config.direct_response ≡ some body
        → Move h (arrived request) h []
    -- The client goes while its request is routed; names may have been looked up by then.
    abandons :
        {request : Request} (dns : DnsState D.Store)
        → Move h (arrived request) (record h { dns = dns }) []
    refuses :
        {request : Request} (env : RequestEnv) (response : Response)
        → config.request_handler ≡ none
        → config.direct_response ≡ none
        → (choose_endpoint C D M config env request h).0 ≡ err response
        → Move h (arrived request) (choose_endpoint C D M config env request h).1 []
    chooses :
        {request : Request} (env : RequestEnv) (endpoint : Bytes)
        → config.request_handler ≡ none
        → config.direct_response ≡ none
        → (choose_endpoint C D M config env request h).0 ≡ ok endpoint
        → Move h
            (arrived request)
            (choose_endpoint C D M config env request h).1
            (forwarding request endpoint ∷ [])
    leaves :
        {request : Request} {endpoint : Bytes}
        → is_raw config request ≡ true
        → Move h (forwarding request endpoint) h []
    joins :
        {request : Request} {endpoint : Bytes}
        → is_raw config request ≡ false
        → Move h
            (forwarding request endpoint)
            (record h { pools = (get_or_create M (pool_key endpoint) config.pool_size h.pools).1 })
            (pooled (pool_key endpoint) Shared.waiting ∷ [])
    works :
        {key : Bytes} {p q : Pool} {t : Shared.Task} {rest : List Shared.Task}
        → M.get key h.pools ≡ some p
        → Shared.Move p t q rest
        → Move h
            (pooled key t)
            (record h { pools = M.insert key q h.pools })
            (map (pooled key) rest)

  pub record System : Type 0 where
    pub handler : Handler C D M
    pub jobs : List Job

  pub data Step (s : System) : System → Type 0 where
    arrives : (request : Request) → Step s (record s { jobs = arrived request ∷ s.jobs })
    moves :
        (before after rest : List Job) {job : Job} {h : Handler C D M}
        → s.jobs ≡ before ++ job ∷ after
        → Move s.handler job h rest
        → Step s (record { handler = h; jobs = before ++ (rest ++ after) })

  -- What a worker reaches from a handler whose registry is empty.
  pub data Reach (start : Handler C D M) : System → Type 0 where
    starts : start.pools ≡ M.new → Reach start (record { handler = start; jobs = [] })
    later : {s t : System} → Reach start s → Step s t → Reach start t
