-- ===== src/Http/Server/Tasks/Confined.antt =====
-- Where the requests that an HTTP worker serves at once can be forwarded to.
use protocol_proxy.Http.Pool.Shared as Shared
use protocol_proxy.Http.Forward.Permits.{pool_key}
use protocol_proxy.Http.Pool.{
  Pool, get_or_create, new_pool, take_permit, add_permit, pop_idle, release,
}
use protocol_proxy.Http.Config.{HttpConfig}
use protocol_proxy.Net.{IpAddr}
use protocol_proxy.Dns.{DnsState}
use protocol_proxy.Resolver.{Resolver}
use protocol_proxy.Adapter.Route.{CacheEntry}
use protocol_proxy.Http.Choice.{Handler}
use protocol_proxy.Http.Choice.Confined.{IsConfined, choose_endpoint-IsChosen}
use protocol_proxy.Http.Forward.Confined.{MayDial, AreConfined}
use protocol_proxy.Http.Server.Confined.{IsPlain, run_worker-IsConfined}
use protocol_proxy.Http.Server.{run_worker, Hook}
use protocol_proxy.External.{CacheApi, MapApi, IsMap, IsCache}
use protocol_proxy.Http.Server.Tasks.{
  Job, arrived, forwarding, pooled, Move, System, Step, Reach, handles, responds, refuses, abandons,
  chooses, leaves, joins, works, arrives, moves, starts, later,
}
use protocol_proxy.Prelude.{
  bytes_eq, [], ◌∷◌, false, true, ◌++◌, map, Bytes, List, ◌≡◌, inl, inr, refl, sym, ◌∙◌, ap, subst,
  bytes_beq, bytes_beq_iff, Bool-cases, Option-cases, arith, ℕ, Option,
}

Move-endpoint :
    {p q : Pool} {t : Shared.Task} {rest : List Shared.Task}
    → Shared.Move p t q rest
    → q.endpoint ≡ p.endpoint
unfolding take_permit add_permit pop_idle release
Move-endpoint (Shared.granted free) = refl
Move-endpoint (Shared.timed_out taken) = refl
Move-endpoint Shared.leaves = refl
Move-endpoint {p} (Shared.chooses ready) = ground arith
Move-endpoint (Shared.connects permit sender) = refl
Move-endpoint (Shared.fails true) = refl
Move-endpoint (Shared.fails false) = refl
Move-endpoint (Shared.invalidates {l}) = refl
Move-endpoint (Shared.returns {l} ready e) = ground arith
Move-endpoint (Shared.discards {l} e) = refl
Move-endpoint Shared.frees = refl

module _ (config : HttpConfig) where
  -- An endpoint that a request is to be forwarded to may be dialed, and a request works with the pool of such a one.
  abbrev pub IsAllowed : Job → Type 0
  IsAllowed (arrived request) = Unit {0}
  IsAllowed (forwarding request endpoint) = MayDial config endpoint
  IsAllowed (pooled key task) =
      (endpoint : Bytes) × MayDial config endpoint × (key ≡ pool_key endpoint)

  abbrev pub AreAllowed : List Job → Type 0
  AreAllowed [] = Unit {0}
  AreAllowed (job ∷ jobs) = IsAllowed job × AreAllowed jobs

  allowed-join : (xs ys : List Job) → AreAllowed xs → AreAllowed ys → AreAllowed (xs ++ ys)
  allowed-join [] ys a b = b
  allowed-join (x ∷ xs) ys a b = (a.0, allowed-join xs ys a.1 b)

  allowed-split : (xs ys : List Job) → AreAllowed (xs ++ ys) → AreAllowed xs × AreAllowed ys
  allowed-split [] ys a = (_, a)
  allowed-split (x ∷ xs) ys a = let (b, c) = allowed-split xs ys a.1 in ((a.0, b), c)

  allowed-pooled :
      (key : Bytes) (task : Shared.Task) (ts : List Shared.Task)
      → IsAllowed (pooled key task)
      → AreAllowed (map (pooled key) ts)
  allowed-pooled key task [] a = _
  allowed-pooled key task (t ∷ ts) a = (a, allowed-pooled key task ts a)

module _ (C : CacheApi Bytes CacheEntry) (D : CacheApi Bytes IpAddr) (M : MapApi Bytes Pool)
    (laws : IsCache Bytes CacheEntry C) (map_laws : IsMap Bytes Pool M) (config : HttpConfig) where
  -- A write of a pool that dials what its key says.
  insert-AreConfined :
      (key : Bytes) (q : Pool) (m : M.Map)
      → (endpoint : Bytes) × MayDial config endpoint
        × (key ≡ pool_key endpoint)
        × (q.endpoint ≡ pool_key endpoint)
      → AreConfined M map_laws config m
      → AreConfined M map_laws config (M.insert key q m)
  insert-AreConfined key q m new c key' p found =
      let written = map_laws.get-insert key key' q m in
      elim (Bool-cases (bytes_beq key key')) [
        | inr other ↦ c key' p (ground (arith, written, other, found))
        | inl same ↦
            let e : key ≡ key' = (bytes_beq_iff key key').0 same in
            let (endpoint, may, at, dialed) = new in
            let q_p : q ≡ p = ground (arith, written, same, found) in
            (endpoint, may, sym e ∙ at, ap (λ (p : Pool). p.endpoint) (sym q_p) ∙ dialed)
      ]

  get_or_create-AreConfined :
      (endpoint : Bytes) (m : M.Map)
      → MayDial config endpoint
      → AreConfined M map_laws config m
      → AreConfined M map_laws config (get_or_create M (pool_key endpoint) config.pool_size m).1
  unfolding get_or_create new_pool
  get_or_create-AreConfined endpoint m may c =
      let k = pool_key endpoint in
      elim (Option-cases (M.get k m)) [
        | inr (p, found) ↦
            let same : m ≡ (get_or_create M k config.pool_size m).1 = ground (arith, found) in
            subst (AreConfined M map_laws config) same c
        | inl missing ↦
            let same : M.insert k (new_pool k config.pool_size) m
                ≡ (get_or_create M k config.pool_size m).1 =
              ground (arith, missing) in
            subst (AreConfined M map_laws config) same
              (insert-AreConfined k (new_pool k config.pool_size) m (endpoint, may, refl, refl) c)
      ]

  -- A worker and its requests.
  abbrev pub IsTight : Handler C D M → List Job → Type 0
  IsTight h jobs = IsConfined C D M laws map_laws config h × AreAllowed config jobs

  Move-IsTight :
      (h h' : Handler C D M) (job : Job) (rest : List Job)
      → Move C D M config h job h' rest
      → IsConfined C D M laws map_laws config h
      → IsAllowed config job
      → IsTight h' rest
  Move-IsTight h h' job rest (handles handler e) c a = (c, _)
  Move-IsTight h h' job rest (responds body free e) c a = (c, _)
  Move-IsTight h h' job rest (abandons dns) c a = (record { sound = c.sound; pools = c.pools }, _)
  Move-IsTight h h' job rest (refuses {request} env response free none_given e) c a =
      ((choose_endpoint-IsChosen C D M laws map_laws config env request h c).0, _)
  Move-IsTight h h' job rest (chooses {request} env endpoint free none_given e) c a =
      let chosen = choose_endpoint-IsChosen C D M laws map_laws config env request h c in
      (chosen.0, (chosen.1 endpoint e, _))
  Move-IsTight h h' job rest (leaves raw) c a = (c, _)
  Move-IsTight h h' job rest (joins {request} {endpoint} kept) c a = (
    record { sound = c.sound; pools = get_or_create-AreConfined endpoint h.pools a c.pools },
    ((endpoint, a, refl), _),
  )
  Move-IsTight h h' job rest (works {key} {p} {q} {t} {rest = ts} found move) c a =
      let (endpoint, may, at, dialed) = c.pools key p found in
      (
        record {
          sound = c.sound;
          pools =
              insert-AreConfined key q h.pools (endpoint, may, at, Move-endpoint move ∙ dialed)
                c.pools;
        },
        allowed-pooled config key t ts a,
      )

  Step-IsTight :
      {s t : System C D M config}
      → Step C D M config s t
      → IsTight s.handler s.jobs
      → IsTight t.handler t.jobs
  Step-IsTight (arrives request) c = (c.0, (_, c.1))
  Step-IsTight {s} (moves before after rest {job} {h} at move) c =
      let (left, right) =
        allowed-split config before (job ∷ after) (subst (AreAllowed config) at c.1) in
      let (confined, allowed) = Move-IsTight s.handler h job rest move c.0 right.0 in
      (
        confined,
        allowed-join config before (rest ++ after) left
            (allowed-join config rest after allowed right.1),
      )

  Reach-IsTight :
      {start : Handler C D M} {s : System C D M config}
      → IsConfined C D M laws map_laws config start
      → Reach C D M config start s
      → IsTight s.handler s.jobs
  Reach-IsTight c (starts fresh) = (c, _)
  Reach-IsTight c (later r step) = Step-IsTight step (Reach-IsTight c r)

  -- However the requests of a worker interleave, whatever they and the backends say and however the code around
  -- behaves, where validation is on and no start hook changes the adapter: an endpoint that a request is to be
  -- forwarded to is the one that the settings fix, or the text of an address outside the refused ranges with a port
  -- from 1 to 65535 or none; and every pool dials the host and the port of such an endpoint.
  pub Reach-AreConfined :
      (hook : Hook C D M) (resolver : Option Resolver) (dns : DnsState D.Store) (worker_id : ℕ)
      {s : System C D M config}
      → IsPlain C D M laws map_laws config
      → Reach C D M config (run_worker C D M config hook resolver dns worker_id) s
      → AreAllowed config s.jobs × AreConfined M map_laws config s.handler.pools
  Reach-AreConfined hook resolver dns worker_id plain r =
      let tight =
        Reach-IsTight
          (run_worker-IsConfined C D M laws map_laws config hook resolver dns worker_id plain) r in
      (tight.1, tight.0.pools)
