-- ===== src/Http/Forward/Permits.antt =====
-- A request gives back the permit that it takes, however it ends.
use protocol_proxy.Adapter.Endpoint.{parse_endpoint}
use protocol_proxy.Resolver.{ProxyError}
use protocol_proxy.External.{Timed, finished, failed, MapApi, elapsed, IsMap}
use protocol_proxy.Http.Pool.{
  invalidate, PooledClient, drop_lease, acquire, release, pop_idle, Pool, add_permit, take_permit,
  lease, Wait, Dialed, get_or_create, new_pool,
}
use protocol_proxy.Http.Forward.{
  dial, with_lease, collected, answered, built, BackendEnv, Request, Reply, Outbound, exchange,
  request_body, forward_request, authority, host_value,
}
use protocol_proxy.Http.Config.{HttpConfig}
use protocol_proxy.Prelude.{
  bytes_eq, refl, ◌≡◌, Bytes, none, some, true, false, ok, err, inl, inr, Result-cases, arith,
  if◌then◌else◌, ◌∙◌, ap, Bool, Result, Option, ℕ, ◌+◌, bytes_beq, ◌<◌,
}

-- When a wait can end so: with a permit only if one is free, and the semaphore is never closed.
abbrev pub CanEnd : Wait → Pool → Type 0
CanEnd Wait.granted p = 0 < p.capacity
CanEnd Wait.timed_out p = Unit {0}
CanEnd Wait.closed p = ⊥

module _ (config : HttpConfig) (env : BackendEnv) (request : Request) (host : Bytes) where
  collected-permit :
      (reply : Reply) (b : Timed Bytes) (l : PooledClient)
      → (collected config reply b l).1.permit ≡ l.permit
  unfolding collected invalidate
  collected-permit reply (finished body) l = refl
  collected-permit reply (failed error) l = refl
  collected-permit reply elapsed l = refl

  answered-permit :
      (answer : Timed Reply) (l : PooledClient) → (answered config answer l).1.permit ≡ l.permit
  unfolding answered invalidate
  answered-permit (finished reply) l =
      collected-permit reply reply.body (record l { client = l.client })
  answered-permit (failed error) l = refl
  answered-permit elapsed l = refl

  built-permit :
      (out : Outbound) (o : Option Bytes) (l : PooledClient)
      → (built config env out o l).1.permit ≡ l.permit
  unfolding built
  built-permit out (some message) l = refl
  built-permit out none l = answered-permit (env.answer out) l

  exchange-permit : (l : PooledClient) → (exchange config env request host l).1.permit ≡ l.permit
  unfolding exchange
  exchange-permit l = elim (Result-cases (request_body config request)) [
    | inl (e, unread) ↦ rw (unread, exchange) refl
    | inr (body, read) ↦ rw (read, exchange) (built-permit _ _ l)
  ]

abbrev of_bool : Bool → ℕ
of_bool true = 1
of_bool false = 0

drop_lease-capacity :
    (ready : ℕ → Bool) (l : PooledClient) (p : Pool)
    → (drop_lease ready l p).capacity ≡ p.capacity + of_bool l.permit
unfolding drop_lease release add_permit
drop_lease-capacity ready l p = ground arith

-- What `acquire` has taken of the permits.
abbrev taken : Result ProxyError PooledClient → ℕ
taken (ok l) = of_bool l.permit
taken (err e) = 0

acquire-capacity :
    (wait : Wait) (ready : ℕ → Bool) (dialed : Dialed) (p : Pool)
    → CanEnd wait p
    → let out = acquire wait ready dialed p in out.1.capacity + taken out.0 ≡ p.capacity
unfolding acquire pop_idle take_permit add_permit lease
acquire-capacity Wait.granted ready (ok sender) p h = ground arith
acquire-capacity Wait.granted ready (err e) p h = ground arith
acquire-capacity Wait.timed_out ready (ok sender) p h = omega arith
acquire-capacity Wait.timed_out ready (err e) p h = omega arith
acquire-capacity Wait.closed ready dialed p h = elim h [ ]

-- The name under which an endpoint's pool stands: the host and the port that are dialed.
abbrev pub pool_key : Bytes → Bytes
pool_key endpoint = let target = parse_endpoint endpoint 80 in authority target.0 target.1

module _ (M : MapApi Bytes Pool) (config : HttpConfig) (env : BackendEnv) (request : Request) where
  with_lease-capacity :
      (host : Bytes) (r : Result ProxyError PooledClient) (p : Pool)
      → (with_lease M config env request host (r, p)).1.capacity ≡ p.capacity + taken r
  with_lease-capacity host (err e) p = omega arith
  with_lease-capacity host (ok l) p =
      let out = exchange config env request host l in
      drop_lease-capacity env.ready_after out.1 p
      ∙ ap (λ permit. p.capacity + of_bool permit) (exchange-permit config env request host l)

  -- The pool of an endpoint.
  abbrev pub pool_of : Bytes → M.Map → Pool
  pool_of endpoint m = (get_or_create M (pool_key endpoint) config.pool_size m).0

  -- What one request leaves of its pool.
  abbrev pub pool_after : Bytes → M.Map → Pool
  pool_after endpoint m =
      let target = parse_endpoint endpoint 80 in
      (with_lease M config env request (host_value target.0 target.1) (
        acquire env.wait env.ready_before (dial M config env (pool_of endpoint m))
          (pool_of endpoint m))).1

  pool_after-capacity :
      (endpoint : Bytes) (m : M.Map)
      → CanEnd env.wait (pool_of endpoint m)
      → (pool_after endpoint m).capacity ≡ (pool_of endpoint m).capacity
  pool_after-capacity endpoint m can_end =
      let target = parse_endpoint endpoint 80 in
      let out =
        acquire env.wait env.ready_before (dial M config env (pool_of endpoint m))
          (pool_of endpoint m) in
      with_lease-capacity (host_value target.0 target.1) out.0 out.1
      ∙ acquire-capacity env.wait env.ready_before (dial M config env (pool_of endpoint m))
          (pool_of endpoint m) can_end

  pub get-insert-get_or_create :
      (laws : IsMap Bytes Pool M) (k j : Bytes) (p : Pool) (m : M.Map)
      → M.get j (M.insert k p (get_or_create M k config.pool_size m).1)
        ≡ (if bytes_beq k j then some p else M.get j m)
  unfolding get_or_create
  get-insert-get_or_create laws k j p m =
      let fresh = new_pool k config.pool_size in
      ground (
        arith,
        laws.get-insert k j p m,
        laws.get-insert k j p (M.insert k fresh m),
        laws.get-insert k j fresh m,
      )

  -- Where the semaphore is not closed and grants a permit only if one is free: however a request ends, its pool has as
  -- many free permits as before, and no other pool has changed.
  pub forward_request-capacity :
      (laws : IsMap Bytes Pool M) (endpoint key : Bytes) (m : M.Map)
      → CanEnd env.wait (pool_of endpoint m)
      → (p : Pool) × (p.capacity ≡ (pool_of endpoint m).capacity)
        × (M.get key (forward_request M config env request endpoint m).1
            ≡ (if bytes_beq (pool_key endpoint) key then some p else M.get key m))
  unfolding forward_request
  forward_request-capacity laws endpoint key m can_end = (
    pool_after endpoint m,
    pool_after-capacity endpoint m can_end,
    get-insert-get_or_create laws (pool_key endpoint) key (pool_after endpoint m) m,
  )
