-- ===== src/Http/Forward/Confined.antt =====
-- Which backends the pools of rust/crates/utopia-proxy/src/server/http/handler.rs connect to.
use protocol_proxy.Resolver.{ProxyError}
use protocol_proxy.Adapter.Endpoint.{parse_endpoint}
use protocol_proxy.Adapter.Route.Validated.{IsSafe}
use protocol_proxy.External.{MapApi, IsMap}
use protocol_proxy.Http.Pool.{
  acquire, drop_lease, pop_idle, release, take_permit, add_permit, Pool, lease, Wait, get_or_create,
  Dialed, PooledClient, new_pool,
}
use protocol_proxy.Http.Config.{HttpConfig}
use protocol_proxy.Http.Forward.Permits.{pool_key, pool_of, pool_after, get-insert-get_or_create}
use protocol_proxy.Http.Forward.{
  with_lease, dial, BackendEnv, forward_request, Request, host_value, exchange,
}
use protocol_proxy.Prelude.{
  bytes_eq, bytes_beq, bytes_beq_iff, some, ok, err, inl, inr, refl, Bool-cases, Option-cases,
  arith, ◌≡◌, sym, ◌∙◌, ◌⊎◌, Bytes, ℕ, Bool, Result,
}

-- An endpoint that the settings fix, or one that may be dialed.
abbrev pub MayDial : HttpConfig → Bytes → Type 0
MayDial config endpoint = (config.fixed_backend ≡ some endpoint) ⊎ IsSafe endpoint

acquire-endpoint :
    (wait : Wait) (ready : ℕ → Bool) (dialed : Dialed) (p : Pool)
    → (acquire wait ready dialed p).1.endpoint ≡ p.endpoint
unfolding acquire pop_idle take_permit add_permit lease
acquire-endpoint Wait.closed ready dialed p = refl
acquire-endpoint Wait.timed_out ready (ok sender) p = refl
acquire-endpoint Wait.timed_out ready (err e) p = refl
acquire-endpoint Wait.granted ready (ok sender) p = ground arith
acquire-endpoint Wait.granted ready (err e) p = ground arith

drop_lease-endpoint :
    (ready : ℕ → Bool) (l : PooledClient) (p : Pool) → (drop_lease ready l p).endpoint ≡ p.endpoint
unfolding drop_lease release add_permit
drop_lease-endpoint ready l p = ground arith

module _ (M : MapApi Bytes Pool) (map_laws : IsMap Bytes Pool M) (config : HttpConfig) where
  -- Every pool is kept under the host and the port that it dials, those of an endpoint that may be dialed.
  abbrev pub AreConfined : M.Map → Type 0
  AreConfined m =
      (key : Bytes) (p : Pool)
      → M.get key m ≡ some p
      → (endpoint : Bytes) × MayDial config endpoint
        × (key ≡ pool_key endpoint)
        × (p.endpoint ≡ pool_key endpoint)

  with_lease-endpoint :
      (env : BackendEnv) (request : Request) (host : Bytes) (r : Result ProxyError PooledClient)
      (p : Pool)
      → (with_lease M config env request host (r, p)).1.endpoint ≡ p.endpoint
  with_lease-endpoint env request host (err e) p = refl
  with_lease-endpoint env request host (ok l) p =
      drop_lease-endpoint env.ready_after (exchange config env request host l).1 p

  get_or_create-endpoint :
      (key : Bytes) (size : ℕ) (m : M.Map)
      → ((p : Pool) → M.get key m ≡ some p → p.endpoint ≡ key)
      → (get_or_create M key size m).0.endpoint ≡ key
  unfolding get_or_create new_pool
  get_or_create-endpoint key size m h = elim (Option-cases (M.get key m)) [
    | inl missing ↦ rw (missing, get_or_create) refl
    | inr (p, found) ↦ rw (found, get_or_create) (h p found)
  ]

  pool_of-endpoint :
      (env : BackendEnv) (request : Request) (endpoint : Bytes) (m : M.Map)
      → AreConfined m
      → (pool_of M config env request endpoint m).endpoint ≡ pool_key endpoint
  pool_of-endpoint env request endpoint m h =
      get_or_create-endpoint (pool_key endpoint) config.pool_size m
        (λ p found. let (e, may, key, dialed) = h (pool_key endpoint) p found in dialed ∙ sym key)

  pool_after-endpoint :
      (env : BackendEnv) (request : Request) (endpoint : Bytes) (m : M.Map)
      → AreConfined m
      → (pool_after M config env request endpoint m).endpoint ≡ pool_key endpoint
  pool_after-endpoint env request endpoint m h =
      let target = parse_endpoint endpoint 80 in
      let p = pool_of M config env request endpoint m in
      let out = acquire env.wait env.ready_before (dial M config env p) p in
      with_lease-endpoint env request (host_value target.0 target.1) out.0 out.1
      ∙ acquire-endpoint env.wait env.ready_before (dial M config env p) p
      ∙ pool_of-endpoint env request endpoint m h

  pub forward_request-AreConfined :
      (env : BackendEnv) (request : Request) (endpoint : Bytes) (m : M.Map)
      → MayDial config endpoint
      → AreConfined m
      → AreConfined (forward_request M config env request endpoint m).1
  unfolding forward_request
  forward_request-AreConfined env request endpoint m may h key p found =
      let after = pool_after M config env request endpoint m in
      let written =
        get-insert-get_or_create M config env request map_laws (pool_key endpoint) key after m in
      elim (Bool-cases (bytes_beq (pool_key endpoint) key)) [
        | inl same ↦ (
          endpoint,
          may,
          sym ((bytes_beq_iff (pool_key endpoint) key).0 same),
          ground (arith, written, same, found, pool_after-endpoint env request endpoint m h),
        )
        | inr other ↦ h key p (ground (arith, written, other, found))
      ]
