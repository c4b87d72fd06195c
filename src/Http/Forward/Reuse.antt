-- ===== src/Http/Forward/Reuse.antt =====
-- When a client is fit for another request: what an exchange leaves of it.
use protocol_proxy.Resolver.{ProxyError}
use protocol_proxy.External.{Timed, finished, failed, elapsed}
use protocol_proxy.Http.Forward.{
  collected, answered, built, Exchanged, BackendEnv, Reply, Request, exchange, client_response,
  request_body, outbound,
}
use protocol_proxy.Http.Pool.{PooledClient, send, invalidate}
use protocol_proxy.Http.Config.{HttpConfig}
use protocol_proxy.Prelude.{
  some, false, ok, err, inl, inr, refl, Bytes, ◌≡◌, ◌⊎◌, none, Result-cases, Option,
}

module _ (config : HttpConfig) (l : PooledClient) where
  abbrev pub IsUnhealthy : Exchanged → Type 0
  IsUnhealthy out = (e : ProxyError) × (out.0 ≡ err e) × (out.1.client.healthy ≡ false)

  -- The whole reply was read, and the response is made of it.
  abbrev pub IsRead : Timed Reply → Exchanged → Type 0
  IsRead answer out =
      (reply : Reply) × (body : Bytes) × (answer ≡ finished reply)
      × (reply.body ≡ finished body)
      × (out ≡ (ok (client_response config reply body), l))

  collected-cases :
      (reply : Reply) (b : Timed Bytes)
      → reply.body ≡ b
      → IsRead (finished reply) (collected config reply b l)
        ⊎ IsUnhealthy (collected config reply b l)
  unfolding collected invalidate
  collected-cases reply (finished body) e = inl (reply, body, refl, e, refl)
  collected-cases reply (failed error) e = inr (_, refl, refl)
  collected-cases reply elapsed e = inr (_, refl, refl)

  answered-cases :
      (answer : Timed Reply)
      → IsRead answer (answered config answer l) ⊎ IsUnhealthy (answered config answer l)
  unfolding answered send invalidate
  answered-cases (finished reply) = collected-cases reply reply.body refl
  answered-cases (failed error) = inr (_, refl, refl)
  answered-cases elapsed = inr (_, refl, refl)

  module _ (env : BackendEnv) (request : Request) (host : Bytes) where
    -- Nothing was sent, and the lease is as it was.
    abbrev pub IsUnsent : Exchanged → Type 0
    IsUnsent out =
        ((e : ProxyError) × (request_body config request ≡ err e) × (out ≡ (err e, l)))
        ⊎ ((body : Bytes) × (message : Bytes) × (e : ProxyError) × (request_body config request
              ≡ ok body)
            × (env.build_error (outbound request host body) ≡ some message)
            × (out ≡ (err e, l)))

    abbrev pub IsAnswered : Exchanged → Type 0
    IsAnswered out =
        (body : Bytes) × (request_body config request ≡ ok body)
        × IsRead (env.answer (outbound request host body)) out

    built-cases :
        (body : Bytes) (o : Option Bytes)
        → request_body config request ≡ ok body
        → env.build_error (outbound request host body) ≡ o
        → let out = built config env (outbound request host body) o l in
          (IsUnsent out ⊎ IsAnswered out) ⊎ IsUnhealthy out
    unfolding built
    built-cases body (some message) r e = inl (inl (inr (body, message, _, r, e, refl)))
    built-cases body none r e = elim (answered-cases (env.answer (outbound request host body))) [
      | inl read ↦ inl (inr (body, r, read))
      | inr lost ↦ inr lost
    ]

    exchange-err :
        (e : ProxyError)
        → request_body config request ≡ err e
        → exchange config env request host l ≡ (err e, l)
    unfolding exchange
    exchange-err e unread = rw (unread, exchange) refl

    exchange-ok :
        (body : Bytes)
        → request_body config request ≡ ok body
        → exchange config env request host l
          ≡ (let out = outbound request host body in built config env out (env.build_error out) l)
    unfolding exchange
    exchange-ok body read = rw (read, exchange) refl

    -- Every exchange ends in one of three ways: an error before anything is sent, which leaves the lease as it
    -- was; the response that is made of a reply read whole, which leaves it too; or an error after which the
    -- client is marked, so that no other request gets it.
    pub exchange-cases :
        let out = exchange config env request host l in
        (IsUnsent out ⊎ IsAnswered out) ⊎ IsUnhealthy out
    exchange-cases = elim (Result-cases (request_body config request)) [
      | inl (e, unread) ↦ inl (inl (inl (e, unread, exchange-err e unread)))
      | inr (body, read) ↦ rw (exchange-ok body read) (built-cases body _ read refl)
    ]
