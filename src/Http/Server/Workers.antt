-- ===== src/Http/Server/Workers.antt =====
-- How many workers of the HTTP server start.
use protocol_proxy.Text.Decimal.{print_decimal}
use protocol_proxy.Dns.{DnsState}
use protocol_proxy.Resolver.{Resolver}
use protocol_proxy.Http.Config.{HttpConfig}
use protocol_proxy.Http.Pool.{Pool}
use protocol_proxy.Net.{IpAddr}
use protocol_proxy.Adapter.Route.{CacheEntry}
use protocol_proxy.External.{CacheApi, MapApi}
use protocol_proxy.Http.Server.{
  Bind, Binding, plain, reuse_port, Hook, start, worker_count, bind_workers, is_socket_addr,
  binding,
}
use protocol_proxy.Prelude.{
  [], ◌∷◌, true, false, err, Option, ◌≡◌, ◌<◌, Bool, List, Bytes, suc, inl, inr, refl, Bool-cases,
  Result-cases, arith, codes, ◌++◌, ℕ, ◌-◌,
}

abbrev pub all_reuse : List Binding → Bool
all_reuse [] = true
all_reuse (reuse_port ∷ rest) = all_reuse rest
all_reuse (plain ∷ rest) = false

-- What the system promises: an address that is bound without `SO_REUSEPORT` is not bound a second time.
pub record IsExclusive (bind : Bind) : Type 0 where
  pub taken : (bound : List Binding) → (e : Bytes) × (bind (plain ∷ bound) plain ≡ err e)

worker_count-many :
    (config : HttpConfig)
    → 1 < config.workers
    → worker_count config ≡ suc (suc (config.workers - 2))
unfolding worker_count
worker_count-many config w = omega arith

second_fails :
    (config : HttpConfig) (bind : Bind) (n : ℕ)
    → IsExclusive bind
    → config.enable_reuse_port ≡ false
    → (e : Bytes) × (bind_workers config bind (suc (suc n)) 0 [] ≡ err e)
unfolding bind_workers binding
second_fails config bind n x r = elim (Result-cases (bind [] plain)) [
  | inl (e, failed) ↦ (e, ground (arith, failed, r))
  | inr (done, bound) ↦ let (e, failed) = x.taken [] in (e, ground (arith, bound, failed, r))
]

-- Where the system does not bind an address twice without `SO_REUSEPORT`, a server that does not set that option and
-- has more than one worker cannot start: the second worker binds the address again, and that fails.
pub start-plain :
    (C : CacheApi Bytes CacheEntry) (D : CacheApi Bytes IpAddr) (M : MapApi Bytes Pool)
    (config : HttpConfig) (bind : Bind) (hook : Hook C D M) (resolver : Option Resolver)
    (dns : DnsState D.Store)
    → IsExclusive bind
    → config.enable_reuse_port ≡ false
    → 1 < config.workers
    → (e : Bytes) × (start C D M config bind hook resolver dns ≡ err e)
unfolding start
start-plain C D M config bind hook resolver dns x r w =
    elim (Bool-cases (is_socket_addr (config.host ++ b':' ∷ print_decimal config.port))) [
      | inr bad ↦ (codes "invalid socket address syntax", rw (bad, start) refl)
      | inl good ↦
          let many : worker_count config ≡ suc (suc (config.workers - 2)) =
            worker_count-many config w in
          let (e, failed) = second_fails config bind (config.workers - 2) x r in
          (e, rw (good, start, many, failed) refl)
    ]
