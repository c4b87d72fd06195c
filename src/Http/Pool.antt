-- ===== src/Http/Pool.antt =====
-- The pool of backend clients, rust/crates/utopia-proxy/src/server/http/pool.rs. A client is hyper's sender, known
-- by a number, and the flag of its health. What is ready, what a dial gives and how the wait for a permit ends
-- are arguments; the semaphore is the number of its free permits.
pub mod Shared
use protocol_proxy.Text.Durations.{debug_duration}
use protocol_proxy.External.{MapApi, Timed, failed, finished, elapsed}
use protocol_proxy.Prelude.{
  ◌>>=◌, bytes_eq, [], ◌∷◌, none, some, true, false, ok, err, suc, if◌then◌else◌, codes, ◌++◌, ◌&&◌,
  Bytes, ℕ, Option, Result, List, Bool, length, ◌-◌, map_err,
}
use protocol_proxy.Resolver.{ProxyError, other, Duration, backend_connect}

pub record Client : Type 0 where
  pub sender : ℕ
  pub healthy : Bool

-- `is_healthy`; `ready` is `SendRequest::is_ready` at the time of the call.
unfoldable pub is_healthy : (ℕ → Bool) → Client → Bool
is_healthy ready c = c.healthy && ready c.sender

-- `send`: an error of hyper's marks the client.
unfoldable pub send {ℓ} : {A : Type ℓ} → Result Bytes A → Client → Result Bytes A × Client
send (ok response) c = (ok response, c)
send (err e) c = (err e, record c { healthy = false })

pub record Pool : Type 0 where
  pub endpoint : Bytes
  pub capacity : ℕ
  pub idle : List Client

unfoldable pub new_pool : Bytes → ℕ → Pool
new_pool endpoint size = record { endpoint = endpoint; capacity = size; idle = [] }

unfoldable pub idle_len : Pool → ℕ
idle_len p = length p.idle

-- The first idle client, taken out, and given if it is healthy.
unfoldable pub pop_idle : (ℕ → Bool) → Pool → Option Client × Pool
unfolding is_healthy
pop_idle ready p = elim p.idle [
  | [] ↦ (none, p)
  | c ∷ rest ↦ (if is_healthy ready c then some c else none, record p { idle = rest })
]

unfoldable pub release : (ℕ → Bool) → Client → Pool → Pool
unfolding is_healthy
release ready c p = if is_healthy ready c then record p { idle = p.idle ++ c ∷ [] } else p

-- A permit taken and a permit given back.
unfoldable pub take_permit : Pool → Pool
take_permit p = record p { capacity = p.capacity - 1 }

unfoldable pub add_permit : Pool → Pool
add_permit p = record p { capacity = suc p.capacity }

-- What `acquire` leases; the pool of a lease is there exactly if the permit is.
pub record PooledClient : Type 0 where
  pub permit : Bool
  pub client : Client

-- How the wait for a permit ends.
pub data Wait : Type 0 where
  granted closed timed_out : Wait

-- What dialing gives: a connection's sender, or the error of `connect`.
abbrev pub Dialed : Type 0
Dialed = Result ProxyError ℕ

-- `connect`: what opening the stream, the socket option and hyper's handshake give.
unfoldable pub connect :
    Bytes → Duration → Timed (Unit {0}) → Result Bytes (Unit {0}) → Result Bytes ℕ → Dialed
unfolding debug_duration
connect endpoint limit elapsed nodelay handshake = err (
    backend_connect
      (codes "connect to " ++ (endpoint ++ (codes " timed out after " ++ debug_duration limit))))
connect endpoint limit (failed error) nodelay handshake = err (backend_connect error)
connect endpoint limit (finished stream) nodelay handshake =
    map_err backend_connect (do _ ← nodelay; handshake)

unfoldable pub lease : Bool → ℕ → PooledClient
lease permit sender = record {
  permit = permit;
  client = record { sender = sender; healthy = true };
}

abbrev lease_dialed : Bool → Dialed → Pool → Result ProxyError PooledClient × Pool
lease_dialed permit (ok sender) p = (ok (lease permit sender), p)
lease_dialed permit (err e) p = (err e, if permit then add_permit p else p)

-- With a permit: an idle client if it is healthy, or else a new one.
abbrev choose_or_dial : Dialed → Option Client × Pool → Result ProxyError PooledClient × Pool
choose_or_dial dialed (some c, p) = (ok (record { permit = true; client = c }), p)
choose_or_dial dialed (none, p) = lease_dialed true dialed p

unfoldable pub acquire : Wait → (ℕ → Bool) → Dialed → Pool → Result ProxyError PooledClient × Pool
unfolding pop_idle take_permit add_permit lease
acquire closed ready dialed p = (err (other (codes "pool closed")), p)
acquire timed_out ready dialed p = lease_dialed false dialed p
acquire granted ready dialed p = choose_or_dial dialed (pop_idle ready (take_permit p))

unfoldable pub invalidate : PooledClient → PooledClient
invalidate l = record l { client = record l.client { healthy = false } }

-- `Drop`: the client goes back before the permit does.
unfoldable pub drop_lease : (ℕ → Bool) → PooledClient → Pool → Pool
unfolding release add_permit
drop_lease ready l p = if l.permit then add_permit (release ready l.client p) else p

-- `Pools`: the registry of pools by endpoint.
unfoldable pub get_or_create : (M : MapApi Bytes Pool) → Bytes → ℕ → M.Map → Pool × M.Map
unfolding new_pool
get_or_create M endpoint size m = elim (M.get endpoint m) [
  | some existing ↦ (existing, m)
  | none ↦ let p = new_pool endpoint size in (p, M.insert endpoint p m)
]
