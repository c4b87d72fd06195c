-- ===== src/Http/Pool/Shared/Overflow.antt =====
-- A pool past its size: what a request does whose wait for a permit times out.
use protocol_proxy.Http.Pool.{new_pool, lease, pop_idle, take_permit}
use protocol_proxy.Http.Pool.Shared.Bound.{total, total-append}
use protocol_proxy.Http.Pool.Shared.{
  Task, holding, Reach, System, starts, later, arrives, moves, dialing, Move, connects, choosing,
  chooses,
}
use protocol_proxy.Prelude.{
  [], ◌∷◌, ◌++◌, true, false, zero, suc, refl, arith, ℕ, List, ◌≡◌, Bytes, ◌+◌, ◌-◌, subst, sym,
  Bool,
}

-- The tasks' connections.
abbrev pub live : Task → ℕ
live (holding l) = 1
live t = 0

-- So many requests that each have a client, with a permit or without.
abbrev holders : Bool → ℕ → List Task
holders permit zero = []
holders permit (suc n) = holding (lease permit n) ∷ holders permit n

live-holders : (permit : Bool) (n : ℕ) → total live (holders permit n) ≡ n
live-holders permit zero = refl
live-holders permit (suc n) = omega (arith, live-holders permit n)

-- A pool with so many free permits and no idle client.
abbrev with_free : Bytes → ℕ → List Task → System
with_free endpoint free tasks = record {
  pool = record { endpoint = endpoint; capacity = free; idle = [] };
  tasks = tasks;
}

-- Requests take one permit after another, and each dials a client.
granted-Reach :
    (endpoint : Bytes) (size free n : ℕ)
    → free + n ≡ size
    → Reach endpoint size (with_free endpoint free (holders true n))
unfolding new_pool take_permit pop_idle
granted-Reach endpoint size free zero e =
    let all : free ≡ size = omega arith in
    subst (λ f. Reach endpoint size (with_free endpoint f [])) (sym all) starts
granted-Reach endpoint size free (suc n) e =
    let ts = holders true n in
    let left : suc free - 1 ≡ free = omega arith in
    let r1 = granted-Reach endpoint size (suc free) n (omega arith) in
    let r2 = later r1 (arrives [] ts refl) in
    let r3 : Reach endpoint size (with_free endpoint free (choosing ∷ ts)) =
      subst (λ f. Reach endpoint size (with_free endpoint f (choosing ∷ ts))) left
        (later r2 (moves [] ts (choosing ∷ []) refl (Move.granted (omega arith)))) in
    let r4 : Reach endpoint size (with_free endpoint free (dialing true ∷ ts)) =
      later r3 (moves [] ts (dialing true ∷ []) refl (chooses (λ sender. true))) in
    later r4 (moves [] ts (holding (lease true n) ∷ []) refl (connects true n))

-- With all permits taken, each further request's wait times out and it dials a client of its own.
overflow-Reach :
    (endpoint : Bytes) (size n : ℕ)
    → Reach endpoint size (with_free endpoint 0 (holders false n ++ holders true size))
overflow-Reach endpoint size zero = granted-Reach endpoint size 0 size (omega arith)
overflow-Reach endpoint size (suc n) =
    let ts = holders false n ++ holders true size in
    later
      (later (later (overflow-Reach endpoint size n) (arrives [] ts refl))
        (moves [] ts (dialing false ∷ []) refl (Move.timed_out refl)))
      (moves [] ts (holding (lease false n) ∷ []) refl (connects false n))

-- The size bounds only the clients of permits: whatever it is, requests can take every permit and then any number of
-- others have connections too, since a request whose wait times out, while no permit is free, dials without one.
pub overflow :
    (endpoint : Bytes) (size n : ℕ)
    → (s : System) × Reach endpoint size s × (total live s.tasks ≡ size + n) × (s.pool.capacity ≡ 0)
overflow endpoint size n = (
  with_free endpoint 0 (holders false n ++ holders true size),
  overflow-Reach endpoint size n,
  omega (
    arith,
    total-append live (holders false n) (holders true size),
    live-holders false n,
    live-holders true size,
  ),
  refl,
)
