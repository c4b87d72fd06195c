-- ===== src/Http/Pool/Shared/Bound.antt =====
-- How many clients a shared pool has.
use protocol_proxy.Http.Pool.{
  take_permit, new_pool, add_permit, pop_idle, release, lease, invalidate, Pool,
}
use protocol_proxy.Http.Pool.Shared.{
  Task, System, Step, dialing, holding, moves, later, waiting, arrives, choosing, freeing, Move,
  chooses, connects, fails, leaves, invalidates, returns, discards, Reach, starts, frees,
}
use protocol_proxy.Prelude.{
  [], ◌∷◌, true, false, arith, ◌++◌, Bytes, ℕ, List, ◌≡◌, ap, ◌⊎◌, ◌≤◌, Bool, ◌+◌, length,
  length-append,
}

module _ (w : Task → ℕ) where
  abbrev pub total : List Task → ℕ
  total [] = 0
  total (t ∷ ts) = w t + total ts

  pub total-append : (xs ys : List Task) → total (xs ++ ys) ≡ total xs + total ys
  total-append [] ys = omega arith
  total-append (t ∷ xs) ys = omega (arith, total-append xs ys)

abbrev of_bool : Bool → ℕ
of_bool true = 1
of_bool false = 0

-- Whether a task has a permit.
abbrev pub has_permit : Task → ℕ
has_permit waiting = 0
has_permit choosing = 1
has_permit freeing = 1
has_permit (dialing permit) = of_bool permit
has_permit (holding l) = of_bool l.permit

-- Whether a task with a permit has a client or dials one.
abbrev pub has_client : Task → ℕ
has_client waiting = 0
has_client choosing = 0
has_client freeing = 0
has_client (dialing permit) = of_bool permit
has_client (holding l) = of_bool l.permit

-- Every permit is free or a task's, and the idle clients and those that tasks with permits have or dial are
-- no more than the size.
pub record IsBounded (size : ℕ) (s : System) : Type 0 where
  pub permits : s.pool.capacity + total has_permit s.tasks ≡ size
  pub clients : length s.pool.idle + total has_client s.tasks ≤ size

has_client-le : (t : Task) → has_client t ≤ has_permit t
has_client-le waiting = omega arith
has_client-le choosing = omega arith
has_client-le freeing = omega arith
has_client-le (dialing permit) = omega arith
has_client-le (holding l) = omega arith

total-le : (ts : List Task) → total has_client ts ≤ total has_permit ts
total-le [] = omega arith
total-le (t ∷ ts) = omega (arith, has_client-le t, total-le ts)

-- A step keeps the permits together.
Move-permits :
    {p q : Pool} {t : Task} {rest : List Task}
    → Move p t q rest
    → q.capacity + total has_permit rest ≡ p.capacity + has_permit t
unfolding take_permit add_permit pop_idle release lease invalidate
Move-permits (Move.granted free) = ground arith
Move-permits (Move.timed_out taken) = omega arith
Move-permits leaves = omega arith
Move-permits {p} (chooses ready) = ground arith
Move-permits (connects permit sender) = omega arith
Move-permits (fails true) = omega arith
Move-permits (fails false) = omega arith
Move-permits (invalidates {l}) = omega arith
Move-permits (returns {l} ready e) = ground arith
Move-permits (discards {l} e) = ground arith
Move-permits frees = omega arith

-- A step adds no client, but for the one that is dialed where no client is idle.
Move-clients :
    {p q : Pool} {t : Task} {rest : List Task}
    → Move p t q rest
    → (length q.idle + total has_client rest ≤ length p.idle + has_client t)
      ⊎ ((length q.idle ≡ 0) × (total has_client rest ≤ has_permit t))
unfolding take_permit add_permit pop_idle release lease invalidate
Move-clients (Move.granted free) = ground arith
Move-clients (Move.timed_out taken) = ground arith
Move-clients leaves = ground arith
Move-clients {p} (chooses ready) = ground arith
Move-clients (connects permit sender) = ground arith
Move-clients (fails true) = ground arith
Move-clients (fails false) = ground arith
Move-clients (invalidates {l}) = ground arith
Move-clients {p} (returns {l} ready e) = ground (arith, length-append p.idle (l.client ∷ []))
Move-clients (discards {l} e) = ground arith
Move-clients frees = ground arith

Step-IsBounded : {size : ℕ} {s t : System} → Step s t → IsBounded size s → IsBounded size t
Step-IsBounded {s} (arrives before after at) b =
    let permits = b.permits in
    let clients = b.clients in
    let held = ap (total has_permit) at in
    let busy = ap (total has_client) at in
    record {
      permits = ground (
        arith,
        total-append has_permit before after,
        total-append has_permit before (waiting ∷ after),
      );
      clients = ground (
        arith,
        total-append has_client before after,
        total-append has_client before (waiting ∷ after),
      );
    }
Step-IsBounded {s} (moves before after rest {t} {p} at move) b =
    let permits = Move-permits move in
    let clients = Move-clients move in
    let permits_at = b.permits in
    let clients_at = b.clients in
    let held = ap (total has_permit) at in
    let busy = ap (total has_client) at in
    record {
      permits = ground (
        arith,
        total-append has_permit before (t ∷ after),
        total-append has_permit before (rest ++ after),
        total-append has_permit rest after,
      );
      clients = ground (
        arith,
        total-append has_permit before (t ∷ after),
        total-append has_client before (t ∷ after),
        total-append has_client before (rest ++ after),
        total-append has_client rest after,
        total-le before,
        total-le after,
      );
    }

-- However requests interleave: the free permits and the tasks' permits are the pool's size together, and the idle
-- clients and those that tasks with a permit have or dial are at most so many.
pub Reach-IsBounded :
    {endpoint : Bytes} {size : ℕ} {s : System} → Reach endpoint size s → IsBounded size s
unfolding new_pool
Reach-IsBounded starts = record { permits = omega arith; clients = omega arith }
Reach-IsBounded (later r st) = Step-IsBounded st (Reach-IsBounded r)
