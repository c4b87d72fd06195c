-- ===== src/Http/Pool/Shared/Acquire.antt =====
-- `acquire`, taken as a run of one task of a shared pool.
use protocol_proxy.Http.Pool.{Pool, Wait, PooledClient, closed}
use protocol_proxy.Resolver.{ProxyError}
use protocol_proxy.Http.Pool.Shared.{Task, holding, Move}
use protocol_proxy.Prelude.{[], ◌∷◌, ok, err, Result, List, ◌<◌, ◌≡◌}

-- Any number of steps of one task, and no other's: the pool after them, and what is left of the task.
pub data Run (p : Pool) (t : Task) : Pool → List Task → Type 0 where
  stays : Run p t p (t ∷ [])
  onward :
      {q r : Pool} {u : Task} {rest : List Task}
      → Run p t q (u ∷ [])
      → Move q u r rest
      → Run p t r rest

-- What is left of a task when its `acquire` has returned.
abbrev pub leased : Result ProxyError PooledClient → List Task
leased (ok l) = holding l ∷ []
leased (err e) = []

-- How a wait for a permit can end: with one only if one is free, without one only if none is, and the semaphore is
-- never closed.
abbrev pub MayEnd : Wait → Pool → Type 0
MayEnd Wait.granted p = 0 < p.capacity
MayEnd Wait.timed_out p = p.capacity ≡ 0
MayEnd closed p = ⊥
