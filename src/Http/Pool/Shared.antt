-- ===== src/Http/Pool/Shared.antt =====
-- A pool that concurrent requests share: each request is a task, and between two of its steps any other task may
-- take steps. A task waits for a permit, looks for an idle client, dials, holds its lease and drops it. The semaphore
-- gives a free permit at once, and one that comes back to whoever waits first: a wait times out only while no permit
-- is free. A client that goes ends the task of its request.
pub mod Bound
pub mod Overflow
pub mod Acquire
use protocol_proxy.Http.Pool.{
  Pool, Client, new_pool, PooledClient, add_permit, take_permit, pop_idle, lease, invalidate,
  release,
}
use protocol_proxy.Prelude.{
  [], ◌∷◌, none, some, true, false, if◌then◌else◌, ◌++◌, Bytes, ℕ, Option, ◌≡◌, ◌<◌, Bool, List,
}

pub data Task : Type 0 where
  waiting choosing freeing : Task
  dialing : (permit : Bool) → Task
  holding : PooledClient → Task

pub record System : Type 0 where
  pub pool : Pool
  pub tasks : List Task

abbrev pub chosen : Option Client → Task
chosen none = dialing true
chosen (some c) = holding (record { permit = true; client = c })

-- The permit of a failed dial goes back.
abbrev pub give_back : Bool → Pool → Pool
give_back permit p = if permit then add_permit p else p

-- One step of one task: the pool after it, and the task's next state or none.
pub data Move (p : Pool) : Task → Pool → List Task → Type 0 where
  granted : 0 < p.capacity → Move p waiting (take_permit p) (choosing ∷ [])
  timed_out : p.capacity ≡ 0 → Move p waiting p (dialing false ∷ [])
  leaves : Move p waiting p []
  chooses :
      (ready : ℕ → Bool) → Move p choosing (pop_idle ready p).1 (chosen (pop_idle ready p).0 ∷ [])
  connects :
      (permit : Bool) (sender : ℕ) → Move p (dialing permit) p (holding (lease permit sender) ∷ [])
  fails : (permit : Bool) → Move p (dialing permit) (give_back permit p) []
  invalidates : {l : PooledClient} → Move p (holding l) p (holding (invalidate l) ∷ [])
  returns :
      {l : PooledClient} (ready : ℕ → Bool)
      → l.permit ≡ true
      → Move p (holding l) (release ready l.client p) (freeing ∷ [])
  discards : {l : PooledClient} → l.permit ≡ false → Move p (holding l) p []
  frees : Move p freeing (add_permit p) []

pub data Step (s : System) : System → Type 0 where
  arrives :
      (before after : List Task)
      → s.tasks ≡ before ++ after
      → Step s (record s { tasks = before ++ waiting ∷ after })
  moves :
      (before after rest : List Task) {t : Task} {p : Pool}
      → s.tasks ≡ before ++ t ∷ after
      → Move s.pool t p rest
      → Step s (record { pool = p; tasks = before ++ (rest ++ after) })

pub data Reach (endpoint : Bytes) (size : ℕ) : System → Type 0 where
  starts : Reach endpoint size (record { pool = new_pool endpoint size; tasks = [] })
  later : {s t : System} → Reach endpoint size s → Step s t → Reach endpoint size t
