-- ===== src/TcpServer/Tasks/Owned.antt =====
-- Every entry of an adapter's tables has a task that is going to remove it.
use protocol_proxy.Adapter.Tcp.Tables.{close_connection_lem, activate_cases}
use protocol_proxy.TcpServer.Session.{Worker}
use protocol_proxy.Sockmap.Pairs.{BpfApi}
use protocol_proxy.Adapter.Tcp.{TcpClient}
use protocol_proxy.Net.{IpAddr}
use protocol_proxy.Adapter.Route.{CacheEntry}
use protocol_proxy.External.{CacheApi, MapApi, IsMap}
use protocol_proxy.TcpServer.Tasks.{
  Task, absent, reading, descriptor, update, Tasks, Move, finds, misses, routes, refuses, connects,
  fails, activates, leaves, finishes, closes, System, Step, accepts, moves, Reach, starts, later,
}
use protocol_proxy.Prelude.{
  nat_eq, some, true, inl, inr, refl, Bool-cases, arith, ◌==◌, Bytes, ◌≡◌, ap, ◌⊎◌, ℕ, is_some, ◌≢◌,
  ==_iff, none, Option, sym, subst,
}

pub update_self : (tasks : Tasks) (i : ℕ) (t : Task) → update tasks i t i ≡ t
update_self tasks i t = ground (arith, ==_iff i i)

pub update_other : (tasks : Tasks) (i j : ℕ) (t : Task) → i ≢ j → update tasks i t j ≡ tasks j
update_other tasks i j t other = ground (arith, ==_iff i j)

without {ℓ} : {A : Type ℓ} (o : Option A) → ¬ (is_some o ≡ true) → o ≡ none
without none h = refl
without (some a) h = absurd (h refl)

module _ (C : CacheApi Bytes CacheEntry) (D : CacheApi Bytes IpAddr) (T : MapApi ℕ TcpClient)
    (P : MapApi ℕ ℕ) (B : BpfApi) where
  abbrev pub after : System C D T P B → ℕ → Worker C D T P B → Task → System C D T P B
  after s i w task = record { worker = w; tasks = update s.tasks i task }

  -- A step of a task whose state is known, and what it reaches.
  pub stepped :
      (Free : ℕ → Tasks → Type 0) {s : System C D T P B} (i : ℕ) {w : Worker C D T P B}
      {t task : Task}
      → s.tasks i ≡ t
      → Move C D T P B s.worker t w task
      → Step C D T P B Free s (after s i w task)
  stepped Free {s} i {w} {t} {task} e m =
      moves i (subst (λ x. Move C D T P B s.worker x w task) (sym e) m)

  pub moved :
      (Free : ℕ → Tasks → Type 0) {start : Worker C D T P B} {s : System C D T P B} (i : ℕ)
      {w : Worker C D T P B} {t task : Task}
      → Reach C D T P B Free start s
      → s.tasks i ≡ t
      → Move C D T P B s.worker t w task
      → Reach C D T P B Free start (after s i w task)
  moved Free {start} {s} i {w} {t} {task} r e m = later r (stepped Free i e m)

module _ (C : CacheApi Bytes CacheEntry) (D : CacheApi Bytes IpAddr) (T : MapApi ℕ TcpClient)
    (P : MapApi ℕ ℕ) (B : BpfApi) (map_laws : IsMap ℕ TcpClient T) (pair_laws : IsMap ℕ ℕ P) where
  -- The client has an entry in one of the tables.
  abbrev pub HasEntry : ℕ → Worker C D T P B → Type 0
  HasEntry fd w =
      (is_some (T.get fd w.adapter.connections) ≡ true)
      ⊎ (is_some (P.get fd w.adapter.sockmap_pairs) ≡ true)

  -- After a step of a task: its client, or one that had an entry before and is another's.
  abbrev Mine : ℕ → Worker C D T P B → Task → Task → Type 0
  Mine j w t t' =
      (descriptor t' ≡ some j)
      ⊎ (HasEntry j w × ((descriptor t ≡ descriptor t') ⊎ (descriptor t ≢ some j)))

  Move-Mine :
      {w w' : Worker C D T P B} {t t' : Task} (j : ℕ)
      → Move C D T P B w t w' t'
      → HasEntry j w'
      → Mine j w t t'
  Move-Mine j (finds found) h = inr (h, inl refl)
  Move-Mine j (misses missing) h = inr (h, inl refl)
  Move-Mine j (routes env data' r e) h = inr (h, inl refl)
  Move-Mine j (refuses env data' e' e) h = inr (h, inl refl)
  Move-Mine {w} j (connects {fd} env client e new) h = elim (Bool-cases (fd == j)) [
    | inl same ↦ inl (ap some ((==_iff fd j).0 same))
    | inr other ↦
        inr (ground (arith, other, map_laws.get-insert fd j client w.adapter.connections), inl refl)
  ]
  Move-Mine j (fails env e' e) h = inr (h, inl refl)
  Move-Mine {w} j (activates {fd} names) h =
      elim (activate_cases C D T P B map_laws pair_laws names fd w.adapter w.loader) [
        | inl same ↦ inr (ground (arith, same), inl refl)
        | inr (client, held, positive, e) ↦ elim (Bool-cases (fd == j)) [
          | inl own ↦ inl (ap some ((==_iff fd j).0 own))
          | inr other ↦ inr (
            ground (arith, e, other, pair_laws.get-insert fd j client.fd w.adapter.sockmap_pairs),
            inl refl,
          )
        ]
      ]
  Move-Mine j leaves h = inr (h, inl refl)
  Move-Mine j finishes h = inr (h, inl refl)
  Move-Mine {w} j (closes {fd}) h =
      let (conns, pairs, base) =
        close_connection_lem C D T P B map_laws pair_laws fd j w.adapter w.loader in
      inr (ground (arith, conns, pairs), inr (ground (arith, conns, pairs, ==_iff fd j)))

  -- Every entry's client has a task.
  abbrev AreOwned : System C D T P B → Type 0
  AreOwned s = (j : ℕ) → HasEntry j s.worker → (i : ℕ) × (descriptor (s.tasks i) ≡ some j)

  -- A task that is there keeps its slot while another takes a step.
  keeps_slot :
      (tasks : Tasks) (i k : ℕ) (t : Task) (j : ℕ)
      → descriptor (tasks k) ≡ some j
      → (descriptor (tasks i) ≡ descriptor t) ⊎ (descriptor (tasks i) ≢ some j)
      → descriptor (update tasks i t k) ≡ some j
  keeps_slot tasks i k t j has (inl same) = ground (arith, ==_iff i k)
  keeps_slot tasks i k t j has (inr other) = ground (arith, ==_iff i k)

  module _ (Free : ℕ → Tasks → Type 0) where
    Step-AreOwned : {s s' : System C D T P B} → Step C D T P B Free s s' → AreOwned s → AreOwned s'
    Step-AreOwned {s} (accepts i fd slot free) h j e =
        let (k, has) = h j e in
        (k, keeps_slot s.tasks i k (reading fd) j has (inr (ground (arith, slot))))
    Step-AreOwned {s} (moves i {task = t} m) h j e = elim (Move-Mine j m e) [
      | inl mine ↦ (i, rw (update_self s.tasks i t) mine)
      | inr (before, other) ↦ let (k, has) = h j before in (k, keeps_slot s.tasks i k t j has other)
    ]

    Reach-AreOwned :
        {start : Worker C D T P B} {s : System C D T P B}
        → Reach C D T P B Free start s
        → AreOwned s
    Reach-AreOwned (starts conns pairs) j (inl e) =
        absurd (ground (arith, conns, map_laws.get-new j))
    Reach-AreOwned (starts conns pairs) j (inr e) =
        absurd (ground (arith, pairs, pair_laws.get-new j))
    Reach-AreOwned (later r st) j e = Step-AreOwned st (Reach-AreOwned r) j e

    unowned :
        {start : Worker C D T P B} {s : System C D T P B}
        → Reach C D T P B Free start s
        → ((i : ℕ) → s.tasks i ≡ absent)
        → (fd : ℕ) → ¬ (HasEntry fd s.worker)
    unowned r over fd e = let (i, has) = Reach-AreOwned r fd e in ground (arith, over i)

    -- However the connections of a port interleave, and whatever descriptors the system gives: when no task is left, neither
    -- table has an entry.
    pub Reach-drained :
        {start : Worker C D T P B} {s : System C D T P B} (fd : ℕ)
        → Reach C D T P B Free start s
        → ((i : ℕ) → s.tasks i ≡ absent)
        → (T.get fd s.worker.adapter.connections ≡ none)
          × (P.get fd s.worker.adapter.sockmap_pairs ≡ none)
    Reach-drained {start} {s} fd r over = (
      without (T.get fd s.worker.adapter.connections) (λ e. unowned r over fd (inl e)),
      without (P.get fd s.worker.adapter.sockmap_pairs) (λ e. unowned r over fd (inr e)),
    )
