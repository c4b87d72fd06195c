-- ===== src/TcpServer/Tasks/Isolated.antt =====
-- Which backend the tasks of a port use.
use protocol_proxy.TcpServer.Session.{Worker, bidirectional_copy, serialised}
use protocol_proxy.Sockmap.Pairs.{BpfApi}
use protocol_proxy.Adapter.Tcp.{TcpClient}
use protocol_proxy.Net.{IpAddr}
use protocol_proxy.Adapter.Route.{CacheEntry}
use protocol_proxy.External.{CacheApi, MapApi, IsMap}
use protocol_proxy.TcpServer.Tasks.{
  Task, reading, serving, descriptor, update, Tasks, Move, System, Step, accepts, moves, Reach,
  starts, later, NotHeld,
}
use protocol_proxy.Prelude.{
  nat_eq, some, arith, Bytes, ◌≡◌, ℕ, ◌≢◌, ==_iff, inl, inr, true, false, Bool-cases, if◌then◌else◌,
  ◌==◌, subst, Bool,
}
use protocol_proxy.TcpServer.Tasks.Held.{
  IsHeld, AreApart, Move-IsHeld, Move-IsHeld_other, Move-AreApart, Move-descriptor,
}

module _ (C : CacheApi Bytes CacheEntry) (D : CacheApi Bytes IpAddr) (T : MapApi ℕ TcpClient)
    (P : MapApi ℕ ℕ) (B : BpfApi) (map_laws : IsMap ℕ TcpClient T) (pair_laws : IsMap ℕ ℕ P) where
  -- Each task's client is kept for its descriptor, no two descriptors have one backend, and no two tasks have one
  -- descriptor.
  record IsIsolated (s : System C D T P B) : Type 0 where
    pub held : (i : ℕ) → IsHeld C D T P B map_laws pair_laws s.worker (s.tasks i)
    pub apart : AreApart C D T P B map_laws pair_laws s.worker
    pub distinct :
        (i k fd : ℕ) → descriptor (s.tasks i) ≡ some fd → descriptor (s.tasks k) ≡ some fd → i ≡ k

  choose-IsHeld :
      (w : Worker C D T P B) (b : Bool) (t u : Task)
      → IsHeld C D T P B map_laws pair_laws w t
      → IsHeld C D T P B map_laws pair_laws w u
      → IsHeld C D T P B map_laws pair_laws w (if b then t else u)
  choose-IsHeld w true t u h k = h
  choose-IsHeld w false t u h k = k

  accepted-IsHeld :
      (w : Worker C D T P B) (tasks : Tasks) (i k fd : ℕ)
      → IsHeld C D T P B map_laws pair_laws w (tasks k)
      → IsHeld C D T P B map_laws pair_laws w (update tasks i (reading fd) k)
  accepted-IsHeld w tasks i k fd h = choose-IsHeld w (i == k) (reading fd) (tasks k) tt h

  accepted-distinct :
      (tasks : Tasks) (i k j fd n : ℕ)
      → NotHeld fd tasks
      → (descriptor (tasks k) ≡ some n → descriptor (tasks j) ≡ some n → k ≡ j)
      → descriptor (update tasks i (reading fd) k) ≡ some n
      → descriptor (update tasks i (reading fd) j) ≡ some n
      → k ≡ j
  accepted-distinct tasks i k j fd n free h e f =
      ground (arith, ==_iff i k, ==_iff i j, free k, free j)

  before :
      (s : System C D T P B) (i k n : ℕ) (task : Task)
      → (descriptor task ≡ some n → descriptor (s.tasks i) ≡ some n)
      → descriptor (update s.tasks i task k) ≡ some n
      → descriptor (s.tasks k) ≡ some n
  before s i k n task h e = elim (Bool-cases (i == k)) [
    | inl same ↦
        subst (λ x. descriptor (s.tasks x) ≡ some n) ((==_iff i k).0 same) (h (rw same at e))
    | inr other ↦ rw other at e
  ]

  moved-IsHeld :
      (s : System C D T P B) (i k : ℕ) (w : Worker C D T P B) (task : Task)
      → Move C D T P B s.worker (s.tasks i) w task
      → IsIsolated s
      → IsHeld C D T P B map_laws pair_laws w (update s.tasks i task k)
  moved-IsHeld s i k w task m h = elim (Bool-cases (i == k)) [
    | inl same ↦ rw (same) (Move-IsHeld C D T P B map_laws pair_laws m (h.held i))
    | inr other ↦ rw (other) (
        Move-IsHeld_other C D T P B map_laws pair_laws (s.tasks k) m
          (λ fd e f. let same = h.distinct i k fd f e in absurd (ground (arith, ==_iff i k)))
          (h.held k))
  ]

  moved-distinct :
      (s : System C D T P B) (i k j n : ℕ) (w : Worker C D T P B) (task : Task)
      → Move C D T P B s.worker (s.tasks i) w task
      → IsIsolated s
      → descriptor (update s.tasks i task k) ≡ some n
      → descriptor (update s.tasks i task j) ≡ some n
      → k ≡ j
  moved-distinct s i k j n w task m h e f =
      h.distinct k j n (before s i k n task (Move-descriptor C D T P B map_laws pair_laws n m) e)
        (before s i j n task (Move-descriptor C D T P B map_laws pair_laws n m) f)

  Step-IsIsolated :
      {s s' : System C D T P B} → Step C D T P B NotHeld s s' → IsIsolated s → IsIsolated s'
  Step-IsIsolated {s} (accepts i fd slot free) h = record {
    held = λ k. accepted-IsHeld s.worker s.tasks i k fd (h.held k);
    apart = h.apart;
    distinct = λ k j n e f. accepted-distinct s.tasks i k j fd n free (h.distinct k j n) e f;
  }
  Step-IsIsolated {s} (moves i {w} {task} m) h = record {
    held = λ k. moved-IsHeld s i k w task m h;
    apart = Move-AreApart C D T P B map_laws pair_laws m h.apart;
    distinct = λ k j n e f. moved-distinct s i k j n w task m h e f;
  }

  Reach-IsIsolated :
      {start : Worker C D T P B} {s : System C D T P B}
      → Reach C D T P B NotHeld start s
      → IsIsolated s
  Reach-IsIsolated (starts conns pairs) = record {
    held = λ i. tt;
    apart = λ fd j client other e f b. absurd (ground (arith, conns, map_laws.get-new fd));
    distinct = λ i k fd e f. cc;
  }
  Reach-IsIsolated (later r st) = Step-IsIsolated st (Reach-IsIsolated r)

  -- However the connections of a port interleave: where the system gives no descriptor of a client whose entries are
  -- yet to be removed, and no backend's descriptor that a kept connection has, two tasks never use one backend.
  pub Reach-isolated :
      {start : Worker C D T P B} {s : System C D T P B} (i j fd k : ℕ) (client other : TcpClient)
      → Reach C D T P B NotHeld start s
      → s.tasks i ≡ serving fd client
      → s.tasks j ≡ serving k other
      → i ≢ j
      → client.fd ≢ other.fd
  Reach-isolated {start} {s} i j fd k client other r e f apart same =
      let h = Reach-IsIsolated r in
      let held : T.get fd s.worker.adapter.connections ≡ some client =
        subst (IsHeld C D T P B map_laws pair_laws s.worker) e (h.held i) in
      let held' : T.get k s.worker.adapter.connections ≡ some other =
        subst (IsHeld C D T P B map_laws pair_laws s.worker) f (h.held j) in
      let one : fd ≡ k = h.apart fd k client other held held' same in
      apart (h.distinct i j fd (ground (arith, e)) (ground (arith, f)))

  -- However the connections of a port interleave: where the system gives no descriptor of a client whose entries are
  -- yet to be removed, and no backend's descriptor that a kept connection has, the bytes of a connection that has a
  -- backend are never copied by `copy_bidirectional`, since the adapter holds the backend too, whoever else does.
  pub Reach-serialised :
      {start : Worker C D T P B} {s : System C D T P B} (i fd : ℕ) (client : TcpClient)
      (elsewhere : Bool)
      → Reach C D T P B NotHeld start s
      → s.tasks i ≡ serving fd client
      → bidirectional_copy C D T P B elsewhere fd client s.worker ≡ serialised
  unfolding bidirectional_copy
  Reach-serialised {start} {s} i fd client elsewhere r e =
      let held : T.get fd s.worker.adapter.connections ≡ some client =
        subst (IsHeld C D T P B map_laws pair_laws s.worker) e ((Reach-IsIsolated r).held i) in
      ground (arith, held, ==_iff client.fd client.fd)
