-- ===== src/TcpServer/Tasks/Held.antt =====
-- What a step of a task does to the connections that the adapter keeps.
use protocol_proxy.Adapter.Tcp.Tables.{close_connection_lem, activate_cases}
use protocol_proxy.TcpServer.Session.{Worker}
use protocol_proxy.Sockmap.Pairs.{BpfApi, Names}
use protocol_proxy.Adapter.Tcp.{TcpClient, Tcp}
use protocol_proxy.Net.{IpAddr}
use protocol_proxy.Adapter.Route.{CacheEntry}
use protocol_proxy.External.{CacheApi, MapApi, IsMap}
use protocol_proxy.TcpServer.Tasks.{
  Task, absent, reading, routing, ended, connecting, serving, descriptor, Move, finds, misses,
  routes, refuses, connects, fails, activates, leaves, finishes, closes, IsNew, activated,
  connected, closed,
}
use protocol_proxy.Prelude.{
  nat_eq, some, refl, arith, Bytes, ◌≡◌, ap, ℕ, ◌≢◌, ==_iff, sym, ◌∙◌, inl, inr,
}

module _ (C : CacheApi Bytes CacheEntry) (D : CacheApi Bytes IpAddr) (T : MapApi ℕ TcpClient)
    (P : MapApi ℕ ℕ) (B : BpfApi) (map_laws : IsMap ℕ TcpClient T) (pair_laws : IsMap ℕ ℕ P) where
  -- A task's client is kept for its descriptor.
  abbrev pub IsHeld : Worker C D T P B → Task → Type 0
  IsHeld w (serving fd client) = T.get fd w.adapter.connections ≡ some client
  IsHeld w (absent) = Unit {0}
  IsHeld w (reading fd) = Unit {0}
  IsHeld w (routing fd) = Unit {0}
  IsHeld w (ended fd) = Unit {0}
  IsHeld w (connecting fd endpoint) = Unit {0}

  -- Two descriptors are not given one backend.
  abbrev pub AreApart : Worker C D T P B → Type 0
  AreApart w =
      (fd j : ℕ) (client other : TcpClient)
      → T.get fd w.adapter.connections ≡ some client
      → T.get j w.adapter.connections ≡ some other
      → client.fd ≡ other.fd
      → fd ≡ j

  activate-connections :
      (names : Names) (fd : ℕ) (w : Worker C D T P B)
      → (activated C D T P B names fd w).adapter.connections ≡ w.adapter.connections
  activate-connections names fd w =
      elim (activate_cases C D T P B map_laws pair_laws names fd w.adapter w.loader) [
        | inl same ↦ ap (λ (t : Tcp C D T P B). t.connections) same
        | inr (client, held, positive, e) ↦ ap (λ (t : Tcp C D T P B). t.connections) e
      ]

  -- A step keeps the connections of all but its task's descriptor.
  Move-others :
      {w w' : Worker C D T P B} {t t' : Task} (j : ℕ)
      → Move C D T P B w t w' t'
      → descriptor t ≢ some j
      → T.get j w'.adapter.connections ≡ T.get j w.adapter.connections
  Move-others j (finds found) h = refl
  Move-others j (misses missing) h = refl
  Move-others j (routes env data' r e) h = refl
  Move-others j (refuses env data' e' e) h = refl
  Move-others {w} j (connects {fd} env client e new) h =
      ground (arith, map_laws.get-insert fd j client w.adapter.connections, ==_iff fd j)
  Move-others j (fails env e' e) h = refl
  Move-others {w} j (activates {fd} names) h = ap (T.get j) (activate-connections names fd w)
  Move-others j leaves h = refl
  Move-others j finishes h = refl
  Move-others {w} j (closes {fd}) h =
      let (conns, pairs, base) =
        close_connection_lem C D T P B map_laws pair_laws fd j w.adapter w.loader in
      ground (arith, conns, ==_iff fd j)

  pub Move-IsHeld :
      {w w' : Worker C D T P B} {t t' : Task} → Move C D T P B w t w' t' → IsHeld w t → IsHeld w' t'
  Move-IsHeld (finds found) h = found
  Move-IsHeld (misses missing) h = tt
  Move-IsHeld (routes env data' r e) h = tt
  Move-IsHeld (refuses env data' e' e) h = tt
  Move-IsHeld {w} (connects {fd} env client e new) h =
      ground (arith, map_laws.get-insert fd fd client w.adapter.connections, ==_iff fd fd)
  Move-IsHeld (fails env e' e) h = tt
  Move-IsHeld {w} (activates {fd} names) h = ap (T.get fd) (activate-connections names fd w) ∙ h
  Move-IsHeld leaves h = tt
  Move-IsHeld finishes h = tt
  Move-IsHeld closes h = tt

  -- Another task's client is kept too.
  pub Move-IsHeld_other :
      {w w' : Worker C D T P B} {t t' : Task} (u : Task)
      → Move C D T P B w t w' t'
      → ((fd : ℕ) → descriptor u ≡ some fd → descriptor t ≢ some fd)
      → IsHeld w u
      → IsHeld w' u
  Move-IsHeld_other (serving fd client) m other h = Move-others fd m (other fd refl) ∙ h
  Move-IsHeld_other absent m other h = tt
  Move-IsHeld_other (reading fd) m other h = tt
  Move-IsHeld_other (routing fd) m other h = tt
  Move-IsHeld_other (ended fd) m other h = tt
  Move-IsHeld_other (connecting fd endpoint) m other h = tt

  same-AreApart :
      (w w' : Worker C D T P B)
      → w'.adapter.connections ≡ w.adapter.connections
      → AreApart w
      → AreApart w'
  same-AreApart w w' same h fd j client other e f b =
      h fd j client other (ap (T.get fd) (sym same) ∙ e) (ap (T.get j) (sym same) ∙ f) b

  connected-AreApart :
      (w : Worker C D T P B) (k : ℕ) (made : TcpClient)
      → IsNew C D T P B made.fd w.adapter
      → AreApart w
      → AreApart (connected C D T P B k made w)
  connected-AreApart w k made new h fd j client other e f b =
      let at_fd = map_laws.get-insert k fd made w.adapter.connections in
      let at_j = map_laws.get-insert k j made w.adapter.connections in
      ground (
        arith,
        at_fd,
        at_j,
        ==_iff k fd,
        ==_iff k j,
        new fd client,
        new j other,
        h fd j client other,
      )

  closed-AreApart : (w : Worker C D T P B) (k : ℕ) → AreApart w → AreApart (closed C D T P B k w)
  closed-AreApart w k h fd j client other e f b =
      let at_fd = close_connection_lem C D T P B map_laws pair_laws k fd w.adapter w.loader in
      let at_j = close_connection_lem C D T P B map_laws pair_laws k j w.adapter w.loader in
      ground (arith, at_fd.0, at_j.0, h fd j client other)

  pub Move-AreApart :
      {w w' : Worker C D T P B} {t t' : Task} → Move C D T P B w t w' t' → AreApart w → AreApart w'
  Move-AreApart (finds found) h = h
  Move-AreApart (misses missing) h = h
  Move-AreApart (routes env data' r e) h = h
  Move-AreApart (refuses env data' e' e) h = h
  Move-AreApart {w} (connects {fd} env client e new) h = connected-AreApart w fd client new h
  Move-AreApart (fails env e' e) h = h
  Move-AreApart {w} (activates {fd} names) h =
      same-AreApart w (activated C D T P B names fd w) (activate-connections names fd w) h
  Move-AreApart leaves h = h
  Move-AreApart finishes h = h
  Move-AreApart {w} (closes {fd}) h = closed-AreApart w fd h

  pub Move-descriptor :
      {w w' : Worker C D T P B} {t t' : Task} (fd : ℕ)
      → Move C D T P B w t w' t'
      → descriptor t' ≡ some fd
      → descriptor t ≡ some fd
  Move-descriptor fd (finds found) h = h
  Move-descriptor fd (misses missing) h = h
  Move-descriptor fd (routes env data' r e) h = h
  Move-descriptor fd (refuses env data' e' e) h = h
  Move-descriptor fd (connects env client e new) h = h
  Move-descriptor fd (fails env e' e) h = h
  Move-descriptor fd (activates names) h = h
  Move-descriptor fd leaves h = h
  Move-descriptor fd finishes h = h
  Move-descriptor fd closes h = cc
