-- ===== src/TcpServer/Tasks/Guarded.antt =====
-- Where the backends are that the connections of a port are given.
use protocol_proxy.Dns.{DnsState, nanos_per_second}
use protocol_proxy.Adapter.Endpoint.{parse_endpoint}
use protocol_proxy.Adapter.Route
use protocol_proxy.Adapter.Route.{
  CacheEntry, route, RouteEnv, set_skip_validation, set_cache_ttl, cache_capacity,
}
use protocol_proxy.Adapter.Route.Validated.{IsSafe}
use protocol_proxy.Adapter.Route.Safety.{IsSound, IsCacheSafe, build-IsCacheSafe, route-IsGood}
use protocol_proxy.Adapter.Tcp.{TcpClient, Tcp, new, TcpEnv, connect, close_connection}
use protocol_proxy.Adapter.Tcp.Dialing.{connect-stream}
use protocol_proxy.Adapter.Tcp.Tables.{activate_cases}
use protocol_proxy.TcpServer.Config.{TcpConfig}
use protocol_proxy.TcpServer.Start.{configure}
use protocol_proxy.TcpServer.Session.{Worker}
use protocol_proxy.Sockmap.Pairs.{BpfApi, Names}
use protocol_proxy.Resolver.{Resolver}
use protocol_proxy.Net.{IpAddr}
use protocol_proxy.External.{CacheApi, MapApi, IsMap, IsCache}
use protocol_proxy.TcpServer.Tasks.{
  Task, absent, reading, routing, ended, connecting, serving, update, Tasks, Move, finds, misses,
  routes, refuses, connects, fails, activates, leaves, finishes, closes, System, Step, accepts,
  moves, Reach, starts, later, connected, closed, activated, routed,
}
use protocol_proxy.Prelude.{
  nat_eq, some, false, ok, inl, inr, Bool-cases, arith, ◌==◌, Bytes, ◌≡◌, ap, ℕ, Option, sym, subst,
  Bool, ◌∙◌, ◌*◌,
}

-- A client whose stream was dialed at the host and the port of an endpoint that may be dialed.
abbrev pub IsSafelyDialed : ℕ → TcpClient → Type 0
IsSafelyDialed port client =
    (endpoint : Bytes) × IsSafe endpoint
    × (client.stream.host ≡ (parse_endpoint endpoint port).0)
    × (client.stream.port ≡ (parse_endpoint endpoint port).1)

-- A connection that connects does so to an endpoint that may be dialed, and a backend that it has was dialed at one.
abbrev pub IsGuardedTask : ℕ → Task → Type 0
IsGuardedTask port absent = Unit {0}
IsGuardedTask port (reading fd) = Unit {0}
IsGuardedTask port (routing fd) = Unit {0}
IsGuardedTask port (ended fd) = Unit {0}
IsGuardedTask port (connecting fd endpoint) = IsSafe endpoint
IsGuardedTask port (serving fd client) = IsSafelyDialed port client

module _ (C : CacheApi Bytes CacheEntry) (D : CacheApi Bytes IpAddr) (T : MapApi ℕ TcpClient)
    (P : MapApi ℕ ℕ) (B : BpfApi) (laws : IsCache Bytes CacheEntry C)
    (map_laws : IsMap ℕ TcpClient T) (pair_laws : IsMap ℕ ℕ P) (port : ℕ) where
  -- An adapter of the port that validates, and whose kept connections were dialed safely.
  pub record IsGuarded (t : Tcp C D T P B) (dns : DnsState D.Store) : Type 0 where
    pub sound : IsSound C D laws (t.base, dns)
    pub port_of : t.port ≡ port
    pub kept_dialed :
        (fd : ℕ) (client : TcpClient)
        → T.get fd t.connections ≡ some client
        → IsSafelyDialed port client

  abbrev IsGuardedWorker : Worker C D T P B → Type 0
  IsGuardedWorker w = IsGuarded w.adapter w.dns

  connected-IsGuarded :
      (fd : ℕ) (client : TcpClient) (w : Worker C D T P B)
      → IsSafelyDialed port client
      → IsGuardedWorker w
      → IsGuardedWorker (connected C D T P B fd client w)
  connected-IsGuarded fd client w dialed g = record {
    sound = g.sound;
    port_of = g.port_of;
    kept_dialed = λ k other e.
        let written = map_laws.get-insert fd k client w.adapter.connections in
        elim (Bool-cases (fd == k)) [
          | inl same ↦
              let it : client ≡ other = ground (arith, written, same, e) in
              subst (IsSafelyDialed port) it dialed
          | inr apart ↦ g.kept_dialed k other (ground (arith, written, apart, e))
        ];
  }

  closed-IsGuarded :
      (fd : ℕ) (w : Worker C D T P B) → IsGuardedWorker w → IsGuardedWorker (closed C D T P B fd w)
  unfolding close_connection
  closed-IsGuarded fd w g = record {
    sound = g.sound;
    port_of = g.port_of;
    kept_dialed = λ k client e.
        g.kept_dialed k client (ground (arith, map_laws.get-remove fd k w.adapter.connections, e));
  }

  activated-IsGuarded :
      (names : Names) (fd : ℕ) (w : Worker C D T P B)
      → IsGuardedWorker w
      → IsGuardedWorker (activated C D T P B names fd w)
  activated-IsGuarded names fd w g =
      elim (activate_cases C D T P B map_laws pair_laws names fd w.adapter w.loader) [
        | inl same ↦ subst (λ t. IsGuarded t w.dns) (sym same) g
        | inr (client, held, positive, e) ↦
            subst (λ t. IsGuarded t w.dns) (sym e)
              (record { sound = g.sound; port_of = g.port_of; kept_dialed = g.kept_dialed })
      ]

  routed-IsGuarded :
      (env : RouteEnv) (data' : Bytes) (w : Worker C D T P B)
      → IsGuardedWorker w
      → IsGuardedWorker (routed C D T P B w (route C D env w.adapter.base w.dns data'))
  routed-IsGuarded env data' w g =
      let good = route-IsGood C D laws env w.adapter.base w.dns data' g.sound.0 g.sound.1 in
      record {
        sound = (good.cache, good.validating);
        port_of = g.port_of;
        kept_dialed = g.kept_dialed;
      }

  connect-IsSafelyDialed :
      (env : TcpEnv) (t : Tcp C D T P B) (endpoint : Bytes) (client : TcpClient)
      → t.port ≡ port
      → IsSafe endpoint
      → connect C D T P B env t endpoint ≡ ok client
      → IsSafelyDialed port client
  connect-IsSafelyDialed env t endpoint client at safe e =
      let (host, of_port) = connect-stream C D T P B laws env t endpoint client e in
      (
        endpoint,
        safe,
        host ∙ ap (λ p. (parse_endpoint endpoint p).0) at,
        of_port ∙ ap (λ p. (parse_endpoint endpoint p).1) at,
      )

  -- A step of a task leaves the adapter and the task guarded.
  Move-IsGuarded :
      {w w' : Worker C D T P B} {t t' : Task}
      → Move C D T P B w t w' t'
      → IsGuardedWorker w
      → IsGuardedTask port t
      → IsGuardedWorker w' × IsGuardedTask port t'
  Move-IsGuarded (finds {fd} {client} found) g a = (g, g.kept_dialed fd client found)
  Move-IsGuarded (misses missing) g a = (g, _)
  Move-IsGuarded {w} (routes env data' r e) g a =
      let good = route-IsGood C D laws env w.adapter.base w.dns data' g.sound.0 g.sound.1 in
      (routed-IsGuarded env data' w g, good.answer r e)
  Move-IsGuarded {w} (refuses env data' e' e) g a = (routed-IsGuarded env data' w g, _)
  Move-IsGuarded {w} (connects {fd} {endpoint} env client e new') g a =
      let dialed = connect-IsSafelyDialed env w.adapter endpoint client g.port_of a e in
      (connected-IsGuarded fd client w dialed g, dialed)
  Move-IsGuarded (fails env e' e) g a = (g, _)
  Move-IsGuarded {w} (activates {fd} names) g a = (activated-IsGuarded names fd w g, a)
  Move-IsGuarded leaves g a = (g, _)
  Move-IsGuarded finishes g a = (g, _)
  Move-IsGuarded {w} (closes {fd}) g a = (closed-IsGuarded fd w g, _)

  -- The adapter and every task.
  abbrev AreGuarded : System C D T P B → Type 0
  AreGuarded s = IsGuardedWorker s.worker × ((i : ℕ) → IsGuardedTask port (s.tasks i))

  updated-IsGuarded :
      (tasks : Tasks) (i : ℕ) (t : Task)
      → IsGuardedTask port t
      → ((k : ℕ) → IsGuardedTask port (tasks k))
      → (k : ℕ) → IsGuardedTask port (update tasks i t k)
  updated-IsGuarded tasks i t a all k = elim (Bool-cases (i == k)) [
    | inl same ↦ rw same a
    | inr other ↦ rw other (all k)
  ]

  module _ (Free : ℕ → Tasks → Type 0) where
    Step-AreGuarded :
        {s s' : System C D T P B} → Step C D T P B Free s s' → AreGuarded s → AreGuarded s'
    Step-AreGuarded {s} (accepts i fd slot free) g =
        (g.0, updated-IsGuarded s.tasks i (reading fd) _ g.1)
    Step-AreGuarded {s} (moves i {task = t} m) g =
        let (worker, task) = Move-IsGuarded m g.0 (g.1 i) in
        (worker, updated-IsGuarded s.tasks i t task g.1)

    Reach-IsGuarded :
        {start : Worker C D T P B} {s : System C D T P B}
        → IsSound C D laws (start.adapter.base, start.dns)
        → start.adapter.port ≡ port
        → Reach C D T P B Free start s
        → AreGuarded s
    Reach-IsGuarded sound at (starts conns pairs) = (
      record {
        sound = sound;
        port_of = at;
        kept_dialed = λ fd client e. absurd (ground (arith, conns, map_laws.get-new fd));
      },
      λ i. _,
    )
    Reach-IsGuarded sound at (later r step) = Step-AreGuarded step (Reach-IsGuarded sound at r)

  -- The adapter that `start` makes for a port where validation is not switched off.
  configured-IsSound :
      (config : TcpConfig) (sockmap : Bool) (resolver : Option Resolver) (dns : DnsState D.Store)
      → config.skip_validation ≡ false
      → IsSound C D laws
          ((configure C D T P B config sockmap (new C D T P B port resolver)).base, dns)
  unfolding configure new Route.new set_skip_validation set_cache_ttl
  configured-IsSound config sockmap resolver dns on =
      let a = (configure C D T P B config sockmap (new C D T P B port resolver)).base in
      let same : C.build cache_capacity (3600 * nanos_per_second) ≡ a.cache = ground (arith, on) in
      (
        subst (IsCacheSafe C D laws) same
            (build-IsCacheSafe C D laws cache_capacity (3600 * nanos_per_second)),
        ground (arith, on),
      )

  -- However the connections of a port interleave, and whatever descriptors the system gives, where the port has the
  -- adapter that the server makes with validation on: a connection connects only to an endpoint that is the text of an
  -- address outside the refused ranges with a port from 1 to 65535 or none, and every backend that a connection has or
  -- that the adapter keeps was dialed at the host and the port that are read from such an endpoint.
  pub Reach-AreDialed :
      (Free : ℕ → Tasks → Type 0) (config : TcpConfig) (sockmap : Bool) (resolver : Option Resolver)
      {start : Worker C D T P B} {s : System C D T P B}
      → config.skip_validation ≡ false
      → start.adapter ≡ configure C D T P B config sockmap (new C D T P B port resolver)
      → Reach C D T P B Free start s
      → ((i : ℕ) → IsGuardedTask port (s.tasks i))
        × ((fd : ℕ) (client : TcpClient)
            → T.get fd s.worker.adapter.connections ≡ some client
            → IsSafelyDialed port client)
  unfolding configure new
  Reach-AreDialed Free config sockmap resolver {start} on made r =
      let sound =
        subst (λ (t : Tcp C D T P B). IsSound C D laws (t.base, start.dns)) (sym made)
          (configured-IsSound config sockmap resolver start.dns on) in
      let g = Reach-IsGuarded Free sound (ap (λ (t : Tcp C D T P B). t.port) made) r in
      (g.1, g.0.kept_dialed)
