-- ===== src/TcpServer/Tasks.antt =====
-- The connections that one port of rust/crates/utopia-proxy/src/server/tcp/server.rs serves at once. Each is a task
-- of `accept_loop` that runs `handle_connection`, and between two of its steps any other task may take steps on
-- the adapter they share. A step is what happens between two waits: a lookup, a routing, a connect with the entry
-- that it writes, the activation, the end of `run_client`, which drops the client's stream, and `close_connection`.
pub mod Owned
pub mod Held
pub mod Isolated
pub mod Crossed
pub mod Guarded
use protocol_proxy.Dns.{DnsState}
use protocol_proxy.Resolver.{ResolverError, ConnectionResult, ProxyError}
use protocol_proxy.Sockmap.Pairs.{BpfApi, Names}
use protocol_proxy.Net.{IpAddr}
use protocol_proxy.Adapter.Route.{CacheEntry, RouteEnv, Adapter, route}
use protocol_proxy.Adapter.Tcp.{
  TcpClient, Tcp, keep, close_connection, activate_sockmap, TcpEnv, connect,
}
use protocol_proxy.External.{CacheApi, MapApi}
use protocol_proxy.TcpServer.Session.{Worker}
use protocol_proxy.Prelude.{
  none, some, ok, err, if◌then◌else◌, ◌==◌, Option, Result, ◌≡◌, ℕ, Bytes, ◌≢◌,
}

-- A connection by its client's descriptor. It has read nothing, or it asks for an endpoint, or it connects to it, or
-- it has a backend; at the end its stream is dropped and its entries are yet to be removed. A free slot is absent.
pub data Task : Type 0 where
  absent : Task
  reading routing ended : (fd : ℕ) → Task
  connecting : (fd : ℕ) (endpoint : Bytes) → Task
  serving : (fd : ℕ) (client : TcpClient) → Task

-- The client's descriptor until the entries are removed.
abbrev pub descriptor : Task → Option ℕ
descriptor absent = none
descriptor (reading fd) = some fd
descriptor (routing fd) = some fd
descriptor (ended fd) = some fd
descriptor (connecting fd endpoint) = some fd
descriptor (serving fd client) = some fd

-- The client's descriptor while its stream is open.
abbrev pub open_stream : Task → Option ℕ
open_stream absent = none
open_stream (reading fd) = some fd
open_stream (routing fd) = some fd
open_stream (ended fd) = none
open_stream (connecting fd endpoint) = some fd
open_stream (serving fd client) = some fd

abbrev pub Tasks : Type 0
Tasks = ℕ → Task

abbrev pub update : Tasks → ℕ → Task → Tasks
update tasks i task j = if i == j then task else tasks j

-- No open stream has the descriptor: what the system promises of an accepted one.
abbrev pub NotOpen : ℕ → Tasks → Type 0
NotOpen fd tasks = (j : ℕ) → open_stream (tasks j) ≢ some fd

-- Nor has a task that is yet to remove its entries.
abbrev pub NotHeld : ℕ → Tasks → Type 0
NotHeld fd tasks = (j : ℕ) → descriptor (tasks j) ≢ some fd

module _ (C : CacheApi Bytes CacheEntry) (D : CacheApi Bytes IpAddr) (T : MapApi ℕ TcpClient)
    (P : MapApi ℕ ℕ) (B : BpfApi) where
  -- No kept connection has the descriptor.
  abbrev pub IsNew : ℕ → Tcp C D T P B → Type 0
  IsNew b t = (fd : ℕ) (client : TcpClient) → T.get fd t.connections ≡ some client → client.fd ≢ b

  abbrev pub routed :
      Worker C D T P B
      → Result ResolverError ConnectionResult × Adapter C.Store × DnsState D.Store
      → Worker C D T P B
  routed w (r, base, dns) = record w { adapter = record w.adapter { base = base }; dns = dns }

  abbrev pub connected : ℕ → TcpClient → Worker C D T P B → Worker C D T P B
  connected fd client w = record w { adapter = (keep C D T P B fd w.adapter w.dns (ok client)).1 }

  abbrev pub activated : Names → ℕ → Worker C D T P B → Worker C D T P B
  activated names fd w =
      let out = activate_sockmap C D T P B names fd w.adapter w.loader in
      record w { adapter = out.1; loader = out.2 }

  abbrev pub closed : ℕ → Worker C D T P B → Worker C D T P B
  closed fd w =
      let out = close_connection C D T P B fd w.adapter w.loader in
      record w { adapter = out.0; loader = out.1 }

  -- One step of one task. Its reads and writes and the upgrade to TLS change nothing that is shared: they are waits in
  -- the state of reading or of serving, and where one fails or the peer is done, `run_client` ends.
  pub data Move (w : Worker C D T P B) : Task → Worker C D T P B → Task → Type 0 where
    finds :
        {fd : ℕ} {client : TcpClient}
        → T.get fd w.adapter.connections ≡ some client
        → Move w (reading fd) w (serving fd client)
    misses : {fd : ℕ} → T.get fd w.adapter.connections ≡ none → Move w (reading fd) w (routing fd)
    routes :
        {fd : ℕ} (env : RouteEnv) (data' : Bytes) (r : ConnectionResult)
        → (route C D env w.adapter.base w.dns data').0 ≡ ok r
        → Move w
            (routing fd)
            (routed w (route C D env w.adapter.base w.dns data'))
            (connecting fd r.endpoint)
    refuses :
        {fd : ℕ} (env : RouteEnv) (data' : Bytes) (e : ResolverError)
        → (route C D env w.adapter.base w.dns data').0 ≡ err e
        → Move w (routing fd) (routed w (route C D env w.adapter.base w.dns data')) (ended fd)
    connects :
        {fd : ℕ} {endpoint : Bytes} (env : TcpEnv) (client : TcpClient)
        → connect C D T P B env w.adapter endpoint ≡ ok client
        → IsNew client.fd w.adapter
        → Move w (connecting fd endpoint) (connected fd client w) (serving fd client)
    fails :
        {fd : ℕ} {endpoint : Bytes} (env : TcpEnv) (e : ProxyError)
        → connect C D T P B env w.adapter endpoint ≡ err e
        → Move w (connecting fd endpoint) w (ended fd)
    activates :
        {fd : ℕ} {client : TcpClient} (names : Names)
        → Move w (serving fd client) (activated names fd w) (serving fd client)
    leaves : {fd : ℕ} → Move w (reading fd) w (ended fd)
    finishes : {fd : ℕ} {client : TcpClient} → Move w (serving fd client) w (ended fd)
    closes : {fd : ℕ} → Move w (ended fd) (closed fd w) absent

  pub record System : Type 0 where
    pub worker : Worker C D T P B
    pub tasks : Tasks

  module _ (Free : ℕ → Tasks → Type 0) where
    -- A connection is accepted, with a descriptor that is free in the sense given, or a task takes a step.
    pub data Step (s : System) : System → Type 0 where
      accepts :
          (i fd : ℕ)
          → s.tasks i ≡ absent
          → Free fd s.tasks
          → Step s (record s { tasks = update s.tasks i (reading fd) })
      moves :
          (i : ℕ) {w : Worker C D T P B} {task : Task}
          → Move s.worker (s.tasks i) w task
          → Step s (record { worker = w; tasks = update s.tasks i task })

    -- What a port reaches from a worker with empty tables.
    pub data Reach (start : Worker C D T P B) : System → Type 0 where
      starts :
          start.adapter.connections ≡ T.new
          → start.adapter.sockmap_pairs ≡ P.new
          → Reach start (record { worker = start; tasks = λ i. absent })
      later : {s t : System} → Reach start s → Step s t → Reach start t
