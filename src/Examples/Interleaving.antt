-- ===== src/Examples/Interleaving.antt =====
-- Connections of one port that interleave.
use protocol_proxy.Adapter.Route.{route}
use protocol_proxy.Resolver.{ConnectionResult}
use protocol_proxy.TcpServer.Tasks.{
  Tasks, absent, reading, routing, ended, connecting, serving, update, NotOpen, NotHeld, IsNew,
  Step, routed, connected, closed, System, accepts, misses, routes, connects, finishes, closes,
  Reach, starts, later,
}
use protocol_proxy.TcpServer.Tasks.Owned.{Reach-drained, moved, update_self}
use protocol_proxy.TcpServer.Tasks.Isolated.{Reach-isolated, Reach-serialised}
use protocol_proxy.TcpServer.Tasks.Crossed.{Step-crossed, ended_at, reused_at, given_at, removed_at}
use protocol_proxy.TcpServer.Session.{Worker, bidirectional_copy, serialised, copied}
use protocol_proxy.Protocol as Protocols
use protocol_proxy.Adapter.Tcp as Adapters
use protocol_proxy.Adapter.Tcp.{TcpEnv, TcpClient}
use protocol_proxy.Sockmap.Loader as Loaders
use protocol_proxy.Examples.Data.{
  env, routes_cache, hosts_cache, clients, pairs, table, resolver, clients_laws, pairs_laws,
}
use protocol_proxy.Dns.{initial_dns}
use protocol_proxy.Prelude.{
  nat_eq, bytes_eq, [], some, ok, err, codes, ℕ, none, false, refl, ◌≡◌, lookup, arith, ==_iff, ◌≢◌,
  false, ◌∷◌, Bytes, Result,
}

abbrev Port : Type 0
Port = Worker routes_cache hosts_cache clients pairs table

abbrev Connections : Type 0
Connections = System routes_cache hosts_cache clients pairs table

abbrev pub worker : Port
worker = record {
  adapter = Adapters.new routes_cache hosts_cache clients pairs table 5432 (some resolver);
  dns = initial_dns;
  loader = Loaders.new table;
}

-- Dialing gives the descriptor.
abbrev dials : ℕ → TcpEnv
dials b = record { route = env; dial = λ host port limit. Adapters.connected b }

abbrev dialed : ℕ → TcpClient
dialed b = record { stream = record { host = codes "8.8.8.8"; port = 80; options = [] }; fd = b }

abbrev answer : ConnectionResult
answer = elim (route routes_cache hosts_cache env worker.adapter.base initial_dns (codes "db")).0 [
  | ok r ↦ r
  | err e ↦ record { endpoint = []; protocol = Protocols.tcp; metadata = [] }
]

abbrev routed_worker : Port → Port
routed_worker w =
    routed routes_cache hosts_cache clients pairs table w
      (route routes_cache hosts_cache env w.adapter.base w.dns (codes "db"))

abbrev served_worker : ℕ → ℕ → Port → Port
served_worker fd b w =
    connected routes_cache hosts_cache clients pairs table fd (dialed b) (routed_worker w)

abbrev served : ℕ → ℕ → ℕ → Connections → Connections
served i fd b s = record {
  worker = served_worker fd b s.worker;
  tasks =
      update
        (update (update (update s.tasks i (reading fd)) i (routing fd)) i
          (connecting fd answer.endpoint))
        i (serving fd (dialed b));
}

-- A client is accepted, looks for its backend, is routed and connects.
served-Reach :
    (Free : ℕ → Tasks → Type 0) (i fd b : ℕ) (s : Connections)
    → Reach routes_cache hosts_cache clients pairs table Free worker s
    → s.tasks i ≡ absent
    → Free fd s.tasks
    → lookup fd s.worker.adapter.connections ≡ none
    → (route routes_cache hosts_cache env s.worker.adapter.base s.worker.dns (codes "db")).0
      ≡ ok answer
    → Adapters.connect routes_cache hosts_cache clients pairs table
        (dials b)
        (routed_worker s.worker).adapter
        answer.endpoint
      ≡ ok (dialed b)
    → IsNew routes_cache hosts_cache clients pairs table b (routed_worker s.worker).adapter
    → Reach routes_cache hosts_cache clients pairs table Free worker (served i fd b s)
served-Reach Free i fd b s r slot free missing e c new =
    let s1 = record s { tasks = update s.tasks i (reading fd) } in
    let r1 : Reach routes_cache hosts_cache clients pairs table Free worker s1 =
      later r (accepts i fd slot free) in
    let r2 =
      moved routes_cache hosts_cache clients pairs table Free i r1
        (update_self s.tasks i (reading fd)) (misses missing) in
    let t2 = update s1.tasks i (routing fd) in
    let r3 =
      moved routes_cache hosts_cache clients pairs table Free i r2
        (update_self s1.tasks i (routing fd)) (routes env (codes "db") answer e) in
    moved routes_cache hosts_cache clients pairs table Free i r3
      (update_self t2 i (connecting fd answer.endpoint)) (connects (dials b) (dialed b) c new)

abbrev idle : Connections
idle = record { worker = worker; tasks = λ i. absent }

abbrev one : Connections
one = served 0 7 9 idle

abbrev pub two : Connections
two = served 1 8 10 one

one-Reach :
    (Free : ℕ → Tasks → Type 0)
    → Free 7 idle.tasks
    → Reach routes_cache hosts_cache clients pairs table Free worker one
unfolding Adapters.new Adapters.connect Adapters.apply_socket_options lookup route
    protocol_proxy.Protocol.from_port protocol_proxy.Adapter.Route.new
    protocol_proxy.Adapter.Route.cached protocol_proxy.Adapter.Route.ask
    protocol_proxy.Adapter.Route.validate protocol_proxy.Adapter.Endpoint.endpoint_parts
    protocol_proxy.Text.Split.splitn protocol_proxy.Text.Split.split_once
    protocol_proxy.Text.Decimal.parse_uint protocol_proxy.Net.parse_ip protocol_proxy.Dns.resolve
    protocol_proxy.Adapter.Blocked.is_blocked_ip protocol_proxy.Prelude.insert
    protocol_proxy.Prelude.bytes_beq protocol_proxy.Resolver.new_connection_result
    protocol_proxy.Adapter.Endpoint.endpoint_text protocol_proxy.Net.print_ip
    protocol_proxy.Adapter.Endpoint.parse_endpoint protocol_proxy.Text.Decimal.print_decimal
one-Reach Free free =
    served-Reach Free 0 7 9 idle (starts refl refl) refl free refl refl refl
      (λ fd client e same. cc)

pub two-Reach : Reach routes_cache hosts_cache clients pairs table NotHeld worker two
unfolding Adapters.new Adapters.connect Adapters.apply_socket_options lookup route
    protocol_proxy.Protocol.from_port protocol_proxy.Adapter.Route.new
    protocol_proxy.Adapter.Route.cached protocol_proxy.Adapter.Route.ask
    protocol_proxy.Adapter.Route.validate protocol_proxy.Adapter.Endpoint.endpoint_parts
    protocol_proxy.Text.Split.splitn protocol_proxy.Text.Split.split_once
    protocol_proxy.Text.Decimal.parse_uint protocol_proxy.Net.parse_ip protocol_proxy.Dns.resolve
    protocol_proxy.Adapter.Blocked.is_blocked_ip protocol_proxy.Prelude.insert
    protocol_proxy.Prelude.bytes_beq protocol_proxy.Resolver.new_connection_result
    protocol_proxy.Adapter.Endpoint.endpoint_text protocol_proxy.Net.print_ip
    protocol_proxy.Adapter.Endpoint.parse_endpoint protocol_proxy.Text.Decimal.print_decimal
two-Reach =
    served-Reach NotHeld 1 8 10 one (one-Reach NotHeld (λ j e. cc)) refl
      (λ j e. ground (arith, ==_iff 0 j)) refl refl refl
      (λ fd client e same. ground (arith, ==_iff 7 fd))

Reach-isolated_example : ◌≢◌ {A = ℕ} 9 10
unfolding Adapters.new Adapters.connect Adapters.apply_socket_options lookup route
    protocol_proxy.Protocol.from_port protocol_proxy.Adapter.Route.new
    protocol_proxy.Adapter.Route.cached protocol_proxy.Adapter.Route.ask
    protocol_proxy.Adapter.Route.validate protocol_proxy.Adapter.Endpoint.endpoint_parts
    protocol_proxy.Text.Split.splitn protocol_proxy.Text.Split.split_once
    protocol_proxy.Text.Decimal.parse_uint protocol_proxy.Net.parse_ip protocol_proxy.Dns.resolve
    protocol_proxy.Adapter.Blocked.is_blocked_ip protocol_proxy.Prelude.insert
    protocol_proxy.Prelude.bytes_beq protocol_proxy.Resolver.new_connection_result
    protocol_proxy.Adapter.Endpoint.endpoint_text protocol_proxy.Net.print_ip
    protocol_proxy.Adapter.Endpoint.parse_endpoint protocol_proxy.Text.Decimal.print_decimal
Reach-isolated_example =
    Reach-isolated routes_cache hosts_cache clients pairs table clients_laws pairs_laws 0 1 7 8
      (dialed 9) (dialed 10) two-Reach refl refl (omega arith)

Reach-serialised_example :
    bidirectional_copy routes_cache hosts_cache clients pairs table false 8 (dialed 10) two.worker
    ≡ serialised
unfolding Adapters.new Adapters.connect Adapters.apply_socket_options lookup route
    protocol_proxy.Protocol.from_port protocol_proxy.Adapter.Route.new
    protocol_proxy.Adapter.Route.cached protocol_proxy.Adapter.Route.ask
    protocol_proxy.Adapter.Route.validate protocol_proxy.Adapter.Endpoint.endpoint_parts
    protocol_proxy.Text.Split.splitn protocol_proxy.Text.Split.split_once
    protocol_proxy.Text.Decimal.parse_uint protocol_proxy.Net.parse_ip protocol_proxy.Dns.resolve
    protocol_proxy.Adapter.Blocked.is_blocked_ip protocol_proxy.Prelude.insert
    protocol_proxy.Prelude.bytes_beq protocol_proxy.Resolver.new_connection_result
    protocol_proxy.Adapter.Endpoint.endpoint_text protocol_proxy.Net.print_ip
    protocol_proxy.Adapter.Endpoint.parse_endpoint protocol_proxy.Text.Decimal.print_decimal
Reach-serialised_example =
    Reach-serialised routes_cache hosts_cache clients pairs table clients_laws pairs_laws 1 8
      (dialed 10) false two-Reach refl

-- The state after the first client's end has taken the entry of the second away.
abbrev crossed : Connections
crossed =
    removed_at routes_cache hosts_cache clients pairs table clients_laws pairs_laws one 0 1 7
      (dialed 9)

Step-crossed_example :
    Step routes_cache hosts_cache clients pairs table NotOpen one
      (ended_at routes_cache hosts_cache clients pairs table clients_laws pairs_laws one 0 7)
    × Step routes_cache hosts_cache clients pairs table NotOpen
        (ended_at routes_cache hosts_cache clients pairs table clients_laws pairs_laws one 0 7)
        (reused_at routes_cache hosts_cache clients pairs table clients_laws pairs_laws one 0 1 7)
    × Step routes_cache hosts_cache clients pairs table NotOpen
        (reused_at routes_cache hosts_cache clients pairs table clients_laws pairs_laws one 0 1 7)
        (given_at routes_cache hosts_cache clients pairs table clients_laws pairs_laws one 0 1 7
          (dialed 9))
    × Step routes_cache hosts_cache clients pairs table NotOpen
        (given_at routes_cache hosts_cache clients pairs table clients_laws pairs_laws one 0 1 7
          (dialed 9))
        crossed
    × (crossed.tasks 1 ≡ serving 7 (dialed 9))
    × (lookup 7 crossed.worker.adapter.connections ≡ none)
    × (bidirectional_copy routes_cache hosts_cache clients pairs table false 7
          (dialed 9)
          crossed.worker
        ≡ copied)
unfolding Adapters.new Adapters.connect Adapters.apply_socket_options lookup route
    protocol_proxy.Protocol.from_port protocol_proxy.Adapter.Route.new
    protocol_proxy.Adapter.Route.cached protocol_proxy.Adapter.Route.ask
    protocol_proxy.Adapter.Route.validate protocol_proxy.Adapter.Endpoint.endpoint_parts
    protocol_proxy.Text.Split.splitn protocol_proxy.Text.Split.split_once
    protocol_proxy.Text.Decimal.parse_uint protocol_proxy.Net.parse_ip protocol_proxy.Dns.resolve
    protocol_proxy.Adapter.Blocked.is_blocked_ip protocol_proxy.Prelude.insert
    protocol_proxy.Prelude.bytes_beq protocol_proxy.Resolver.new_connection_result
    protocol_proxy.Adapter.Endpoint.endpoint_text protocol_proxy.Net.print_ip
    protocol_proxy.Adapter.Endpoint.parse_endpoint protocol_proxy.Text.Decimal.print_decimal
Step-crossed_example =
    Step-crossed routes_cache hosts_cache clients pairs table clients_laws pairs_laws one 0 1 7
      (dialed 9) refl refl refl (λ k other e. ground (arith, ==_iff 0 k))

-- The only client ends, and its entries are removed.
abbrev over : Connections
over = record {
  worker = closed routes_cache hosts_cache clients pairs table 7 one.worker;
  tasks = update (update one.tasks 0 (ended 7)) 0 absent;
}

over-Reach : Reach routes_cache hosts_cache clients pairs table NotOpen worker over
over-Reach =
    let r1 =
      moved routes_cache hosts_cache clients pairs table NotOpen 0 (one-Reach NotOpen (λ j e. cc))
        refl finishes in
    moved routes_cache hosts_cache clients pairs table NotOpen 0 r1 refl closes

over-absent : (i : ℕ) → over.tasks i ≡ absent
over-absent i = ground arith

Reach-drained_example :
    (lookup 7 over.worker.adapter.connections ≡ none)
    × (lookup 7 over.worker.adapter.sockmap_pairs ≡ none)
Reach-drained_example =
    Reach-drained routes_cache hosts_cache clients pairs table clients_laws pairs_laws NotOpen 7
      over-Reach over-absent
