-- ===== src/Examples/Serving.antt =====
-- The TCP server and the program around the servers.
use protocol_proxy.External.{list_map}
use protocol_proxy.TcpServer.Forwarding.{
  Turn, from_client, from_backend, whole, Sides, forward_serialised, forward_serialised-IsRelayed,
  forward_serialised-all, IsRelayed, Write, broken,
}
use protocol_proxy.Proxy.Defaults.{route-default}
use protocol_proxy.TcpServer.Session.Tables.{Forgets, handle_connection-Forgets}
use protocol_proxy.TcpServer.Start.Adapters.{IsConfigured, is_port, start-IsConfigured}
use protocol_proxy.Protocol as Protocols
use protocol_proxy.Http.Config as HttpSettings
use protocol_proxy.Http.Config.{HttpConfig}
use protocol_proxy.Http.Server as HttpServer
use protocol_proxy.Http.Server.{Bind, plain, reuse_port}
use protocol_proxy.Http.Server.Workers.{IsExclusive, start-plain}
use protocol_proxy.Dns.{nanos_per_second, initial_dns}
use protocol_proxy.Proxy.Ports.{in_range, tcp_config-in_range}
use protocol_proxy.TcpServer.Config.{
  new, with_connect_timeout, with_timeout, with_skip_validation, with_workers,
}
use protocol_proxy.Examples.Data.{
  env, routes_cache, hosts_cache, table, clients, pairs, resolver, clients_laws, pairs_laws,
}
use protocol_proxy.Resolver.{ResolverError, code, forbidden_code}
use protocol_proxy.Adapter.Route.{Adapter, route}
use protocol_proxy.TcpServer.Start.{StartEnv, bind_ports, build_adapters, load_sockmap}
use protocol_proxy.Sockmap.Loader.{Loader}
use protocol_proxy.TcpServer.Session.{ClientEnv, Shared, Worker, handle_connection}
use protocol_proxy.Sockmap.Pairs.{Names}
use protocol_proxy.Adapter.Tcp as Tcp
use protocol_proxy.Adapter.Tcp.{TcpEnv, Tcp, connected}
use protocol_proxy.TcpServer.Config.{TcpConfig}
use protocol_proxy.Proxy.Run.{ProxyEnv}
use protocol_proxy.Proxy.{Protocol, Vars, build_resolver, env_bool}
use protocol_proxy.Prelude.{
  nat_eq, bytes_eq, [], ◌∷◌, none, some, true, false, ok, err, refl, if◌then◌else◌, codes, ◌≡◌,
  lookup, is_empty, all, ◌*◌, arith, Bytes, ℕ, Result, List, take,
}

abbrev no_vars : Vars
no_vars key = none

abbrev proxy_env : ProxyEnv
proxy_env = record {
  vars = no_vars;
  cpus = 4;
  parse_seconds = λ text. none;
  start_tcp = λ r config. ok tt;
  start_http = λ r config. ok tt;
  start_smtp = λ r config. ok tt;
}

abbrev pub tcp_settings : TcpConfig
tcp_settings = new 4 (5432 ∷ 3306 ∷ [])

abbrev tcp_env : TcpEnv
tcp_env = record { route = env; dial = λ host port limit. connected 9 }

abbrev names : Names
names = record { sockname = λ fd. none; peername = λ fd. none }

abbrev client_env : ClientEnv
client_env = record {
  tcp = tcp_env;
  names = names;
  read_some = λ size. ok (codes "db");
  write_answer = λ b. ok tt;
  flush_answer = ok tt;
  accept = ok tt;
  read_tls = λ size. ok (codes "db");
  held_elsewhere = false;
  write_all = λ client text. ok tt;
  flush = λ client. ok tt;
}

abbrev pub adapter : Tcp routes_cache hosts_cache clients pairs table
adapter = Tcp.new routes_cache hosts_cache clients pairs table 5432 (some resolver)

abbrev no_loader : Loader table.Map
no_loader = record { available = false; last_error = []; inner = none }

abbrev shared : Shared routes_cache hosts_cache clients pairs table
shared = record {
  config = tcp_settings;
  adapters = (5432, adapter) ∷ [];
  tls_acceptor = false;
  dns = initial_dns;
  loader = no_loader;
}

abbrev worker : Worker routes_cache hosts_cache clients pairs table
worker = record { adapter = adapter; dns = initial_dns; loader = no_loader }

abbrev pub start_env : StartEnv routes_cache hosts_cache clients pairs table
start_env = record {
  is_file = λ path. true;
  acceptor = λ tls. ok tt;
  loaded = err (codes "no object");
  factory = λ f port r. adapter;
  bind = λ port. ok tt;
}

handle_connection-Forgets_example :
    (after : Tcp routes_cache hosts_cache clients pairs table) × (lookup 5432
        (handle_connection routes_cache hosts_cache clients pairs table client_env 5432 7
          shared).1.adapters
      ≡ some after)
    × Forgets routes_cache hosts_cache clients pairs table clients_laws pairs_laws 7 7 adapter after
unfolding lookup
handle_connection-Forgets_example =
    handle_connection-Forgets routes_cache hosts_cache clients pairs table clients_laws pairs_laws
      client_env 5432 7 5432 7 shared adapter refl

abbrev started : Shared routes_cache hosts_cache clients pairs table
started = record {
  config = tcp_settings;
  adapters =
      build_adapters routes_cache hosts_cache clients pairs table tcp_settings start_env resolver
        false (5432 ∷ 3306 ∷ []) [];
  tls_acceptor = false;
  dns = initial_dns;
  loader = no_loader;
}

start-IsConfigured_example :
    (is_empty tcp_settings.ports ≡ false)
    × (bind_ports routes_cache hosts_cache clients pairs table tcp_settings start_env
          tcp_settings.ports
        ≡ ok tt)
    × ((t : Tcp routes_cache hosts_cache clients pairs table) × IsConfigured routes_cache
          hosts_cache clients pairs table tcp_settings start_env resolver
          (load_sockmap routes_cache hosts_cache clients pairs table tcp_settings start_env).0
          3306
          t
        × (lookup 3306 started.adapters
            ≡ (if is_port 3306 tcp_settings.ports then some t else none)))
unfolding new protocol_proxy.TcpServer.Start.start protocol_proxy.Sockmap.Loader.new
    protocol_proxy.Text.Decimal.print_decimal protocol_proxy.Text.Decimal.parse_uint
    protocol_proxy.Net.parse_ipv4
start-IsConfigured_example =
    start-IsConfigured routes_cache hosts_cache clients pairs table tcp_settings start_env resolver
      initial_dns started 3306 refl refl

abbrev default_tcp : TcpConfig
default_tcp = with_connect_timeout (5 * nanos_per_second) (
    with_timeout (30 * nanos_per_second)
      (with_skip_validation false (with_workers 4 (new 4 (5432 ∷ 3306 ∷ [])))))

tcp_config-in_range_example :
    (is_empty default_tcp.ports ≡ false)
    × (all in_range default_tcp.ports ≡ true)
    × (default_tcp.adapter_factory ≡ none)
    × (default_tcp.skip_validation ≡ env_bool no_vars (codes "TCP_SKIP_VALIDATION") false)
unfolding protocol_proxy.Proxy.Run.tcp_config
tcp_config-in_range_example = tcp_config-in_range proxy_env default_tcp refl

abbrev default_adapter : Adapter routes_cache.Store
default_adapter = record {
  resolver = some (build_resolver no_vars Protocol.http).0;
  protocol = Protocols.http;
  cache = [];
  cache_ttl = 0;
  skip_validation = false;
  on_resolve = none;
}

route-default_example :
    (e : ResolverError) × ((route routes_cache hosts_cache env default_adapter initial_dns
        (codes "a.example")).0
      ≡ err e)
    × (code e ≡ forbidden_code)
unfolding protocol_proxy.Adapter.Route.cached
route-default_example =
    route-default routes_cache hosts_cache env no_vars Protocol.http default_adapter initial_dns
      (codes "a.example") refl refl refl refl refl

abbrev two_workers : HttpConfig
two_workers = record (HttpSettings.default 4) { workers = 2; enable_reuse_port = false }

-- An address is bound once without `SO_REUSEPORT`.
abbrev once : Bind
once [] b = ok tt
once (b ∷ bound) plain = err (codes "Address already in use")
once (b ∷ bound) reuse_port = ok tt

once-IsExclusive : IsExclusive once
once-IsExclusive = record { taken = λ bound. (codes "Address already in use", refl) }

start-plain_example :
    (e : Bytes) × (HttpServer.start routes_cache hosts_cache list_map two_workers once
        (λ start worker_id a. a)
        none
        initial_dns
      ≡ err e)
start-plain_example =
    start-plain routes_cache hosts_cache list_map two_workers once (λ start worker_id a. a) none
      initial_dns once-IsExclusive refl (omega arith)

-- A socket that has the bytes, and gives as many of them as the buffer takes.
abbrev gives : Bytes → ℕ → Result Bytes Bytes
gives text size = ok (take size text)

abbrev none_taken : Sides
none_taken = record { to_backend = codes "hi"; to_client = [] }

abbrev three_turns : List Turn
three_turns =
    from_client (gives (codes "ab")) whole
    ∷ from_backend (gives (codes "xyz")) whole
    ∷ from_client (gives (codes "c")) whole
    ∷ []

forward_serialised-all_example :
    ((forward_serialised 2 three_turns none_taken).to_backend ≡ codes "hiabc")
    × ((forward_serialised 2 three_turns none_taken).to_client ≡ codes "xy")
forward_serialised-all_example = forward_serialised-all 2 three_turns none_taken refl

-- The second write to the backend breaks off, and the backend's bytes are not read.
abbrev broken_turns : List Turn
broken_turns =
    from_client (gives (codes "ab")) whole
    ∷ from_client (gives (codes "cd")) (broken 1)
    ∷ from_backend (gives (codes "xy")) whole
    ∷ []

broken_turns-taken :
    forward_serialised 2 broken_turns none_taken
    ≡ record { to_backend = codes "hiabc"; to_client = [] }
unfolding forward_serialised protocol_proxy.TcpServer.Forwarding.turn
broken_turns-taken = refl

forward_serialised-IsRelayed_example :
    IsRelayed 2 broken_turns none_taken (forward_serialised 2 broken_turns none_taken)
forward_serialised-IsRelayed_example = forward_serialised-IsRelayed 2 broken_turns none_taken
