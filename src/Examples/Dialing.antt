-- ===== src/Examples/Dialing.antt =====
-- Connections of a port of a server that has started.
use protocol_proxy.TcpServer.Tasks.{NotHeld}
use protocol_proxy.TcpServer.Tasks.Guarded.{IsGuardedTask, IsSafelyDialed}
use protocol_proxy.TcpServer.Start.Guarded.{start-AreDialed}
use protocol_proxy.TcpServer.Start.{start}
use protocol_proxy.TcpServer.Session.{Shared}
use protocol_proxy.Examples.Serving.{start_env}
use protocol_proxy.TcpServer.Config as Configs
use protocol_proxy.TcpServer.Config.{TcpConfig}
use protocol_proxy.TcpServer.Start.{configure}
use protocol_proxy.Adapter.Tcp as Adapters
use protocol_proxy.Adapter.Tcp.{TcpEnv, TcpClient}
use protocol_proxy.Examples.Data.{
  routes_laws, routes_cache, hosts_cache, clients, pairs, table, resolver, clients_laws, pairs_laws,
}
use protocol_proxy.Dns.{initial_dns}
use protocol_proxy.Prelude.{
  nat_eq, bytes_eq, [], some, ok, ℕ, refl, ◌≡◌, lookup, false, ◌∷◌, Bytes, Result,
}
use protocol_proxy.Examples.Interleaving.{two, two-Reach, worker}

-- The settings that a fresh adapter has anyway.
abbrev config : TcpConfig
config = record (Configs.new 4 (5432 ∷ [])) {
  tcp_user_timeout_ms = 0;
  tcp_quickack = false;
  tcp_notsent_lowat = 0;
}

abbrev started : Result Bytes (Shared routes_cache hosts_cache clients pairs table)
started = start routes_cache hosts_cache clients pairs table config start_env resolver initial_dns

abbrev shared : Shared routes_cache hosts_cache clients pairs table
shared = record {
  config = config;
  adapters = (5432, worker.adapter) ∷ [];
  tls_acceptor = false;
  dns = initial_dns;
  loader = worker.loader;
}

starts_shared : started ≡ ok shared
unfolding Adapters.new configure Configs.new start protocol_proxy.Text.Decimal.print_decimal
    protocol_proxy.Text.Decimal.parse_uint protocol_proxy.Net.parse_ipv4
starts_shared = refl

start-AreDialed_example :
    ((i : ℕ) → IsGuardedTask 5432 (two.tasks i))
    × ((fd : ℕ) (client : TcpClient)
        → lookup fd two.worker.adapter.connections ≡ some client
        → IsSafelyDialed 5432 client)
unfolding Configs.new lookup
start-AreDialed_example =
    start-AreDialed routes_cache hosts_cache clients pairs table routes_laws clients_laws pairs_laws
      config start_env resolver initial_dns shared 5432 worker.adapter NotHeld refl refl
      starts_shared refl two-Reach
