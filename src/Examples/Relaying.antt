-- ===== src/Examples/Relaying.antt =====
-- TCP clients, their backends and the pairs that the kernel relays.
use protocol_proxy.Sockmap.Loader.{Loader}
use protocol_proxy.Protocol.{postgresql}
use protocol_proxy.Dns.{initial_dns}
use protocol_proxy.Adapter.Tcp.Tables.{IsPair, Reach-IsPair, activates, sets_sockmap, gets, starts}
use protocol_proxy.Sockmap.Pairs.Dropped.{drop_inner-empty}
use protocol_proxy.Adapter.Tcp.Dialing.{IsDialed, get_connection-IsDialed}
use protocol_proxy.Sockmap.Pairs.Inserted.{peer_of, insert_pair-remove_pair}
use protocol_proxy.Examples.Data.{
  table, env, routes_cache, table_laws, hosts_cache, clients, pairs, resolver, routes_laws,
  clients_laws, pairs_laws,
}
use protocol_proxy.Sockmap.Pairs.{Names, Inner, drop_inner, build_tuple_key}
use protocol_proxy.Sockmap.Tuple.Fields.{IsRemote, tuple_key_injective}
use protocol_proxy.Sockmap.Tuple.{Remote, tuple_key}
use protocol_proxy.Adapter.Tcp.{
  TcpEnv, Tcp, TcpClient, get_connection, close_connection, connected, activate_sockmap,
  set_sockmap, is_sockmap_active,
}
use protocol_proxy.Adapter.Tcp
use protocol_proxy.Prelude.{
  nat_eq, bytes_eq, [], ◌∷◌, none, some, ok, refl, arith, if◌then◌else◌, codes, ◌==◌, ℕ, ◌≡◌, ◌<◌,
  lookup, ◌^◌, ◌/◌, ◌%◌, true,
}
use protocol_proxy.Sockmap.Loader
use protocol_proxy.Sockmap.Pairs
use protocol_proxy.Sockmap.Pairs.Owned

abbrev tcp_env : TcpEnv
tcp_env = record { route = env; dial = λ host port limit. connected 9 }

abbrev tcp_start : Tcp routes_cache hosts_cache clients pairs table
tcp_start = Tcp.new routes_cache hosts_cache clients pairs table 5432 (some resolver)

abbrev client_eight : TcpClient
client_eight = record {
  stream = record { host = codes "8.8.8.8"; port = 80; options = [] };
  fd = 9;
}

abbrev here : Remote
here = record { p0 = 0x15; p1 = 0x38; i0 = 10; i1 = 0; i2 = 0; i3 = 1 }

abbrev there : Remote
there = record { p0 = 0; p1 = 80; i0 = 8; i1 = 8; i2 = 8; i3 = 8 }

there-IsRemote : IsRemote there
there-IsRemote = record {
  p0_lt = omega arith;
  p1_lt = omega arith;
  i0_lt = omega arith;
  i1_lt = omega arith;
  i2_lt = omega arith;
  i3_lt = omega arith;
}

abbrev names : Names
names = record {
  sockname = λ fd. if fd == 7 then some here else some there;
  peername = λ fd. if fd == 7 then some there else some here;
}

abbrev bare : Inner table.Map
bare = record { peers = some []; allocated_pairs = [] }

bare_table : (k : ℕ) → lookup {V = ℕ} k [] ≡ none
unfolding lookup
bare_table k = refl

abbrev key_here : ℕ
key_here = tuple_key 5432 there

abbrev key_there : ℕ
key_there = tuple_key 80 here

get_connection-IsDialed_example :
    IsDialed routes_cache hosts_cache clients pairs table routes_laws tcp_start client_eight
unfolding get_connection Tcp.new Tcp.connect Tcp.apply_socket_options
    protocol_proxy.Protocol.from_port protocol_proxy.Adapter.Route.new
    protocol_proxy.Adapter.Route.Safety.run protocol_proxy.Adapter.Route.route
    protocol_proxy.Adapter.Route.cached protocol_proxy.Adapter.Route.ask
    protocol_proxy.Adapter.Route.validate protocol_proxy.Adapter.Endpoint.endpoint_parts
    protocol_proxy.Text.Split.splitn protocol_proxy.Text.Split.split_once
    protocol_proxy.Text.Decimal.parse_uint protocol_proxy.Net.parse_ip protocol_proxy.Dns.resolve
    protocol_proxy.Adapter.Blocked.is_blocked_ip protocol_proxy.Prelude.insert
    protocol_proxy.Prelude.bytes_beq protocol_proxy.Prelude.lookup
    protocol_proxy.Resolver.new_connection_result protocol_proxy.Adapter.Endpoint.endpoint_text
    protocol_proxy.Net.print_ip protocol_proxy.Adapter.Endpoint.parse_endpoint
    protocol_proxy.Text.Decimal.print_decimal
get_connection-IsDialed_example =
    get_connection-IsDialed routes_cache hosts_cache clients pairs table routes_laws (some resolver)
      postgresql initial_dns [] tcp_env (codes "db") 7 tcp_start client_eight tt refl refl refl

abbrev ready : Tcp routes_cache hosts_cache clients pairs table
ready =
    (get_connection routes_cache hosts_cache clients pairs table tcp_env (codes "db") 7 tcp_start
      initial_dns).1

insert_pair-remove_pair_example :
    let inner = (Pairs.insert_pair table names 7 9 bare).1 in
    (peer_of table table_laws key_here inner ≡ some 9)
    × (peer_of table table_laws key_here (Pairs.remove_pair table 7 inner) ≡ none)
    × (lookup 7 (Pairs.remove_pair table 7 inner).allocated_pairs ≡ none)
unfolding Pairs.build_tuple_key Pairs.insert_pair tuple_key
insert_pair-remove_pair_example =
    insert_pair-remove_pair table table_laws names 7 9 key_here key_there key_here bare
      (Pairs.insert_pair table names 7 9 bare).1 refl refl refl

drop_inner-empty_example :
    peer_of table table_laws key_here (drop_inner table (Pairs.insert_pair table names 7 9 bare).1)
    ≡ none
unfolding lookup
drop_inner-empty_example =
    drop_inner-empty table table_laws (Pairs.insert_pair table names 7 9 bare).1 key_here
      (Owned.inserts names 7 9 (Owned.loaded [] bare_table) refl)

abbrev pg_port : ℕ
pg_port = 5432

tuple_key_injective_example : (pg_port ≡ pg_port) × (there ≡ there)
tuple_key_injective_example =
    tuple_key_injective pg_port pg_port there there (omega arith) (omega arith) there-IsRemote
      there-IsRemote refl

abbrev kernel : Loader table.Map
kernel = record { available = true; last_error = []; inner = some bare }

abbrev relayed_state : Tcp routes_cache hosts_cache clients pairs table
relayed_state =
    (activate_sockmap routes_cache hosts_cache clients pairs table names 7 (set_sockmap true ready)
      kernel).1

Reach-IsPair_example :
    IsPair routes_cache hosts_cache clients pairs table clients_laws pairs_laws 7 9 relayed_state
unfolding activate_sockmap is_sockmap_active set_sockmap Loader.insert_pair Pairs.insert_pair
    build_tuple_key get_connection Tcp.new Tcp.connect Tcp.apply_socket_options
    protocol_proxy.Protocol.from_port protocol_proxy.Adapter.Route.new
    protocol_proxy.Adapter.Route.Safety.run protocol_proxy.Adapter.Route.route
    protocol_proxy.Adapter.Route.cached protocol_proxy.Adapter.Route.ask
    protocol_proxy.Adapter.Route.validate protocol_proxy.Adapter.Endpoint.endpoint_parts
    protocol_proxy.Text.Split.splitn protocol_proxy.Text.Split.split_once
    protocol_proxy.Text.Decimal.parse_uint protocol_proxy.Net.parse_ip protocol_proxy.Dns.resolve
    protocol_proxy.Adapter.Blocked.is_blocked_ip protocol_proxy.Prelude.insert
    protocol_proxy.Prelude.bytes_beq protocol_proxy.Prelude.lookup
    protocol_proxy.Resolver.new_connection_result protocol_proxy.Adapter.Endpoint.endpoint_text
    protocol_proxy.Net.print_ip protocol_proxy.Adapter.Endpoint.parse_endpoint
    protocol_proxy.Text.Decimal.print_decimal
Reach-IsPair_example =
    Reach-IsPair routes_cache hosts_cache clients pairs table clients_laws pairs_laws relayed_state
      7 9
      (activates names 7 kernel
        (sets_sockmap true (gets tcp_env (codes "db") 7 initial_dns (starts 5432 (some resolver)))))
      refl
