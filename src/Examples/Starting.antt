-- ===== src/Examples/Starting.antt =====
-- The start of a TCP server: the configuration for TLS and the BPF object.
use protocol_proxy.Sockmap.Pairs.{Inner}
use protocol_proxy.Dns.{initial_dns}
use protocol_proxy.TcpServer.Session.{Shared}
use protocol_proxy.TcpServer.Config.{TcpConfig}
use protocol_proxy.Tls.Context.{TlsApi, build_tls_acceptor, rustls_server_config}
use protocol_proxy.Tls.Context.Verified.{IsVerifying}
use protocol_proxy.TcpServer.Start.Mutual.{start-IsVerifying}
use protocol_proxy.TcpServer.Start.{StartEnv, start}
use protocol_proxy.Tls.{Tls}
use protocol_proxy.Sockmap.Object.{Object, ObjectEnv, load_inner}
use protocol_proxy.Sockmap.Loader as Loaders
use protocol_proxy.Examples.Serving.{tcp_settings, start_env}
use protocol_proxy.Examples.Data.{routes_cache, resolver, hosts_cache, clients, pairs, table}
use protocol_proxy.Prelude.{
  bytes_eq, nat_eq, [], ◌∷◌, some, true, false, ok, err, refl, if◌then◌else◌, codes, ◌==◌, ◌&&◌,
  Bytes, Option, Result, List, ◌≡◌, lookup, bytes_beq,
}

-- A certificate is a file's text, and so is a key; roots are a list and a configuration is all of these.
abbrev texts : TlsApi
texts = record {
  Cert = Bytes;
  Key = Bytes;
  Roots = List Bytes;
  Verifier = List Bytes;
  ServerConfig = Option (List Bytes) × List Bytes × Bytes;
  open_file = λ path. ok path;
  certs = λ text. ok (text ∷ []);
  private_key = λ text. ok (some text);
  empty = [];
  add = λ cert roots. ok (cert ∷ roots);
  client_verifier = λ roots. ok roots;
  with_single_cert = λ verifier certs key. ok (verifier, certs, key);
}

abbrev two_way : Tls
two_way = record {
  certificate = codes "cert.pem";
  key = codes "key.pem";
  ca = codes "ca.pem";
  require_client_cert = true;
  ciphers = [];
  min_protocol = 32;
}

abbrev mutual_config : TcpConfig
mutual_config = record tcp_settings { tls = some two_way }

abbrev mutual_env : StartEnv routes_cache hosts_cache clients pairs table
mutual_env = record start_env { acceptor = build_tls_acceptor texts }

abbrev mutual_started : Result Bytes (Shared routes_cache hosts_cache clients pairs table)
mutual_started =
    start routes_cache hosts_cache clients pairs table mutual_config mutual_env resolver initial_dns

abbrev empty_shared : Shared routes_cache hosts_cache clients pairs table
empty_shared = record {
  config = tcp_settings;
  adapters = [];
  tls_acceptor = false;
  dns = initial_dns;
  loader = Loaders.new table;
}

abbrev shared : Shared routes_cache hosts_cache clients pairs table
shared = elim mutual_started [ ok s ↦ s | err e ↦ empty_shared ]

start-IsVerifying_example :
    (shared.tls_acceptor ≡ true)
    × ((server_config : Option (List Bytes) × List Bytes × Bytes) × (rustls_server_config texts
            two_way
          ≡ ok server_config)
        × IsVerifying texts two_way server_config)
unfolding start protocol_proxy.TcpServer.Config.new build_tls_acceptor
    protocol_proxy.Text.Decimal.print_decimal protocol_proxy.Text.Decimal.parse_uint
    protocol_proxy.Net.parse_ipv4
start-IsVerifying_example =
    start-IsVerifying routes_cache hosts_cache clients pairs table texts mutual_config mutual_env
      resolver initial_dns two_way shared refl refl refl refl

abbrev relay_object : Object table.Map
relay_object = record {
  maps = (codes "stats", (3, [])) ∷ (codes "peers", (4, [])) ∷ [];
  progs = (codes "relay", 5) ∷ [];
}

abbrev object_env : ObjectEnv table.Map
object_env = record {
  is_file = λ path. true;
  open_file = λ path. ok tt;
  load_object = λ path. ok relay_object;
  prog_attach = λ attr.
      if attr.target_fd == 4 && attr.attach_type == 5
      then ok tt
      else err (codes "Invalid argument");
}

abbrev loaded_inner : Inner table.Map
loaded_inner = record { peers = some []; allocated_pairs = [] }

-- The program `relay` is attached to the table `peers`, and the table of another name is left alone.
load_inner_attaches : load_inner object_env (codes "relay.bpf.o") ≡ ok loaded_inner
unfolding load_inner lookup bytes_beq
load_inner_attaches = refl
