-- ===== src/TcpServer/Start.antt =====
-- `TcpServer::start` of rust/crates/utopia-proxy/src/server/tcp/server.rs up to its accept loops: the checks of the
-- settings, the loader, an adapter for each port and the binding of the ports. Reading certificates, loading the BPF
-- object, the system's binding of a port and the adapters of a factory are arguments.
pub mod Adapters
pub mod Mutual
pub mod Guarded
use protocol_proxy.Text.Decimal.{print_decimal}
use protocol_proxy.TcpServer.Sockopts.{Setting, apply_listener}
use protocol_proxy.TcpServer.Session.{Shared}
use protocol_proxy.Dns.{DnsState}
use protocol_proxy.Resolver.{Resolver}
use protocol_proxy.Sockmap.Loader.{Loader}
use protocol_proxy.Sockmap.Loader
use protocol_proxy.TcpServer.Config.{TcpConfig}
use protocol_proxy.Tls.{Tls, validate}
use protocol_proxy.Sockmap.Pairs.{BpfApi, Inner}
use protocol_proxy.Adapter.Tcp.{
  new, TcpClient, set_timeout, Tcp, set_connect_timeout, set_tcp_user_timeout, set_tcp_quickack,
  set_tcp_notsent_lowat, set_sockmap,
}
use protocol_proxy.Net.{IpAddr, is_socket_addr}
use protocol_proxy.Adapter.Route.{CacheEntry, set_skip_validation, set_cache_ttl}
use protocol_proxy.External.{CacheApi, MapApi}
use protocol_proxy.Prelude.{
  nat_eq, ◌>>=◌, [], ◌∷◌, none, some, true, false, ok, err, if◌then◌else◌, codes, ◌++◌, ◌&&◌, Bytes,
  Option, Result, List, Bool, ℕ, insert, not, is_empty, map_err, ltb, max,
}

-- How a listener is bound: the address, the options before it and after it, and the length of its queue.
pub record Listening : Type 0 where
  pub address : Bytes
  pub reuse_address : Bool
  pub reuse_port : Bool
  pub backlog : ℕ
  pub settings : List Setting

unfoldable pub listening : TcpConfig → ℕ → Listening
unfolding apply_listener
listening config port = record {
  address = config.host ++ b':' ∷ print_decimal port;
  reuse_address = true;
  reuse_port = config.enable_reuse_port;
  backlog = max config.backlog 1;
  settings = apply_listener config;
}

module _ (C : CacheApi Bytes CacheEntry) (D : CacheApi Bytes IpAddr) (T : MapApi ℕ TcpClient)
    (P : MapApi ℕ ℕ) (B : BpfApi) where
  pub record StartEnv : Type 0 where
    pub is_file : Bytes → Bool
    pub acceptor : Tls → Result Bytes (Unit {0})
    pub loaded : Result Bytes (Inner B.Map)
    pub factory : ℕ → ℕ → Resolver → Tcp C D T P B
    pub bind : Listening → Result Bytes (Unit {0})

  abbrev tls_error : Bytes → Bytes
  tls_error e = codes "TLS: " ++ e

  -- Whether there is an acceptor.
  unfoldable pub tls_acceptor : StartEnv → Option Tls → Result Bytes Bool
  unfolding validate
  tls_acceptor env none = ok false
  tls_acceptor env (some tls) = do
    _ ← map_err tls_error (validate env.is_file tls)
    _ ← map_err tls_error (env.acceptor tls)
    ok true

  -- The loader, and whether the adapters get it.
  unfoldable pub load_sockmap : TcpConfig → StartEnv → Bool × Loader B.Map
  load_sockmap config env =
      if config.sockmap_enabled && not (is_empty config.sockmap_bpf_object)
      then Loader.load B env.loaded (Loader.new B)
      else (false, Loader.new B)

  unfoldable pub new_adapter : TcpConfig → StartEnv → Resolver → ℕ → Tcp C D T P B
  new_adapter config env resolver port = elim config.adapter_factory [
    | some factory ↦ env.factory factory port resolver
    | none ↦ new C D T P B port (some resolver)
  ]

  -- The settings of the server, put on an adapter.
  unfoldable pub configure : TcpConfig → Bool → Tcp C D T P B → Tcp C D T P B
  unfolding set_timeout set_connect_timeout set_tcp_user_timeout set_tcp_quickack
      set_tcp_notsent_lowat set_sockmap set_skip_validation set_cache_ttl
  configure config sockmap t =
      let timed = set_connect_timeout config.connect_timeout (set_timeout config.timeout t) in
      let tuned = set_sockmap sockmap (
        set_tcp_notsent_lowat config.tcp_notsent_lowat (
          set_tcp_quickack config.tcp_quickack
            (set_tcp_user_timeout config.tcp_user_timeout_ms timed))) in
      let base =
        if config.skip_validation then set_skip_validation true tuned.base else tuned.base in
      record tuned {
        base = if ltb 0 config.cache_ttl then set_cache_ttl config.cache_ttl base else base;
      }

  abbrev pub Adapters : Type 0
  Adapters = List (ℕ × Tcp C D T P B)

  unfoldable pub build_adapters :
      TcpConfig → StartEnv → Resolver → Bool → List ℕ → Adapters → Adapters
  unfolding configure new_adapter insert
  build_adapters config env resolver sockmap [] built = built
  build_adapters config env resolver sockmap (port ∷ ports) built =
      build_adapters config env resolver sockmap ports
        (insert port (configure config sockmap (new_adapter config env resolver port)) built)

  unfoldable pub bind_port : TcpConfig → StartEnv → ℕ → Result Bytes (Unit {0})
  unfolding is_socket_addr listening
  bind_port config env port =
      if is_socket_addr (listening config port).address
      then env.bind (listening config port)
      else err (codes "invalid socket address syntax")

  -- The first port that cannot be bound ends the start.
  unfoldable pub bind_ports : TcpConfig → StartEnv → List ℕ → Result Bytes (Unit {0})
  unfolding bind_port
  bind_ports config env [] = ok tt
  bind_ports config env (port ∷ ports) = elim (bind_port config env port) [
    | err e ↦ err e
    | ok done ↦ bind_ports config env ports
  ]

  unfoldable pub start :
      TcpConfig → StartEnv → Resolver → DnsState D.Store → Result Bytes (Shared C D T P B)
  unfolding tls_acceptor load_sockmap build_adapters bind_ports
  start config env resolver dns =
      if is_empty config.ports then err (codes "TcpConfig::ports must not be empty") else do
        acceptor ← tls_acceptor env config.tls
        _ ← bind_ports config env config.ports
        ok (record {
          config = config;
          adapters = build_adapters config env resolver (load_sockmap config env).0 config.ports [];
          tls_acceptor = acceptor;
          dns = dns;
          loader = (load_sockmap config env).1;
        })
