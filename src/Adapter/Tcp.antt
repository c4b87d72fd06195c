-- ===== src/Adapter/Tcp.antt =====
-- `TcpAdapter` of rust/crates/utopia-proxy/src/adapter/tcp.rs on Linux: the backend connection of each client
-- and the pairs that the kernel relays. The tables are `DashMap`'s, the connecting is the system's. The
-- loader is shared between adapters, so its state stands beside the adapter's.
pub mod Held
pub mod Tables
pub mod Dialing
use protocol_proxy.Adapter.Endpoint.{parse_endpoint}
use protocol_proxy.Dns.{DnsState, nanos_per_second}
use protocol_proxy.Net.{IpAddr}
use protocol_proxy.Text.Decimal.{print_decimal}
use protocol_proxy.Resolver.{
  Duration, Resolver, ProxyError, ResolverError, ConnectionResult, backend_connect, resolver_error,
}
use protocol_proxy.Protocol.{Protocol, from_port}
use protocol_proxy.Prelude.{
  [], ◌∷◌, none, some, true, false, ok, err, if◌then◌else◌, codes, ◌++◌, ◌==◌, ◌&&◌, ◌||◌, Option,
  Result, List, Bool, ℕ, Bytes, not, ltb, leb, is_some, ◌*◌, ◌^◌, ◌-◌,
}
use protocol_proxy.External.{CacheApi, MapApi}
use protocol_proxy.Adapter.Route.{Adapter, CacheEntry, RouteEnv, route}
use protocol_proxy.Adapter.Route
use protocol_proxy.Sockmap.Pairs.{BpfApi, Names}
use protocol_proxy.Sockmap.Loader.{Loader}
use protocol_proxy.Sockmap.Loader

-- A `c_int`, by its sign.
pub data CInt : Type 0 where
  non_negative negative : ℕ → CInt

-- `as c_int` from a `u32`: from 2 ^ 31 on the number wraps round to a negative one.
abbrev pub as_c_int : ℕ → CInt
as_c_int n = if ltb n (2 ^ 31) then non_negative n else negative (2 ^ 32 - n)

-- A socket option of the TCP level and its value.
abbrev pub SocketOption : Type 0
SocketOption = ℕ × CInt

-- A stream to a backend: the host and the port that were dialed, and the options set on it.
pub record Stream : Type 0 where
  pub host : Bytes
  pub port : ℕ
  pub options : List SocketOption

pub record TcpClient : Type 0 where
  pub stream : Stream
  pub fd : ℕ

-- What dialing gives: a descriptor, or a failure of the connect or of `set_nodelay`.
pub data Dial : Type 0 where
  connected : (fd : ℕ) → Dial
  timed_out : Dial
  refused no_delay_failed : (message : Bytes) → Dial

pub record TcpEnv : Type 0 where
  pub route : RouteEnv
  pub dial : Bytes → ℕ → Duration → Dial

pub record TcpAdapter (S Conns Pairs : Type 0) : Type 0 where
  pub base : Adapter S
  pub port : ℕ
  pub connections : Conns
  pub sockmap_pairs : Pairs
  pub has_sockmap : Bool
  pub timeout : Duration
  pub connect_timeout : Duration
  pub tcp_user_timeout_ms : ℕ
  pub tcp_quickack : Bool
  pub tcp_notsent_lowat : ℕ

abbrev pub tcp_user_timeout : ℕ
tcp_user_timeout = 18

abbrev pub tcp_quickack_option : ℕ
tcp_quickack_option = 12

abbrev pub tcp_notsent_lowat_option : ℕ
tcp_notsent_lowat_option = 25

abbrev set_if : Bool → SocketOption → List SocketOption → List SocketOption
set_if b o rest = if b then o ∷ rest else rest

abbrev timeout_message : Bytes → ℕ → Bytes
timeout_message host port =
    codes "Timeout connecting to backend: " ++ (host ++ b':' ∷ print_decimal port)

abbrev failure_message : Bytes → ℕ → Bytes → Bytes
failure_message host port e =
    codes "Failed to connect to backend: "
    ++ (host ++ b':' ∷ (print_decimal port ++ (codes ": " ++ e)))

module _ {S Conns Pairs : Type 0} where
  unfoldable pub protocol : TcpAdapter S Conns Pairs → Protocol
  protocol t = from_port t.port

  unfoldable pub set_timeout : Duration → TcpAdapter S Conns Pairs → TcpAdapter S Conns Pairs
  set_timeout timeout t = record t { timeout = timeout }

  unfoldable pub set_connect_timeout :
      Duration → TcpAdapter S Conns Pairs → TcpAdapter S Conns Pairs
  set_connect_timeout timeout t = record t { connect_timeout = timeout }

  unfoldable pub set_tcp_user_timeout : ℕ → TcpAdapter S Conns Pairs → TcpAdapter S Conns Pairs
  set_tcp_user_timeout milliseconds t = record t { tcp_user_timeout_ms = milliseconds }

  unfoldable pub set_tcp_quickack : Bool → TcpAdapter S Conns Pairs → TcpAdapter S Conns Pairs
  set_tcp_quickack enabled t = record t { tcp_quickack = enabled }

  unfoldable pub set_tcp_notsent_lowat : ℕ → TcpAdapter S Conns Pairs → TcpAdapter S Conns Pairs
  set_tcp_notsent_lowat bytes t = record t { tcp_notsent_lowat = bytes }

  -- Whether there is a loader; the loader's state stands beside.
  unfoldable pub set_sockmap : Bool → TcpAdapter S Conns Pairs → TcpAdapter S Conns Pairs
  set_sockmap sockmap t = record t { has_sockmap = sockmap }

  -- The options that `apply_socket_options` sets, in its order.
  unfoldable pub apply_socket_options : TcpAdapter S Conns Pairs → List SocketOption
  apply_socket_options t =
      if t.tcp_user_timeout_ms == 0 && (not t.tcp_quickack && t.tcp_notsent_lowat == 0)
      then []
      else set_if (ltb 0 t.tcp_user_timeout_ms) (tcp_user_timeout, as_c_int t.tcp_user_timeout_ms)
          (set_if t.tcp_quickack (tcp_quickack_option, non_negative 1)
            (set_if (ltb 0 t.tcp_notsent_lowat)
              (tcp_notsent_lowat_option, as_c_int t.tcp_notsent_lowat) []))

module _ (C : CacheApi Bytes CacheEntry) (D : CacheApi Bytes IpAddr) (T : MapApi ℕ TcpClient)
    (P : MapApi ℕ ℕ) (B : BpfApi) where
  abbrev pub Tcp : Type 0
  Tcp = TcpAdapter C.Store T.Map P.Map

  unfoldable pub new : ℕ → Option Resolver → Tcp
  new port resolver = record {
    base = Route.new C D resolver (from_port port);
    port = port;
    connections = T.new;
    sockmap_pairs = P.new;
    has_sockmap = false;
    timeout = 30 * nanos_per_second;
    connect_timeout = 5 * nanos_per_second;
    tcp_user_timeout_ms = 0;
    tcp_quickack = false;
    tcp_notsent_lowat = 0;
  }

  -- Dialing a routed endpoint.
  unfoldable pub connect : TcpEnv → Tcp → Bytes → Result ProxyError TcpClient
  connect env t endpoint =
      let (host, port) = parse_endpoint endpoint t.port in
      elim (env.dial host port t.connect_timeout) [
        | timed_out ↦ err (backend_connect (timeout_message host port))
        | refused e ↦ err (backend_connect (failure_message host port e))
        | no_delay_failed e ↦ err (backend_connect (codes "set_nodelay failed: " ++ e))
        | connected fd ↦ ok (record {
          stream = record { host = host; port = port; options = apply_socket_options t };
          fd = fd;
        })
      ]

  abbrev pub keep :
      ℕ
      → Tcp
      → DnsState D.Store
      → Result ProxyError TcpClient
      → Result ProxyError TcpClient × Tcp × DnsState D.Store
  keep fd t dns (err e) = (err e, t, dns)
  keep fd t dns (ok client) =
      (ok client, record t { connections = T.insert fd client t.connections }, dns)

  dial_routed :
      TcpEnv
      → ℕ
      → Tcp
      → Result ResolverError ConnectionResult × Adapter C.Store × DnsState D.Store
      → Result ProxyError TcpClient × Tcp × DnsState D.Store
  dial_routed env fd t (err e, base, dns) = (err (resolver_error e), record t { base = base }, dns)
  dial_routed env fd t (ok r, base, dns) =
      keep fd (record t { base = base }) dns (connect env t r.endpoint)

  unfoldable pub get_connection :
      TcpEnv
      → Bytes
      → ℕ
      → Tcp
      → DnsState D.Store
      → Result ProxyError TcpClient × Tcp × DnsState D.Store
  unfolding dial_routed
  get_connection env data' fd t dns = elim (T.get fd t.connections) [
    | some existing ↦ (ok existing, t, dns)
    | none ↦ dial_routed env fd t (route C D env.route t.base dns data')
  ]

  abbrev activated : ℕ → ℕ → Tcp → Bool × Loader B.Map → Bool × Tcp × Loader B.Map
  activated client_fd backend_fd t (false, l) = (false, t, l)
  activated client_fd backend_fd t (true, l) =
      (true, record t { sockmap_pairs = P.insert client_fd backend_fd t.sockmap_pairs }, l)

  unfoldable pub activate_sockmap : Names → ℕ → Tcp → Loader B.Map → Bool × Tcp × Loader B.Map
  activate_sockmap names client_fd t l =
      if not t.has_sockmap || not l.available
      then (false, t, l)
      else elim (T.get client_fd t.connections) [
        | none ↦ (false, t, l)
        | some client ↦
            if leb client.fd 0
            then (false, t, l)
            else activated client_fd client.fd t (Loader.insert_pair B names client_fd client.fd l)
      ]

  unfoldable pub is_sockmap_active : ℕ → Tcp → Bool
  is_sockmap_active client_fd t = is_some (P.get client_fd t.sockmap_pairs)

  unfoldable pub close_connection : ℕ → Tcp → Loader B.Map → Tcp × Loader B.Map
  close_connection fd t l = (
    record t {
      connections = T.remove fd t.connections;
      sockmap_pairs = P.remove fd t.sockmap_pairs;
    },
    if is_some (P.get fd t.sockmap_pairs) && t.has_sockmap then Loader.remove_pair B fd l else l,
  )
