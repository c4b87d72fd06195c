-- ===== src/TcpServer/Session.antt =====
-- One connection of the TCP server, rust/crates/utopia-proxy/src/server/tcp/server.rs: `handle_connection`,
-- `run_client` and the choice of `bidirectional_copy`. A client is known by its descriptor. What its socket, the
-- TLS library and the backend's socket give are arguments; what the relaying of bytes does is no part of it.
pub mod Tables
use protocol_proxy.Text.Decimal.{print_decimal}
use protocol_proxy.Tls.{is_postgresql_ssl_request}
use protocol_proxy.Dns.{DnsState}
use protocol_proxy.TcpServer.Config.{TcpConfig}
use protocol_proxy.Sockmap.Loader.{Loader}
use protocol_proxy.Resolver.{ProxyError, io, configuration, tls}
use protocol_proxy.Net.{IpAddr}
use protocol_proxy.Adapter.Route.{CacheEntry}
use protocol_proxy.Sockmap.Pairs.{Names, BpfApi}
use protocol_proxy.External.{CacheApi, MapApi}
use protocol_proxy.Adapter.Tcp.{
  TcpEnv, TcpClient, Tcp, get_connection, close_connection, activate_sockmap,
}
use protocol_proxy.Prelude.{
  nat_eq, ◌>>=◌, [], ◌∷◌, none, some, true, false, ok, err, if◌then◌else◌, codes, ◌++◌, ◌==◌, ◌&&◌,
  Bytes, Result, List, Bool, ℕ, is_some, lookup, map_err, insert, ◌||◌,
}

-- What happens to one client: its first bytes, the upgrade to TLS and the bytes after it, and the write of them to
-- the backend. No bytes stand for a closed socket.
pub record ClientEnv : Type 0 where
  pub tcp : TcpEnv
  pub names : Names
  pub read_some : ℕ → Result Bytes Bytes
  pub write_answer : ℕ → Result Bytes (Unit {0})
  pub flush_answer : Result Bytes (Unit {0})
  pub accept : Result Bytes (Unit {0})
  pub read_tls : ℕ → Result Bytes Bytes
  -- Whether another connection holds the backend too when its bytes are to be copied.
  pub held_elsewhere : Bool
  pub write_all : TcpClient → Bytes → Result Bytes (Unit {0})
  pub flush : TcpClient → Result Bytes (Unit {0})

-- What a client that ends without an error came to: it closed at once, the kernel relayed its bytes, or
-- `copy_bidirectional` or `forward_serialised` did.
pub data Relay : Type 0 where
  closed by_kernel copied serialised : Relay

-- The byte `S`.
abbrev pg_ssl_response_ok : ℕ
pg_ssl_response_ok = b'S'

abbrev pub postgres_port : ℕ
postgres_port = 5432

module _ (C : CacheApi Bytes CacheEntry) (D : CacheApi Bytes IpAddr) (T : MapApi ℕ TcpClient)
    (P : MapApi ℕ ℕ) (B : BpfApi) where
  -- What the connections share: a port's adapter, the table of resolved names and the loader.
  pub record Worker : Type 0 where
    pub adapter : Tcp C D T P B
    pub dns : DnsState D.Store
    pub loader : Loader B.Map

  abbrev pub Outcome : Type 0
  Outcome = Result ProxyError Relay × Worker

  -- Whether the adapter keeps this backend for the client; no two backends that are open have one descriptor.
  abbrev is_kept : ℕ → TcpClient → Worker → Bool
  is_kept fd client w = elim (T.get fd w.adapter.connections) [
    | none ↦ false
    | some other ↦ other.fd == client.fd
  ]

  -- `Arc::try_unwrap` gives the backend's stream only if nothing else holds the backend: neither the adapter for the
  -- client nor another connection.
  unfoldable pub bidirectional_copy : Bool → ℕ → TcpClient → Worker → Relay
  bidirectional_copy elsewhere fd client w =
      if is_kept fd client w || elsewhere then serialised else copied

  unfoldable pub send_to_backend : ClientEnv → TcpClient → Bytes → Result ProxyError (Unit {0})
  send_to_backend env client text = map_err io (do _ ← env.write_all client text; env.flush client)

  abbrev sent_tls : ClientEnv → ℕ → TcpClient → Result ProxyError (Unit {0}) → Worker → Outcome
  sent_tls env fd client (err e) w = (err e, w)
  sent_tls env fd client (ok done) w = (ok (bidirectional_copy env.held_elsewhere fd client w), w)

  abbrev with_tls :
      ClientEnv
      → ℕ
      → Bytes
      → Loader B.Map
      → Result ProxyError TcpClient × Tcp C D T P B × DnsState D.Store
      → Outcome
  with_tls env fd text l (err e, t, dns) = (err e, record { adapter = t; dns = dns; loader = l })
  with_tls env fd text l (ok client, t, dns) =
      sent_tls env fd client (send_to_backend env client text)
        (record { adapter = t; dns = dns; loader = l })

  abbrev started_tls : ClientEnv → ℕ → Worker → Result ProxyError Bytes → Outcome
  started_tls env fd w (err e) = (err e, w)
  started_tls env fd w (ok []) = (ok closed, w)
  started_tls env fd w (ok (c ∷ cs)) =
      with_tls env fd (c ∷ cs) w.loader
        (get_connection C D T P B env.tcp (c ∷ cs) fd w.adapter w.dns)

  -- The answer to a request for TLS, the upgrade and the first bytes after it.
  unfoldable pub start_tls : ClientEnv → ℕ → Result ProxyError Bytes
  start_tls env size = do
    _ ← map_err io (env.write_answer pg_ssl_response_ok)
    _ ← map_err io env.flush_answer
    _ ← map_err (λ e. tls (codes "PostgreSQL STARTTLS accept failed: " ++ e)) env.accept
    map_err io (env.read_tls size)

  abbrev relayed :
      ClientEnv → ℕ → TcpClient → Bool × Tcp C D T P B × Loader B.Map → DnsState D.Store → Outcome
  relayed env fd client (true, t, l) dns =
      (ok by_kernel, record { adapter = t; dns = dns; loader = l })
  relayed env fd client (false, t, l) dns =
      let w : Worker = record { adapter = t; dns = dns; loader = l } in
      (ok (bidirectional_copy env.held_elsewhere fd client w), w)

  abbrev sent : ClientEnv → ℕ → TcpClient → Result ProxyError (Unit {0}) → Worker → Outcome
  sent env fd client (err e) w = (err e, w)
  sent env fd client (ok done) w =
      relayed env fd client (activate_sockmap C D T P B env.names fd w.adapter w.loader) w.dns

  abbrev dialed :
      ClientEnv
      → ℕ
      → Bytes
      → Loader B.Map
      → Result ProxyError TcpClient × Tcp C D T P B × DnsState D.Store
      → Outcome
  dialed env fd text l (err e, t, dns) = (err e, record { adapter = t; dns = dns; loader = l })
  dialed env fd text l (ok client, t, dns) =
      sent env fd client (send_to_backend env client text)
        (record { adapter = t; dns = dns; loader = l })

  abbrev first_packet :
      TcpConfig → Bool → ClientEnv → ℕ → ℕ → Worker → Result ProxyError Bytes → Outcome
  first_packet config acceptor env port fd w (err e) = (err e, w)
  first_packet config acceptor env port fd w (ok []) = (ok closed, w)
  first_packet config acceptor env port fd w (ok (c ∷ cs)) =
      if port == postgres_port && (acceptor && is_postgresql_ssl_request (c ∷ cs))
      then started_tls env fd w (start_tls env config.receive_buffer_size)
      else dialed env fd (c ∷ cs) w.loader
          (get_connection C D T P B env.tcp (c ∷ cs) fd w.adapter w.dns)

  -- `acceptor` is whether the server has the settings for TLS.
  unfoldable pub run_client : TcpConfig → Bool → ClientEnv → ℕ → ℕ → Worker → Outcome
  unfolding bidirectional_copy send_to_backend start_tls get_connection activate_sockmap
      is_postgresql_ssl_request
  run_client config acceptor env port fd w =
      first_packet config acceptor env port fd w
        (map_err io (env.read_some config.receive_buffer_size))

  abbrev closing : ℕ → Outcome → Outcome
  closing fd (r, w) =
      let out = close_connection C D T P B fd w.adapter w.loader in
      (r, record w { adapter = out.0; loader = out.1 })

  -- The client's entries are dropped however its run ends.
  unfoldable pub serve : TcpConfig → Bool → ClientEnv → ℕ → ℕ → Worker → Outcome
  unfolding run_client close_connection
  serve config acceptor env port fd w = closing fd (run_client config acceptor env port fd w)

  -- What all ports share.
  pub record Shared : Type 0 where
    pub config : TcpConfig
    pub adapters : List (ℕ × Tcp C D T P B)
    pub tls_acceptor : Bool
    pub dns : DnsState D.Store
    pub loader : Loader B.Map

  abbrev put_back : ℕ → Shared → Outcome → Result ProxyError Relay × Shared
  put_back port s (r, w) =
      (r, record s { adapters = insert port w.adapter s.adapters; dns = w.dns; loader = w.loader })

  unfoldable pub handle_connection : ClientEnv → ℕ → ℕ → Shared → Result ProxyError Relay × Shared
  unfolding serve lookup insert
  handle_connection env port fd s = elim (lookup port s.adapters) [
    | none ↦ (err (configuration (codes "no adapter for port " ++ print_decimal port)), s)
    | some adapter ↦ put_back port s (
        serve s.config s.tls_acceptor env port fd
          (record { adapter = adapter; dns = s.dns; loader = s.loader }))
  ]
