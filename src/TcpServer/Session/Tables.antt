-- ===== src/TcpServer/Session/Tables.antt =====
-- What one connection leaves in the tables of its adapter.
use protocol_proxy.Adapter.Tcp.Held.{get_connection-IsKept}
use protocol_proxy.Tls.{is_postgresql_ssl_request}
use protocol_proxy.TcpServer.Config.{TcpConfig}
use protocol_proxy.Adapter.Tcp.Tables.{activate_cases, close_connection_lem}
use protocol_proxy.Resolver.{ProxyError, io}
use protocol_proxy.Sockmap.Loader.{Loader}
use protocol_proxy.Dns.{DnsState}
use protocol_proxy.TcpServer.Session.{
  relayed, sent, dialed, sent_tls, with_tls, started_tls, first_packet, closing, ClientEnv, Worker,
  send_to_backend, Relay, serve, handle_connection, postgres_port, run_client, Shared, start_tls,
}
use protocol_proxy.Sockmap.Pairs.{BpfApi, Names}
use protocol_proxy.Adapter.Tcp.{TcpClient, Tcp, TcpEnv, get_connection, activate_sockmap}
use protocol_proxy.Net.{IpAddr}
use protocol_proxy.Adapter.Route.{CacheEntry}
use protocol_proxy.External.{CacheApi, MapApi, IsMap}
use protocol_proxy.Prelude.{
  nat_eq, [], ◌∷◌, true, false, ok, err, inl, inr, refl, arith, ◌==◌, ◌≡◌, ap, Bytes, ℕ, Bool,
  Result, none, some, Bool-cases, if◌then◌else◌, ◌&&◌, ◌∙◌, map_err, lookup, lookup-insert,
}

module _ (C : CacheApi Bytes CacheEntry) (D : CacheApi Bytes IpAddr) (T : MapApi ℕ TcpClient)
    (P : MapApi ℕ ℕ) (B : BpfApi) (map_laws : IsMap ℕ TcpClient T) (pair_laws : IsMap ℕ ℕ P) where
  -- The tables of `u` are those of `t` for every client but one.
  abbrev SameOthers : ℕ → Tcp C D T P B → Tcp C D T P B → Type 0
  SameOthers fd t u =
      (j : ℕ)
      → (fd == j) ≡ false
      → (T.get j u.connections ≡ T.get j t.connections)
        × (P.get j u.sockmap_pairs ≡ P.get j t.sockmap_pairs)

  get_connection-SameOthers :
      (env : TcpEnv) (data' : Bytes) (fd : ℕ) (t : Tcp C D T P B) (dns : DnsState D.Store)
      → SameOthers fd t (get_connection C D T P B env data' fd t dns).1
  get_connection-SameOthers env data' fd t dns j other =
      let (pairs, conns) = get_connection-IsKept C D T P B map_laws env data' fd t dns in
      elim conns [
        | inl kept ↦ (ap (T.get j) kept, ap (P.get j) pairs)
        | inr (client, missing, added) ↦ (
          ground (arith, added, map_laws.get-insert fd j client t.connections),
          ap (P.get j) pairs,
        )
      ]

  activate-SameOthers :
      (names : Names) (fd : ℕ) (t : Tcp C D T P B) (l : Loader B.Map)
      → SameOthers fd t (activate_sockmap C D T P B names fd t l).1
  activate-SameOthers names fd t l j other =
      elim (activate_cases C D T P B map_laws pair_laws names fd t l) [
        | inl same ↦ rw same (refl, refl)
        | inr (client, held, positive, e) ↦
            rw e (refl, ground (arith, pair_laws.get-insert fd j client.fd t.sockmap_pairs))
      ]

  relayed-adapter :
      (env : ClientEnv) (fd : ℕ) (client : TcpClient) (done : Bool) (t : Tcp C D T P B)
      (l : Loader B.Map) (dns : DnsState D.Store)
      → (relayed C D T P B env fd client (done, t, l) dns).1.adapter ≡ t
  relayed-adapter env fd client true t l dns = refl
  relayed-adapter env fd client false t l dns = refl

  sent-SameOthers :
      (env : ClientEnv) (fd : ℕ) (client : TcpClient) (r : Result ProxyError (Unit {0}))
      (w : Worker C D T P B)
      → SameOthers fd w.adapter (sent C D T P B env fd client r w).1.adapter
  sent-SameOthers env fd client (err e) w = λ j other. (refl, refl)
  sent-SameOthers env fd client (ok done) w =
      let out = activate_sockmap C D T P B env.names fd w.adapter w.loader in
      rw (relayed-adapter env fd client out.0 out.1 out.2 w.dns)
        (activate-SameOthers env.names fd w.adapter w.loader)

  dialed-SameOthers :
      (env : ClientEnv) (fd : ℕ) (text : Bytes) (l : Loader B.Map) (r : Result ProxyError TcpClient)
      (t : Tcp C D T P B) (dns : DnsState D.Store)
      → SameOthers fd t (dialed C D T P B env fd text l (r, t, dns)).1.adapter
  dialed-SameOthers env fd text l (err e) t dns = λ j other. (refl, refl)
  dialed-SameOthers env fd text l (ok client) t dns =
      sent-SameOthers env fd client (send_to_backend C D T P B env client text)
        (record { adapter = t; dns = dns; loader = l })

  sent_tls-adapter :
      (env : ClientEnv) (fd : ℕ) (client : TcpClient) (r : Result ProxyError (Unit {0}))
      (w : Worker C D T P B)
      → (sent_tls C D T P B env fd client r w).1.adapter ≡ w.adapter
  sent_tls-adapter env fd client (err e) w = refl
  sent_tls-adapter env fd client (ok done) w = refl

  with_tls-adapter :
      (env : ClientEnv) (fd : ℕ) (text : Bytes) (l : Loader B.Map) (r : Result ProxyError TcpClient)
      (t : Tcp C D T P B) (dns : DnsState D.Store)
      → (with_tls C D T P B env fd text l (r, t, dns)).1.adapter ≡ t
  with_tls-adapter env fd text l (err e) t dns = refl
  with_tls-adapter env fd text l (ok client) t dns =
      sent_tls-adapter env fd client (send_to_backend C D T P B env client text)
        (record { adapter = t; dns = dns; loader = l })

  started_tls-SameOthers :
      (env : ClientEnv) (fd : ℕ) (w : Worker C D T P B) (r : Result ProxyError Bytes)
      → SameOthers fd w.adapter (started_tls C D T P B env fd w r).1.adapter
  started_tls-SameOthers env fd w (err e) = λ j other. (refl, refl)
  started_tls-SameOthers env fd w (ok []) = λ j other. (refl, refl)
  started_tls-SameOthers env fd w (ok (c ∷ cs)) =
      let out = get_connection C D T P B env.tcp (c ∷ cs) fd w.adapter w.dns in
      rw (with_tls-adapter env fd (c ∷ cs) w.loader out.0 out.1 out.2)
        (get_connection-SameOthers env.tcp (c ∷ cs) fd w.adapter w.dns)

  first_packet-SameOthers :
      (config : TcpConfig) (acceptor : Bool) (env : ClientEnv) (port fd : ℕ) (w : Worker C D T P B)
      (r : Result ProxyError Bytes)
      → SameOthers fd w.adapter (first_packet C D T P B config acceptor env port fd w r).1.adapter
  first_packet-SameOthers config acceptor env port fd w (err e) = λ j other. (refl, refl)
  first_packet-SameOthers config acceptor env port fd w (ok []) = λ j other. (refl, refl)
  first_packet-SameOthers config acceptor env port fd w (ok (c ∷ cs)) =
      elim (Bool-cases
        (port == postgres_port && (acceptor && is_postgresql_ssl_request (c ∷ cs)))) [
          | inl upgrade ↦
              rw (upgrade, first_packet)
                (started_tls-SameOthers env fd w
                  (start_tls C D T P B env config.receive_buffer_size))
          | inr plain ↦
              let out = get_connection C D T P B env.tcp (c ∷ cs) fd w.adapter w.dns in
              rw (plain, first_packet)
                (λ j other.
                  let (conns, pairs) =
                    dialed-SameOthers env fd (c ∷ cs) w.loader out.0 out.1 out.2 j other in
                  let (conns', pairs') =
                    get_connection-SameOthers env.tcp (c ∷ cs) fd w.adapter w.dns j other in
                  (conns ∙ conns', pairs ∙ pairs'))
        ]

  -- The tables after a connection: without the client, and as before for every other.
  abbrev pub Forgets : ℕ → ℕ → Tcp C D T P B → Tcp C D T P B → Type 0
  Forgets fd j t u =
      (T.get j u.connections ≡ (if fd == j then none else T.get j t.connections))
      × (P.get j u.sockmap_pairs ≡ (if fd == j then none else P.get j t.sockmap_pairs))

  closing-Forgets :
      (fd j : ℕ) (t : Tcp C D T P B) (r : Result ProxyError Relay) (w : Worker C D T P B)
      → SameOthers fd t w.adapter
      → Forgets fd j t (closing C D T P B fd (r, w)).1.adapter
  closing-Forgets fd j t r w same =
      let (conns, pairs, base) =
        close_connection_lem C D T P B map_laws pair_laws fd j w.adapter w.loader in
      elim (Bool-cases (fd == j)) [
        | inl own ↦ ground (arith, conns, pairs, own)
        | inr other ↦ ground (arith, conns, pairs, other, same j other)
      ]

  serve-Forgets :
      (config : TcpConfig) (acceptor : Bool) (env : ClientEnv) (port fd j : ℕ)
      (w : Worker C D T P B)
      → Forgets fd j w.adapter (serve C D T P B config acceptor env port fd w).1.adapter
  unfolding serve run_client
  serve-Forgets config acceptor env port fd j w =
      let out = run_client C D T P B config acceptor env port fd w in
      closing-Forgets fd j w.adapter out.0 out.1 (
        first_packet-SameOthers config acceptor env port fd w
          (map_err io (env.read_some config.receive_buffer_size)))

  -- However a connection to a port with an adapter ends, in an error too, its port's adapter has no entry of the client in either table and
  -- the entries it had of all others, and no other port's adapter has changed.
  pub handle_connection-Forgets :
      (env : ClientEnv) (port fd q j : ℕ) (s : Shared C D T P B) (adapter : Tcp C D T P B)
      → lookup port s.adapters ≡ some adapter
      → (after : Tcp C D T P B) × (lookup q (handle_connection C D T P B env port fd s).1.adapters
          ≡ (if port == q then some after else lookup q s.adapters))
        × Forgets fd j adapter after
  unfolding handle_connection
  handle_connection-Forgets env port fd q j s adapter e =
      let w : Worker C D T P B = record { adapter = adapter; dns = s.dns; loader = s.loader } in
      let out = serve C D T P B s.config s.tls_acceptor env port fd w in
      (
        out.1.adapter,
        rw (e, handle_connection) (lookup-insert port q out.1.adapter s.adapters),
        serve-Forgets s.config s.tls_acceptor env port fd j w,
      )
