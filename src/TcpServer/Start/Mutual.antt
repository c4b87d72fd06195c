-- ===== src/TcpServer/Start/Mutual.antt =====
-- What a TCP server that asks for client certificates starts with.
use protocol_proxy.TcpServer.Session.{Shared}
use protocol_proxy.Dns.{DnsState}
use protocol_proxy.Resolver.{Resolver}
use protocol_proxy.TcpServer.Config.{TcpConfig}
use protocol_proxy.Sockmap.Pairs.{BpfApi}
use protocol_proxy.Adapter.Tcp.{TcpClient}
use protocol_proxy.Net.{IpAddr}
use protocol_proxy.Adapter.Route.{CacheEntry}
use protocol_proxy.External.{CacheApi, MapApi}
use protocol_proxy.TcpServer.Start.{StartEnv, tls_acceptor, start}
use protocol_proxy.Tls.{Tls, validate}
use protocol_proxy.Tls.Context.{TlsApi, build_tls_acceptor, rustls_server_config}
use protocol_proxy.Tls.Context.Verified.{IsVerifying, rustls_server_config-IsVerifying}
use protocol_proxy.Prelude.{
  nat_eq, some, true, false, ok, inl, inr, Result-cases, arith, ◌≡◌, sym, ◌∙◌, Bytes, ℕ, Bool,
  is_empty,
}

module _ (C : CacheApi Bytes CacheEntry) (D : CacheApi Bytes IpAddr) (T : MapApi ℕ TcpClient)
    (P : MapApi ℕ ℕ) (B : BpfApi) (R : TlsApi) where
  -- What a start with settings for TLS has found out.
  start-tls :
      (config : TcpConfig) (env : StartEnv C D T P B) (resolver : Resolver) (dns : DnsState D.Store)
      (tls : Tls) (s : Shared C D T P B)
      → config.tls ≡ some tls
      → start C D T P B config env resolver dns ≡ ok s
      → (validate env.is_file tls ≡ ok tt) × (env.acceptor tls ≡ ok tt) × (s.tls_acceptor ≡ true)
  unfolding start tls_acceptor
  start-tls config env resolver dns tls s given e =
      (ground (arith, given), ground (arith, given), ground (arith, given))

  validate-ca :
      (is_file : Bytes → Bool) (tls : Tls)
      → validate is_file tls ≡ ok tt
      → tls.require_client_cert ≡ true
      → is_empty tls.ca ≡ false
  unfolding validate
  validate-ca is_file tls valid required = ground arith

  accepted_config :
      (tls : Tls)
      → build_tls_acceptor R tls ≡ ok tt
      → (config : R.ServerConfig) × (rustls_server_config R tls ≡ ok config)
  unfolding build_tls_acceptor
  accepted_config tls e = elim (Result-cases (rustls_server_config R tls)) [
    | inl (x, failed) ↦ absurd (ground (arith, failed))
    | inr (config, worked) ↦ (config, worked)
  ]

  -- Where a server with settings for TLS that require client certificates starts, and its acceptor is what `build_tls_acceptor` gives: it has an
  -- acceptor, whose configuration verifies clients by roots made of all certificates of the CA file.
  pub start-IsVerifying :
      (config : TcpConfig) (env : StartEnv C D T P B) (resolver : Resolver) (dns : DnsState D.Store)
      (tls : Tls) (s : Shared C D T P B)
      → config.tls ≡ some tls
      → tls.require_client_cert ≡ true
      → env.acceptor tls ≡ build_tls_acceptor R tls
      → start C D T P B config env resolver dns ≡ ok s
      → (s.tls_acceptor ≡ true)
        × ((server_config : R.ServerConfig) × (rustls_server_config R tls ≡ ok server_config)
            × IsVerifying R tls server_config)
  start-IsVerifying config env resolver dns tls s given required acceptor e =
      let (valid, accepted, has) = start-tls config env resolver dns tls s given e in
      let (server_config, made) = accepted_config tls (sym acceptor ∙ accepted) in
      (
        has,
        (
          server_config,
          made,
          rustls_server_config-IsVerifying R tls server_config required
              (validate-ca env.is_file tls valid required) made,
        ),
      )
