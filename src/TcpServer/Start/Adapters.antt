-- ===== src/TcpServer/Start/Adapters.antt =====
-- The adapters that the TCP server starts with.
use protocol_proxy.Adapter.Route
use protocol_proxy.TcpServer.Session.{Shared}
use protocol_proxy.Dns.{nanos_per_second, DnsState}
use protocol_proxy.Protocol.{from_port}
use protocol_proxy.Resolver.{Resolver}
use protocol_proxy.TcpServer.Start.{
  StartEnv, configure, new_adapter, build_adapters, start, Adapters, bind_ports, load_sockmap,
}
use protocol_proxy.TcpServer.Config.{TcpConfig}
use protocol_proxy.Sockmap.Pairs.{BpfApi}
use protocol_proxy.Adapter.Tcp.{new, TcpClient, Tcp}
use protocol_proxy.Net.{IpAddr}
use protocol_proxy.Adapter.Route.{CacheEntry}
use protocol_proxy.External.{CacheApi, MapApi}
use protocol_proxy.Prelude.{
  nat_eq, none, some, if◌then◌else◌, Bytes, ◌≡◌, ℕ, Bool, ◌*◌, [], ◌∷◌, false, ok, refl, arith,
  ◌==◌, ◌||◌, List, lookup, insert, is_empty, lookup-insert, ==_iff, ◌∙◌, ap, sym, subst,
}

abbrev pub is_port : ℕ → List ℕ → Bool
is_port p [] = false
is_port p (q ∷ qs) = q == p || is_port p qs

module _ (C : CacheApi Bytes CacheEntry) (D : CacheApi Bytes IpAddr) (T : MapApi ℕ TcpClient)
    (P : MapApi ℕ ℕ) (B : BpfApi) (config : TcpConfig) (env : StartEnv C D T P B)
    (resolver : Resolver) where
  -- The settings that an adapter has of the server's.
  pub record IsConfigured (sockmap : Bool) (port : ℕ) (t : Tcp C D T P B) : Type 0 where
    pub port_of : t.port ≡ port
    pub protocol_of : t.base.protocol ≡ from_port port
    pub resolver_of : t.base.resolver ≡ some resolver
    pub validated : t.base.skip_validation ≡ config.skip_validation
    pub cached : t.base.cache_ttl ≡ config.cache_ttl * nanos_per_second
    pub timeout_of : t.timeout ≡ config.timeout
    pub connect_timeout_of : t.connect_timeout ≡ config.connect_timeout
    pub user_timeout_of : t.tcp_user_timeout_ms ≡ config.tcp_user_timeout_ms
    pub quickack_of : t.tcp_quickack ≡ config.tcp_quickack
    pub notsent_lowat_of : t.tcp_notsent_lowat ≡ config.tcp_notsent_lowat
    pub sockmap_of : t.has_sockmap ≡ sockmap
    pub no_connections : t.connections ≡ T.new
    pub no_pairs : t.sockmap_pairs ≡ P.new

  fresh-IsConfigured :
      (sockmap : Bool) (port : ℕ)
      → IsConfigured sockmap port
          (configure C D T P B config sockmap (new C D T P B port (some resolver)))
  unfolding configure new Route.new Route.set_skip_validation Route.set_cache_ttl
  fresh-IsConfigured sockmap port = record {
    port_of = refl;
    protocol_of = ground arith;
    resolver_of = ground arith;
    validated = ground arith;
    cached = ground arith;
    timeout_of = refl;
    connect_timeout_of = refl;
    user_timeout_of = refl;
    quickack_of = refl;
    notsent_lowat_of = refl;
    sockmap_of = refl;
    no_connections = refl;
    no_pairs = refl;
  }

  new_adapter-fresh :
      (port : ℕ)
      → config.adapter_factory ≡ none
      → new_adapter C D T P B config env resolver port ≡ new C D T P B port (some resolver)
  unfolding new_adapter
  new_adapter-fresh port e = rw (e, new_adapter) refl

  lookup-build_adapters :
      (sockmap : Bool) (ports : List ℕ) (built : Adapters C D T P B) (p : ℕ)
      → lookup p (build_adapters C D T P B config env resolver sockmap ports built) ≡ (
          if is_port p ports
          then some
              (configure C D T P B config sockmap (new_adapter C D T P B config env resolver p))
          else lookup p built)
  unfolding build_adapters
  lookup-build_adapters sockmap [] built p = refl
  lookup-build_adapters sockmap (q ∷ qs) built p =
      let t = configure C D T P B config sockmap (new_adapter C D T P B config env resolver q) in
      ground (
        arith,
        lookup-build_adapters sockmap qs (insert q t built) p,
        lookup-insert q p t built,
        ==_iff q p,
      )

  -- What a server that starts is made of.
  start-ok :
      (dns : DnsState D.Store) (s : Shared C D T P B)
      → start C D T P B config env resolver dns ≡ ok s
      → (is_empty config.ports ≡ false)
        × (bind_ports C D T P B config env config.ports ≡ ok tt)
        × (s.adapters
            ≡ build_adapters C D T P B config env resolver
                (load_sockmap C D T P B config env).0
                config.ports
                [])
  unfolding start
  start-ok dns s h = ground arith

  -- The adapter of a port, where no factory makes it.
  pub start-lookup :
      (dns : DnsState D.Store) (s : Shared C D T P B) (p : ℕ) (t : Tcp C D T P B)
      → config.adapter_factory ≡ none
      → start C D T P B config env resolver dns ≡ ok s
      → lookup p s.adapters ≡ some t
      → t
        ≡ configure C D T P B config
            (load_sockmap C D T P B config env).0
            (new C D T P B p (some resolver))
  unfolding lookup
  start-lookup dns s p t e h found =
      let sockmap = (load_sockmap C D T P B config env).0 in
      let built = (start-ok dns s h).2 in
      let fresh = ap (configure C D T P B config sockmap) (new_adapter-fresh p e) in
      ground
        (arith, ap (lookup p) built ∙ lookup-build_adapters sockmap config.ports [] p, found, fresh)

  -- A server that starts without an adapter factory has ports, binds each of them, and has an adapter for these ports
  -- and no others: a fresh one of the port's protocol and the resolver, with the server's settings.
  pub start-IsConfigured :
      (dns : DnsState D.Store) (s : Shared C D T P B) (p : ℕ)
      → config.adapter_factory ≡ none
      → start C D T P B config env resolver dns ≡ ok s
      → (is_empty config.ports ≡ false)
        × (bind_ports C D T P B config env config.ports ≡ ok tt)
        × ((t : Tcp C D T P B) × IsConfigured (load_sockmap C D T P B config env).0 p t
            × (lookup p s.adapters ≡ (if is_port p config.ports then some t else none)))
  unfolding lookup
  start-IsConfigured dns s p e h =
      let (some_ports, bound, built) = start-ok dns s h in
      let sockmap = (load_sockmap C D T P B config env).0 in
      (
        some_ports,
        bound,
        (
          configure C D T P B config sockmap (new_adapter C D T P B config env resolver p),
          subst (λ t. IsConfigured sockmap p (configure C D T P B config sockmap t))
              (sym (new_adapter-fresh p e)) (fresh-IsConfigured sockmap p),
          ap (lookup p) built ∙ lookup-build_adapters sockmap config.ports [] p,
        ),
      )
