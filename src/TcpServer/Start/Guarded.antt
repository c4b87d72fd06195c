-- ===== src/TcpServer/Start/Guarded.antt =====
-- Where the backends are that a server's clients are given, from its start on.
use protocol_proxy.TcpServer.Start.Adapters.{start-lookup}
use protocol_proxy.TcpServer.Start.{StartEnv, start, load_sockmap}
use protocol_proxy.TcpServer.Session.{Shared, Worker}
use protocol_proxy.TcpServer.Config.{TcpConfig}
use protocol_proxy.TcpServer.Tasks.{System, Reach, Tasks}
use protocol_proxy.TcpServer.Tasks.Guarded.{IsGuardedTask, IsSafelyDialed, Reach-AreDialed}
use protocol_proxy.Dns.{DnsState}
use protocol_proxy.Resolver.{Resolver}
use protocol_proxy.Sockmap.Pairs.{BpfApi}
use protocol_proxy.Adapter.Tcp.{TcpClient, Tcp}
use protocol_proxy.Adapter.Route.{CacheEntry}
use protocol_proxy.Net.{IpAddr}
use protocol_proxy.External.{CacheApi, MapApi, IsMap, IsCache}
use protocol_proxy.Prelude.{nat_eq, some, none, ok, false, Bytes, ◌≡◌, ℕ, lookup}

module _ (C : CacheApi Bytes CacheEntry) (D : CacheApi Bytes IpAddr) (T : MapApi ℕ TcpClient)
    (P : MapApi ℕ ℕ) (B : BpfApi) (laws : IsCache Bytes CacheEntry C)
    (map_laws : IsMap ℕ TcpClient T) (pair_laws : IsMap ℕ ℕ P) where
  -- The worker of a port with an adapter, as the server starts.
  abbrev pub first_worker : Shared C D T P B → Tcp C D T P B → Worker C D T P B
  first_worker s t = record { adapter = t; dns = s.dns; loader = s.loader }

  -- Where a server starts with validation on and without an adapter factory, then however the connections of one of its
  -- ports interleave, and whatever descriptors the system gives: a connection connects only to an endpoint that is the
  -- text of an address outside the refused ranges with a port from 1 to 65535 or none, and every backend that a
  -- connection has or that the adapter keeps was dialed at the host and the port that are read from such an endpoint.
  pub start-AreDialed :
      (config : TcpConfig) (env : StartEnv C D T P B) (resolver : Resolver) (dns : DnsState D.Store)
      (shared : Shared C D T P B) (port : ℕ) (t : Tcp C D T P B) (Free : ℕ → Tasks → Type 0)
      {s : System C D T P B}
      → config.skip_validation ≡ false
      → config.adapter_factory ≡ none
      → start C D T P B config env resolver dns ≡ ok shared
      → lookup port shared.adapters ≡ some t
      → Reach C D T P B Free (first_worker shared t) s
      → ((i : ℕ) → IsGuardedTask port (s.tasks i))
        × ((fd : ℕ) (client : TcpClient)
            → T.get fd s.worker.adapter.connections ≡ some client
            → IsSafelyDialed port client)
  start-AreDialed config env resolver dns shared port t Free on no_factory started found r =
      let made =
        start-lookup C D T P B config env resolver dns shared port t no_factory started found in
      Reach-AreDialed C D T P B laws map_laws pair_laws port Free config
        (load_sockmap C D T P B config env).0 (some resolver) on made r
