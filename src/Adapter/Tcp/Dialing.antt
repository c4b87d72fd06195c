-- ===== src/Adapter/Tcp/Dialing.antt =====
-- Which host and port a TCP adapter dials.
use protocol_proxy.Protocol.{Protocol}
use protocol_proxy.Resolver.{ResolverError, ProxyError, ConnectionResult, Resolver}
use protocol_proxy.Dns.{DnsState}
use protocol_proxy.Net.{IpAddr, print_ip, print_ipv4, Ipv4Addr, print_ipv4-no_colon, v4}
use protocol_proxy.Prelude.{
  none, ok, err, refl, arith, Result, ◌≡◌, ◌∙◌, ap, Bytes, ℕ, Option, List, unwrap_or,
}
use protocol_proxy.External.{CacheApi, IsCache, MapApi}
use protocol_proxy.Adapter.Route.{Adapter, CacheEntry, RouteEnv, route}
use protocol_proxy.Adapter.Route
use protocol_proxy.Adapter.Route.Validated.{IsSafe}
use protocol_proxy.Adapter.Route.Safety.{Call, run, KeepsValidation, route-IsSafe}
use protocol_proxy.Sockmap.Pairs.{BpfApi}
use protocol_proxy.Adapter.Tcp.{Tcp, TcpClient, TcpEnv, get_connection, connect, dial_routed, keep}
use protocol_proxy.Adapter.Endpoint.{parse_endpoint, endpoint_text}
use protocol_proxy.Adapter.Endpoint.Dialed.{parse_endpoint-endpoint_text}

module _ (C : CacheApi Bytes CacheEntry) (D : CacheApi Bytes IpAddr) (T : MapApi ℕ TcpClient)
    (P : MapApi ℕ ℕ) (B : BpfApi) (laws : IsCache Bytes CacheEntry C) where
  pub connect-stream :
      (env : TcpEnv) (t : Tcp C D T P B) (endpoint : Bytes) (client : TcpClient)
      → connect C D T P B env t endpoint ≡ ok client
      → (client.stream.host ≡ (parse_endpoint endpoint t.port).0)
        × (client.stream.port ≡ (parse_endpoint endpoint t.port).1)
  unfolding connect
  connect-stream env t endpoint client e = ground arith

  -- A client whose stream was dialed at the host and the port that are read from the text of an address outside the
  -- refused ranges: where that is an IPv4 address, at the address itself.
  pub record IsDialed (t : Tcp C D T P B) (client : TcpClient) : Type 0 where
    pub endpoint : Bytes
    pub safe : IsSafe endpoint
    pub host : client.stream.host ≡ (parse_endpoint endpoint t.port).0
    pub port : client.stream.port ≡ (parse_endpoint endpoint t.port).1
    pub dialed :
        (a : Ipv4Addr)
        → safe.ip ≡ v4 a
        → (client.stream.host ≡ print_ipv4 a) × (client.stream.port ≡ unwrap_or safe.port t.port)

  connect-IsDialed :
      (env : TcpEnv) (t : Tcp C D T P B) (endpoint : Bytes) (client : TcpClient)
      → IsSafe endpoint
      → connect C D T P B env t endpoint ≡ ok client
      → IsDialed t client
  unfolding print_ip
  connect-IsDialed env t endpoint client s e = record {
    endpoint = endpoint;
    safe = s;
    host = (connect-stream env t endpoint client e).0;
    port = (connect-stream env t endpoint client e).1;
    dialed = λ a same.
        let text : endpoint ≡ endpoint_text (print_ipv4 a) s.port =
          s.written ∙ ap (λ i. endpoint_text (print_ip i) s.port) same in
        let read =
          parse_endpoint-endpoint_text (print_ipv4 a) s.port t.port (print_ipv4-no_colon a)
            s.in_range in
        let stream = connect-stream env t endpoint client e in ground arith;
  }

  keep-inv :
      (fd : ℕ) (t : Tcp C D T P B) (dns : DnsState D.Store) (r : Result ProxyError TcpClient)
      (client : TcpClient)
      → (keep C D T P B fd t dns r).0 ≡ ok client
      → r ≡ ok client
  keep-inv fd t dns (err e) client h = cc
  keep-inv fd t dns (ok made) client h = h

  dial_routed-IsDialed :
      (env : TcpEnv) (fd : ℕ) (t : Tcp C D T P B)
      (routed : Result ResolverError ConnectionResult × Adapter C.Store × DnsState D.Store)
      (client : TcpClient)
      → ((r : ConnectionResult) → routed.0 ≡ ok r → IsSafe r.endpoint)
      → (dial_routed C D T P B env fd t routed).0 ≡ ok client
      → IsDialed t client
  unfolding dial_routed
  dial_routed-IsDialed env fd t (err e, base, dns) client safe h = cc
  dial_routed-IsDialed env fd t (ok r, base, dns) client safe h =
      connect-IsDialed env t r.endpoint client (safe r refl)
        (keep-inv fd (record t { base = base }) dns (connect C D T P B env t r.endpoint) client h)

  -- A client that has no connection yet gets one that was dialed at the host and the port read from the text of an
  -- address outside the refused ranges, with a port from 1 to 65535 or none: where that is an IPv4 address, the host
  -- dialed is its text and the port is the endpoint's, or else the listening port. The base adapter is in any state
  -- that calls can reach without switching validation off.
  pub get_connection-IsDialed :
      (resolver : Option Resolver) (protocol : Protocol) (start : DnsState D.Store)
      (cs : List (Call C D laws)) (env : TcpEnv) (data' : Bytes) (fd : ℕ) (t : Tcp C D T P B)
      (client : TcpClient)
      → KeepsValidation C D laws cs
      → t.base ≡ (run C D laws (Route.new C D resolver protocol, start) cs).0
      → T.get fd t.connections ≡ none
      → (get_connection C D T P B env data' fd t
          (run C D laws (Route.new C D resolver protocol, start) cs).1).0
        ≡ ok client
      → IsDialed t client
  unfolding get_connection
  get_connection-IsDialed resolver protocol start cs env data' fd t client k based missing h =
      dial_routed-IsDialed env fd t
        (route C D env.route t.base (run C D laws (Route.new C D resolver protocol, start) cs).1
          data')
        client
        (λ r e.
          route-IsSafe C D laws resolver protocol start cs env.route data' r k (rw based at e))
        (rw (missing, get_connection) at h)
