-- ===== src/Adapter/Tcp/Held.antt =====
-- The connection that a TCP adapter gives a client, and keeps.
use protocol_proxy.Dns.{DnsState}
use protocol_proxy.Resolver.{ResolverError, ConnectionResult, ProxyError}
use protocol_proxy.Net.{IpAddr}
use protocol_proxy.External.{CacheApi, MapApi, IsMap}
use protocol_proxy.Adapter.Route.{CacheEntry, route, Adapter}
use protocol_proxy.Sockmap.Pairs.{BpfApi}
use protocol_proxy.Adapter.Tcp.{Tcp, TcpClient, TcpEnv, get_connection, connect, dial_routed, keep}
use protocol_proxy.Prelude.{
  nat_eq, none, some, refl, arith, ◌≡◌, Bytes, ℕ, ok, err, inl, inr, Option-cases, Result, ◌⊎◌,
  ==_iff, ◌∙◌, ap,
}

module _ (C : CacheApi Bytes CacheEntry) (D : CacheApi Bytes IpAddr) (T : MapApi ℕ TcpClient)
    (P : MapApi ℕ ℕ) (B : BpfApi) (map_laws : IsMap ℕ TcpClient T) where
  -- The tables of `u` are those of `t`, but that `fd` may have been given a connection.
  abbrev pub IsKept : ℕ → Tcp C D T P B → Tcp C D T P B → Type 0
  IsKept fd t u =
      (u.sockmap_pairs ≡ t.sockmap_pairs)
      × ((u.connections ≡ t.connections)
          ⊎ ((client : TcpClient) × (T.get fd t.connections ≡ none)
              × (u.connections ≡ T.insert fd client t.connections)))

  keep-IsKept :
      (fd : ℕ) (t : Tcp C D T P B) (dns : DnsState D.Store) (r : Result ProxyError TcpClient)
      → T.get fd t.connections ≡ none
      → IsKept fd t (keep C D T P B fd t dns r).1
  keep-IsKept fd t dns (err e) missing = (refl, inl refl)
  keep-IsKept fd t dns (ok client) missing = (refl, inr (client, missing, refl))

  dial_routed-IsKept :
      (env : TcpEnv) (fd : ℕ) (t : Tcp C D T P B)
      (routed : Result ResolverError ConnectionResult × Adapter C.Store × DnsState D.Store)
      → T.get fd t.connections ≡ none
      → IsKept fd t (dial_routed C D T P B env fd t routed).1
  unfolding dial_routed
  dial_routed-IsKept env fd t (err e, base, dns) missing = (refl, inl refl)
  dial_routed-IsKept env fd t (ok r, base, dns) missing =
      keep-IsKept fd (record t { base = base }) dns (connect C D T P B env t r.endpoint) missing

  get_connection-miss :
      (env : TcpEnv) (data' : Bytes) (fd : ℕ) (t : Tcp C D T P B) (dns : DnsState D.Store)
      → T.get fd t.connections ≡ none
      → get_connection C D T P B env data' fd t dns
        ≡ dial_routed C D T P B env fd t (route C D env.route t.base dns data')
  unfolding get_connection
  get_connection-miss env data' fd t dns missing = rw (missing, get_connection)

  get_connection-hit :
      (env : TcpEnv) (data' : Bytes) (fd : ℕ) (t : Tcp C D T P B) (dns : DnsState D.Store)
      (client : TcpClient)
      → T.get fd t.connections ≡ some client
      → get_connection C D T P B env data' fd t dns ≡ (ok client, t, dns)
  unfolding get_connection
  get_connection-hit env data' fd t dns client held = rw (held, get_connection)

  pub get_connection-IsKept :
      (env : TcpEnv) (data' : Bytes) (fd : ℕ) (t : Tcp C D T P B) (dns : DnsState D.Store)
      → IsKept fd t (get_connection C D T P B env data' fd t dns).1
  get_connection-IsKept env data' fd t dns = elim (Option-cases (T.get fd t.connections)) [
    | inr (client, held) ↦ rw (get_connection-hit env data' fd t dns client held) (refl, inl refl)
    | inl missing ↦
        rw (get_connection-miss env data' fd t dns missing)
          (dial_routed-IsKept env fd t (route C D env.route t.base dns data') missing)
  ]

  keep-ok :
      (fd : ℕ) (t : Tcp C D T P B) (dns : DnsState D.Store) (r : Result ProxyError TcpClient)
      (client : TcpClient)
      → (keep C D T P B fd t dns r).0 ≡ ok client
      → T.get fd (keep C D T P B fd t dns r).1.connections ≡ some client
  keep-ok fd t dns (err e) client h = cc
  keep-ok fd t dns (ok made) client h =
      ground (arith, map_laws.get-insert fd fd made t.connections, ==_iff fd fd)

  dial_routed-ok :
      (env : TcpEnv) (fd : ℕ) (t : Tcp C D T P B)
      (routed : Result ResolverError ConnectionResult × Adapter C.Store × DnsState D.Store)
      (client : TcpClient)
      → (dial_routed C D T P B env fd t routed).0 ≡ ok client
      → T.get fd (dial_routed C D T P B env fd t routed).1.connections ≡ some client
  unfolding dial_routed
  dial_routed-ok env fd t (err e, base, dns) client h = cc
  dial_routed-ok env fd t (ok r, base, dns) client h =
      keep-ok fd (record t { base = base }) dns (connect C D T P B env t r.endpoint) client h

  get_connection-held :
      (env : TcpEnv) (data' : Bytes) (fd : ℕ) (t : Tcp C D T P B) (dns : DnsState D.Store)
      (client : TcpClient)
      → (get_connection C D T P B env data' fd t dns).0 ≡ ok client
      → T.get fd (get_connection C D T P B env data' fd t dns).1.connections ≡ some client
  get_connection-held env data' fd t dns client h = elim (Option-cases (T.get fd t.connections)) [
    | inr (old, held) ↦
        let same = get_connection-hit env data' fd t dns old held in
        rw same (held ∙ ap some (ground (arith, same)))
    | inl missing ↦
        let same = get_connection-miss env data' fd t dns missing in
        rw same
          (dial_routed-ok env fd t (route C D env.route t.base dns data') client (rw same at h))
  ]

  -- A descriptor keeps the connection that it was given: until it is closed, a call for it with any
  -- other payload gives the same connection, with no effect and no routing.
  get_connection_again :
      (env later : TcpEnv) (data' data'' : Bytes) (fd : ℕ) (t : Tcp C D T P B)
      (dns now : DnsState D.Store) (client : TcpClient)
      → (get_connection C D T P B env data' fd t dns).0 ≡ ok client
      → let u = (get_connection C D T P B env data' fd t dns).1 in
        get_connection C D T P B later data'' fd u now ≡ (ok client, u, now)
  get_connection_again env later data' data'' fd t dns now client h =
      get_connection-hit later data'' fd _ now client
        (get_connection-held env data' fd t dns client h)
