-- ===== src/Adapter/Tcp/Tables.antt =====
-- The tables of a TCP adapter: who has a backend connection, and whose bytes the kernel relays.
use protocol_proxy.Adapter.Tcp.Held.{get_connection-IsKept}
use protocol_proxy.Dns.{DnsState}
use protocol_proxy.Resolver.{Resolver}
use protocol_proxy.Net.{IpAddr}
use protocol_proxy.External.{CacheApi, MapApi, IsMap}
use protocol_proxy.Adapter.Route.{CacheEntry}
use protocol_proxy.Sockmap.Pairs.{BpfApi, Names}
use protocol_proxy.Sockmap.Loader.{Loader}
use protocol_proxy.Sockmap.Loader
use protocol_proxy.Adapter.Tcp.{
  set_sockmap, Tcp, TcpClient, TcpEnv, new, get_connection, activate_sockmap, close_connection,
}
use protocol_proxy.Prelude.{
  nat_eq, none, some, refl, arith, if◌then◌else◌, ◌==◌, Option, ◌≡◌, ◌<◌, Bytes, ℕ, inl, inr,
  Bool-cases, Option-cases, ◌||◌, subst, ◌⊎◌, not, ==_iff, leb, Bool,
}

module _ (C : CacheApi Bytes CacheEntry) (D : CacheApi Bytes IpAddr) (T : MapApi ℕ TcpClient)
    (P : MapApi ℕ ℕ) (B : BpfApi) (map_laws : IsMap ℕ TcpClient T) (pair_laws : IsMap ℕ ℕ P) where
  -- Closing a client's connection forgets the client in both tables and touches no other client.
  pub close_connection_lem :
      (fd j : ℕ) (t : Tcp C D T P B) (l : Loader B.Map)
      → let out = close_connection C D T P B fd t l in
        (T.get j out.0.connections ≡ (if fd == j then none else T.get j t.connections))
        × (P.get j out.0.sockmap_pairs ≡ (if fd == j then none else P.get j t.sockmap_pairs))
        × (out.0.base ≡ t.base)
  unfolding close_connection
  close_connection_lem fd j t l =
      (map_laws.get-remove fd j t.connections, pair_laws.get-remove fd j t.sockmap_pairs, refl)

  -- A client whose bytes the kernel relays has a backend connection, with the descriptor of the pair.
  pub record IsPair (fd b : ℕ) (t : Tcp C D T P B) : Type 0 where
    pub client : TcpClient
    pub held : T.get fd t.connections ≡ some client
    pub same : client.fd ≡ b
    pub positive : 0 < b

  abbrev pub IsPaired : Tcp C D T P B → Type 0
  IsPaired t = (fd b : ℕ) → P.get fd t.sockmap_pairs ≡ some b → IsPair fd b t

  -- Calls on an adapter and the loader's state, in any order; the settings of time are left out.
  pub data Reach : Tcp C D T P B → Type 0 where
    starts : (port : ℕ) (resolver : Option Resolver) → Reach (new C D T P B port resolver)
    gets :
        {t : Tcp C D T P B} (env : TcpEnv) (data' : Bytes) (fd : ℕ) (dns : DnsState D.Store)
        → Reach t
        → Reach (get_connection C D T P B env data' fd t dns).1
    sets_sockmap : {t : Tcp C D T P B} (sockmap : Bool) → Reach t → Reach (set_sockmap sockmap t)
    activates :
        {t : Tcp C D T P B} (names : Names) (fd : ℕ) (l : Loader B.Map)
        → Reach t
        → Reach (activate_sockmap C D T P B names fd t l).1
    closes :
        {t : Tcp C D T P B} (fd : ℕ) (l : Loader B.Map)
        → Reach t
        → Reach (close_connection C D T P B fd t l).0

  new-IsPaired : (port : ℕ) (resolver : Option Resolver) → IsPaired (new C D T P B port resolver)
  unfolding new
  new-IsPaired port resolver fd b e = cc (pair_laws.get-new fd)

  set_sockmap-IsPaired :
      (sockmap : Bool) (t : Tcp C D T P B) → IsPaired t → IsPaired (set_sockmap sockmap t)
  unfolding set_sockmap
  set_sockmap-IsPaired sockmap t h fd b e =
      let i = h fd b e in
      record { client = i.client; held = i.held; same = i.same; positive = i.positive }

  close-IsPaired :
      (fd : ℕ) (t : Tcp C D T P B) (l : Loader B.Map)
      → IsPaired t
      → IsPaired (close_connection C D T P B fd t l).0
  unfolding close_connection
  close-IsPaired fd t l h j b e =
      let was : P.get j t.sockmap_pairs ≡ some b =
        ground (arith, pair_laws.get-remove fd j t.sockmap_pairs) in
      let i = h j b was in
      record {
        client = i.client;
        held = ground (
          arith,
          pair_laws.get-remove fd j t.sockmap_pairs,
          map_laws.get-remove fd j t.connections,
          i.held,
        );
        same = i.same;
        positive = i.positive;
      }

  -- Activation changes nothing, or records the descriptor of the client's backend.
  pub activate_cases :
      (names : Names) (fd : ℕ) (t : Tcp C D T P B) (l : Loader B.Map)
      → ((activate_sockmap C D T P B names fd t l).1 ≡ t)
        ⊎ ((client : TcpClient) × (T.get fd t.connections ≡ some client)
            × (0 < client.fd)
            × ((activate_sockmap C D T P B names fd t l).1
                ≡ record t { sockmap_pairs = P.insert fd client.fd t.sockmap_pairs }))
  unfolding activate_sockmap
  activate_cases names fd t l = elim (Bool-cases (not t.has_sockmap || not l.available)) [
    | inl off ↦ inl (rw (off, activate_sockmap))
    | inr on ↦ elim (Option-cases (T.get fd t.connections)) [
      | inl missing ↦ inl (rw (on, missing, activate_sockmap))
      | inr (client, held) ↦ elim (Bool-cases (leb client.fd 0)) [
        | inl none' ↦ inl (rw (on, held, none', activate_sockmap))
        | inr positive ↦ elim (Bool-cases (Loader.insert_pair B names fd client.fd l).0) [
          | inl done ↦ inr (client, held, ground arith, ground (arith, on, held, positive, done))
          | inr failed ↦ inl (ground (arith, on, held, positive, failed))
        ]
      ]
    ]
  ]

  IsPaired-again :
      (fd : ℕ) (client : TcpClient) (t : Tcp C D T P B)
      → T.get fd t.connections ≡ some client
      → 0 < client.fd
      → IsPaired t
      → IsPaired (record t { sockmap_pairs = P.insert fd client.fd t.sockmap_pairs })
  IsPaired-again fd client t held positive h j b e = elim (Bool-cases (fd == j)) [
    | inl same ↦ record {
      client = client;
      held = subst (λ n. T.get n t.connections ≡ some client) ((==_iff fd j).0 same) held;
      same = ground (arith, pair_laws.get-insert fd j client.fd t.sockmap_pairs);
      positive = ground (arith, pair_laws.get-insert fd j client.fd t.sockmap_pairs);
    }
    | inr other ↦
        let was : P.get j t.sockmap_pairs ≡ some b =
          ground (arith, pair_laws.get-insert fd j client.fd t.sockmap_pairs) in
        let i = h j b was in
        record { client = i.client; held = i.held; same = i.same; positive = i.positive }
  ]

  activate-IsPaired :
      (names : Names) (fd : ℕ) (t : Tcp C D T P B) (l : Loader B.Map)
      → IsPaired t
      → IsPaired (activate_sockmap C D T P B names fd t l).1
  activate-IsPaired names fd t l h = elim (activate_cases names fd t l) [
    | inl same ↦ rw same h
    | inr (client, held, positive, e) ↦ rw e (IsPaired-again fd client t held positive h)
  ]

  get-IsPaired :
      (env : TcpEnv) (data' : Bytes) (fd : ℕ) (t : Tcp C D T P B) (dns : DnsState D.Store)
      → IsPaired t
      → IsPaired (get_connection C D T P B env data' fd t dns).1
  get-IsPaired env data' fd t dns h j b e =
      let (pairs, conns) = get_connection-IsKept C D T P B map_laws env data' fd t dns in
      let i = h j b (ground (arith, pairs)) in
      record {
        client = i.client;
        held = elim conns [
          | inl kept ↦ ground (arith, kept, i.held)
          | inr (client, missing, added) ↦ ground (
            arith,
            added,
            missing,
            i.held,
            map_laws.get-insert fd j client t.connections,
            ==_iff fd j,
          )
        ];
        same = i.same;
        positive = i.positive;
      }

  Reach-IsPaired : {t : Tcp C D T P B} → Reach t → IsPaired t
  Reach-IsPaired (starts port resolver) = new-IsPaired port resolver
  Reach-IsPaired (gets {t} env data' fd dns r) = get-IsPaired env data' fd t dns (Reach-IsPaired r)
  Reach-IsPaired (sets_sockmap {t} sockmap r) = set_sockmap-IsPaired sockmap t (Reach-IsPaired r)
  Reach-IsPaired (activates {t} names fd l r) = activate-IsPaired names fd t l (Reach-IsPaired r)
  Reach-IsPaired (closes {t} fd l r) = close-IsPaired fd t l (Reach-IsPaired r)

  -- After any calls that Reach lists, a client that the kernel relays has a connection to the backend of its pair.
  pub Reach-IsPair :
      (t : Tcp C D T P B) (fd b : ℕ) → Reach t → P.get fd t.sockmap_pairs ≡ some b → IsPair fd b t
  Reach-IsPair t fd b r e = Reach-IsPaired r fd b e
