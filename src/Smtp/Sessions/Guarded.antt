-- ===== src/Smtp/Sessions/Guarded.antt =====
-- What holds of all sessions of the SMTP server at once.
use protocol_proxy.Dns.{DnsState}
use protocol_proxy.Resolver.{Resolver}
use protocol_proxy.Smtp.Server.{Control, handle_round, handle_client, returns, continues}
use protocol_proxy.Smtp.Config.{SmtpConfig}
use protocol_proxy.Smtp.Session.{Client, build_adapter, Connection}
use protocol_proxy.Adapter.Route.Safety.{IsSound}
use protocol_proxy.Net.{IpAddr}
use protocol_proxy.Adapter.Route.{CacheEntry}
use protocol_proxy.External.{CacheApi, IsCache}
use protocol_proxy.Smtp.Sessions.{
  Server, Link, joined, left, taken, Step, accepts, rounds, start, Reach, started, later,
}
use protocol_proxy.Smtp.Guarded.{IsGuarded}
use protocol_proxy.Smtp.Reached.{
  handle_round-IsGuarded, handle_client-IsGuarded, build_adapter-IsSound,
}
use protocol_proxy.Prelude.{
  some, false, ok, ◌≡◌, Bytes, ℕ, Result, [], none, err, inl, inr, Bool-cases, arith, ◌==◌, subst,
  ◌∙◌, ap,
}

module _ (C : CacheApi Bytes CacheEntry) (D : CacheApi Bytes IpAddr)
    (laws : IsCache Bytes CacheEntry C) where
  -- The adapter validates and has only safe endpoints in its cache, and every session is guarded.
  pub record AreGuarded (s : Server C D) : Type 0 where
    pub sound : IsSound C D laws (s.adapter, s.dns)
    pub each :
        (i : ℕ) (link : Link) → s.sessions i ≡ some link → IsGuarded C D laws (joined C D s link)

  -- The backend of a session does not depend on the state of the adapter.
  joined-IsGuarded :
      (s : Server C D) (control : Control) (c : Client C D) (link : Link)
      → IsGuarded C D laws c
      → left C D control c ≡ some link
      → IsGuarded C D laws (joined C D (record s { adapter = c.adapter; dns = c.dns }) link)
  joined-IsGuarded s continues c link g e =
      let same : c.connection ≡ link.connection = ground arith in
      record {
        sound = g.sound;
        backed = λ m. ground (arith, g.backed);
        dialed = λ b has. g.dialed b (ap (λ (x : Connection). x.backend) same ∙ has);
      }
  joined-IsGuarded s (returns r) c link g e = cc

  other-IsGuarded :
      (s t : Server C D) (link : Link)
      → IsSound C D laws (t.adapter, t.dns)
      → IsGuarded C D laws (joined C D s link)
      → IsGuarded C D laws (joined C D t link)
  other-IsGuarded s t link sound g = record { sound = sound; backed = g.backed; dialed = g.dialed }

  taken-AreGuarded :
      (s : Server C D) (i : ℕ) (control : Control) (c : Client C D)
      → AreGuarded s
      → IsGuarded C D laws c
      → AreGuarded (taken C D s i (control, c))
  taken-AreGuarded s i control c h g = record {
    sound = g.sound;
    each = λ j link e. elim (Bool-cases (i == j)) [
      | inl same ↦ joined-IsGuarded s control c link g (rw same at e)
      | inr other ↦
          other-IsGuarded s (taken C D s i (control, c)) link g.sound
            (h.each j link (rw other at e))
    ];
  }

  Step-AreGuarded :
      {config : SmtpConfig} {s t : Server C D} → Step C D config s t → AreGuarded s → AreGuarded t
  Step-AreGuarded {config} {s} (accepts i env free) h =
      let out = handle_client C D config env [] s.adapter s.dns in
      taken-AreGuarded s i out.0 out.1 h
        (handle_client-IsGuarded C D laws config env [] s.adapter s.dns h.sound)
  Step-AreGuarded {config} {s} (rounds i link round e) h =
      let out = handle_round C D config round (joined C D s link) in
      taken-AreGuarded s i out.0 out.1 h
        (handle_round-IsGuarded C D laws config round (joined C D s link) (h.each i link e))

  started-eq :
      (config : SmtpConfig) (resolver : Resolver) (dns : DnsState D.Store)
      (bind local_addr : Result Bytes (Unit {0})) (s : Server C D)
      → start C D config resolver dns bind local_addr ≡ ok s
      → record { adapter = build_adapter C D resolver config; dns = dns; sessions = λ i. none } ≡ s
  unfolding start
  started-eq config resolver dns (ok b) (ok l) s e = ground arith
  started-eq config resolver dns (ok b) (err x) s e = cc
  started-eq config resolver dns (err x) l s e = cc

  start-AreGuarded :
      (config : SmtpConfig) (resolver : Resolver) (dns : DnsState D.Store)
      (bind local_addr : Result Bytes (Unit {0})) (s : Server C D)
      → config.skip_validation ≡ false
      → start C D config resolver dns bind local_addr ≡ ok s
      → AreGuarded s
  unfolding start
  start-AreGuarded config resolver dns bind local_addr s on e =
      let first : Server C D = record {
        adapter = build_adapter C D resolver config;
        dns = dns;
        sessions = λ i. none;
      } in
      let same : first ≡ s = started-eq config resolver dns bind local_addr s e in
      subst AreGuarded same (record {
        sound = build_adapter-IsSound C D laws resolver config dns on;
        each = λ i link e. cc;
      })

  -- From the start of an SMTP server whose settings do not skip validation, however its sessions interleave and whatever clients and
  -- backends say: every session reads a message only with a backend, and its backend was dialed at the host and port of
  -- an endpoint that `validate` let pass.
  pub Reach-AreGuarded :
      (config : SmtpConfig) (resolver : Resolver) (dns : DnsState D.Store)
      (bind local_addr : Result Bytes (Unit {0})) {first s : Server C D}
      → config.skip_validation ≡ false
      → start C D config resolver dns bind local_addr ≡ ok first
      → Reach C D config first s
      → AreGuarded s
  Reach-AreGuarded config resolver dns bind local_addr on e started =
      start-AreGuarded config resolver dns bind local_addr _ on e
  Reach-AreGuarded config resolver dns bind local_addr on e (later r st) =
      Step-AreGuarded st (Reach-AreGuarded config resolver dns bind local_addr on e r)
