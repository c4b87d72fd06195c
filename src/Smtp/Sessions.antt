-- ===== src/Smtp/Sessions.antt =====
-- `SmtpServer::start` of rust/crates/utopia-proxy/src/server/smtp/server.rs: the sessions that run at once on one
-- adapter. A round of a session calls the adapter at most once, so a round is a step, and between two rounds of
-- a session any other may take some.
pub mod Guarded
use protocol_proxy.Resolver.{Resolver}
use protocol_proxy.Dns.{DnsState}
use protocol_proxy.Smtp.Config.{SmtpConfig}
use protocol_proxy.Net.{IpAddr}
use protocol_proxy.Adapter.Route.{CacheEntry, Adapter}
use protocol_proxy.External.{CacheApi}
use protocol_proxy.Smtp.Session.{Connection, Client, RoundEnv, build_adapter, answer}
use protocol_proxy.Smtp.Server.{Round, Control, continues, returns, handle_round, handle_client}
use protocol_proxy.Prelude.{
  ◌>>=◌, none, some, ok, err, if◌then◌else◌, codes, ◌==◌, Bytes, Option, Result, ◌≡◌, ℕ, [],
}

-- A session without the adapter that it shares.
pub record Link : Type 0 where
  pub connection : Connection
  pub to_client : Bytes

module _ (C : CacheApi Bytes CacheEntry) (D : CacheApi Bytes IpAddr) where
  pub record Server : Type 0 where
    pub adapter : Adapter C.Store
    pub dns : DnsState D.Store
    pub sessions : ℕ → Option Link

  -- The session with the adapter.
  abbrev pub joined : Server → Link → Client C D
  joined s link = record {
    connection = link.connection;
    to_client = link.to_client;
    adapter = s.adapter;
    dns = s.dns;
  }

  -- A session that goes on keeps its slot.
  abbrev pub left : Control → Client C D → Option Link
  left continues c = some (record { connection = c.connection; to_client = c.to_client })
  left (returns r) c = none

  abbrev pub taken : Server → ℕ → Control × Client C D → Server
  taken s i (control, c) = record {
    adapter = c.adapter;
    dns = c.dns;
    sessions = λ j. if i == j then left control c else s.sessions j;
  }

  -- A client is accepted and greeted, or a session takes a round.
  pub data Step (config : SmtpConfig) (s : Server) : Server → Type 0 where
    accepts :
        (i : ℕ) (env : RoundEnv)
        → s.sessions i ≡ none
        → Step config s (taken s i (handle_client C D config env [] s.adapter s.dns))
    rounds :
        (i : ℕ) (link : Link) (round : Round)
        → s.sessions i ≡ some link
        → Step config s (taken s i (handle_round C D config round (joined s link)))

  -- `bind` and `local_addr` are what these give.
  unfoldable pub start :
      SmtpConfig
      → Resolver
      → DnsState D.Store
      → Result Bytes (Unit {0})
      → Result Bytes (Unit {0})
      → Result Bytes Server
  unfolding build_adapter
  start config resolver dns bind local_addr = do
    _ ← bind
    _ ← local_addr
    ok (record { adapter = build_adapter C D resolver config; dns = dns; sessions = λ i. none })

  pub data Reach (config : SmtpConfig) (first : Server) : Server → Type 0 where
    started : Reach config first first
    later : {s t : Server} → Reach config first s → Step config s t → Reach config first t
