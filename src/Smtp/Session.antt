-- ===== src/Smtp/Session.antt =====
-- A client's session, `handle_client` of rust/crates/utopia-proxy/src/server/smtp/server.rs with the state of
-- connection.rs. What each operation on a socket gives is an argument. The session's record keeps the bytes
-- written to either side; a write that fails ends the session and is not counted.
use protocol_proxy.Smtp.Config.{SmtpConfig, default_port}
use protocol_proxy.Text.Utf8.{from_utf8_lossy}
use protocol_proxy.Net.{IpAddr}
use protocol_proxy.Text.Split.{starts_with}
use protocol_proxy.Dns.{DnsState}
use protocol_proxy.External.{failed}
use protocol_proxy.External.{CacheApi, Timed, finished, elapsed}
use protocol_proxy.Adapter.Endpoint.{parse_endpoint}
use protocol_proxy.Smtp.Lines.{is_terminator, is_data_only_line, trim_ascii, parse_helo_domain}
use protocol_proxy.Adapter.Route.{
  RouteEnv, Adapter, CacheEntry, set_cache_ttl, set_skip_validation, route,
}
use protocol_proxy.Prelude.{
  bytes_eq, [], none, some, true, false, ok, err, if◌then◌else◌, codes, ◌++◌, ◌&&◌, Bytes, ℕ,
  Option, Result, Bool, ◌*◌, is_empty, ◌>>=◌,
}
use protocol_proxy.Resolver.{Resolver, ConnectionResult, ResolverError, Duration, display}
use protocol_proxy.Protocol.{smtp}
use protocol_proxy.Adapter.Route

pub data IoError : Type 0 where
  timed_out unexpected_eof other system : (message : Bytes) → IoError

pub data Done : Type 0 where
  done : Done

abbrev pub within : {A : Type 0} → Bytes → Timed A → Result IoError A
within message elapsed = err (timed_out message)
within message (failed e) = err (system e)
within message (finished a) = ok a

pub data SmtpState : Type 0 where
  command data_mode : SmtpState

-- The connection to a backend: the host and the port dialed, and what was written to it.
pub record Backend : Type 0 where
  pub host : Bytes
  pub port : ℕ
  pub sent : Bytes

pub record Connection : Type 0 where
  pub state : SmtpState
  pub domain : Option Bytes
  pub backend : Option Backend

unfoldable pub new_connection : Connection
new_connection = record { state = command; domain = none; backend = none }

unfoldable pub is_data : Connection → Bool
is_data c = elim c.state [ command ↦ false | data_mode ↦ true ]

abbrev pub package_max_length : ℕ
package_max_length = 10 * 1024 * 1024

-- What the operations of one round give, each where the round comes to it.
pub record RoundEnv : Type 0 where
  pub route : RouteEnv
  pub connect : Bytes → ℕ → Duration → Timed Done
  pub read_greeting : Timed Bytes
  pub write_backend : Timed Done
  pub flush_backend : Timed Done
  pub read_backend : Timed Bytes
  pub write_client : Result IoError Done
  pub flush_client : Result IoError Done
  pub write_unavailable : Result IoError Done

-- A session and the adapter that it routes with.
pub record Session (S R : Type 0) : Type 0 where
  pub connection : Connection
  pub to_client : Bytes
  pub adapter : Adapter S
  pub dns : DnsState R

abbrev pub Step : (S R : Type 0) → Type 0
Step S R = Result IoError Done × Session S R

abbrev pub sent_more : Backend → Bytes → Backend
sent_more b line = record b { sent = b.sent ++ line }

module _ {S R : Type 0} where
  -- The question mark operator, where the state so far is kept.
  abbrev pub attempt : {A : Type 0} → Result IoError A → Session S R → (A → Step S R) → Step S R
  attempt (err e) s next = (err e, s)
  attempt (ok a) s next = next a

  unfoldable pub tell_client : Bytes → Session S R → Session S R
  tell_client text s = record s { to_client = s.to_client ++ text }

  unfoldable pub set_backend : Backend → Session S R → Session S R
  set_backend b s = record s { connection = record s.connection { backend = some b } }

  unfoldable pub set_state : SmtpState → Session S R → Session S R
  set_state state s = record s { connection = record s.connection { state = state } }

  -- Writing to the client and flushing.
  unfoldable pub answer : RoundEnv → Bytes → Session S R → Step S R
  unfolding tell_client
  answer env text s =
      attempt env.write_client s
        (λ w. attempt env.flush_client (tell_client text s) (λ f. (ok done, tell_client text s)))

  -- Relaying the backend's answer; after `DATA` and a 354 the message begins.
  unfoldable pub relay_answer : RoundEnv → Bytes → Bytes → Session S R → Step S R
  unfolding answer set_state
  relay_answer env line response s =
      if is_empty response
      then (err (unexpected_eof (codes "backend closed unexpectedly")), s)
      else attempt (answer env response s).0 (answer env response s).1 (λ d. (
        ok done,
        if is_data_only_line line && starts_with response (codes "354")
            then set_state data_mode (answer env response s).1
            else (answer env response s).1,
      ))

  unfoldable pub forward_command : RoundEnv → Bytes → Session S R → Step S R
  unfolding relay_answer set_backend
  forward_command env line s = elim s.connection.backend [
    | none ↦ (err (other (codes "no backend connection")), s)
    | some b ↦ attempt (within (codes "backend write timeout") env.write_backend) s (λ w.
        let s = set_backend (sent_more b line) s in
        attempt (within (codes "backend flush timeout") env.flush_backend) s (λ f.
          attempt (within (codes "backend read timeout") env.read_backend) s
            (λ response. relay_answer env line response s)))
  ]

  -- After the line that ends the message: the backend's last answer, which may be empty.
  unfoldable pub end_message : RoundEnv → Session S R → Step S R
  unfolding answer set_state
  end_message env s =
      attempt (within (codes "backend read timeout") env.read_backend) s (λ response.
        if is_empty response
        then (ok done, set_state command s)
        else answer env response (set_state command s))

  unfoldable pub forward_data : RoundEnv → Bytes → Session S R → Step S R
  unfolding end_message set_backend
  forward_data env line s = elim s.connection.backend [
    | none ↦ (err (other (codes "no backend connection")), s)
    | some b ↦ attempt (within (codes "backend write timeout") env.write_backend) s (λ w.
        let s = set_backend (sent_more b line) s in
        attempt (within (codes "backend flush timeout") env.flush_backend) s
          (λ f. if is_terminator line then end_message env s else (ok done, s)))
  ]

-- Whether the backend's first answer is a 220.
unfoldable pub check_greeting : Bytes → ℕ → Bytes → Result IoError Backend
check_greeting host port bytes =
    if is_empty bytes
    then err (unexpected_eof (codes "backend closed before greeting"))
    else let greeting = trim_ascii bytes in
      if starts_with greeting (codes "220")
      then ok (record { host = host; port = port; sent = [] })
      else err (other (codes "backend SMTP greeting failed: " ++ from_utf8_lossy greeting))

unfoldable pub connect_to_backend : RoundEnv → SmtpConfig → Bytes → Result IoError Backend
unfolding check_greeting
connect_to_backend env config endpoint =
    let (host, port) = parse_endpoint endpoint default_port in
    within (codes "backend connect timeout") (env.connect host port config.connect_timeout) >>= λ c.
    within (codes "backend greeting timeout") env.read_greeting >>= λ bytes.
    check_greeting host port bytes

module _ (C : CacheApi Bytes CacheEntry) (D : CacheApi Bytes IpAddr) where
  abbrev pub Client : Type 0
  Client = Session C.Store D.Store

  -- The adapter that `start` builds for all the sessions.
  unfoldable pub build_adapter : Resolver → SmtpConfig → Adapter C.Store
  build_adapter resolver config =
      let a = set_cache_ttl config.cache_ttl (Route.new C D (some resolver) smtp) in
      if config.skip_validation then set_skip_validation true a else a

  abbrev pub dial_backend :
      RoundEnv
      → SmtpConfig
      → Bytes
      → Client
      → Result ResolverError ConnectionResult × Adapter C.Store × DnsState D.Store
      → Step C.Store D.Store
  dial_backend env config line s (err e, a, dns) =
      (err (other (codes "resolver error: " ++ display e)), record s { adapter = a; dns = dns })
  dial_backend env config line s (ok routed, a, dns) =
      let s = record s { adapter = a; dns = dns } in
      attempt (connect_to_backend env config routed.endpoint) s
        (λ b. forward_command env line (set_backend b s))

  unfoldable pub handle_helo : RoundEnv → SmtpConfig → Bytes → Client → Step C.Store D.Store
  unfolding answer
  handle_helo env config line s = elim (parse_helo_domain line) [
    | none ↦ answer env (codes "501 Syntax error\r\n") s
    | some domain ↦
        let s = record s { connection = record s.connection { domain = some domain } } in
        dial_backend env config line s (route C D env.route s.adapter s.dns domain)
  ]
