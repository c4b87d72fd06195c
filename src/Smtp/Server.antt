-- ===== src/Smtp/Server.antt =====
-- The loop of `handle_client` in rust/crates/utopia-proxy/src/server/smtp/server.rs, one line a round.
use protocol_proxy.Smtp.Config.{SmtpConfig}
use protocol_proxy.Smtp.Lines.{command_token}
use protocol_proxy.Dns.{DnsState}
use protocol_proxy.Net.{IpAddr}
use protocol_proxy.Adapter.Route.{CacheEntry, Adapter}
use protocol_proxy.External.{CacheApi}
use protocol_proxy.Smtp.Session.{
  IoError, tell_client, RoundEnv, Step, Done, Session, done, answer, Client, new_connection,
  handle_helo, package_max_length, forward_command, is_data, forward_data,
}
use protocol_proxy.Prelude.{
  bytes_eq, [], ◌∷◌, ok, err, if◌then◌else◌, codes, ◌||◌, Bytes, Result, List, bytes_beq, ltb,
  is_empty, length, inl, inr, refl, ◌≡◌, ◌⊎◌,
}

-- What the loop does after a round: it goes on, or the handler returns.
pub data Control : Type 0 where
  continues : Control
  returns : Result IoError Done → Control

pub Control-cases : (c : Control) → (c ≡ continues) ⊎ ((r : Result IoError Done) × (c ≡ returns r))
Control-cases continues = inl refl
Control-cases (returns r) = inr (r, refl)

pub data Verb : Type 0 where
  helo forwarded quit unknown : Verb

-- The arms of the match on the command token.
unfoldable pub verb : Bytes → Verb
unfolding bytes_beq
verb token =
    if bytes_beq token (codes "EHLO") || bytes_beq token (codes "HELO")
    then helo
    else if bytes_beq token (codes "QUIT")
    then quit
    else if bytes_beq token (codes "MAIL")
        || bytes_beq token (codes "RCPT")
        || bytes_beq token (codes "DATA")
        || bytes_beq token (codes "RSET")
        || bytes_beq token (codes "NOOP")
    then forwarded
    else unknown

-- What reading the next line gives, and the rest of the round.
pub record Round : Type 0 where
  pub read : Result IoError Bytes
  pub env : RoundEnv

module _ {S R : Type 0} where
  -- The 421, whose own failure is ignored.
  unfoldable pub send_unavailable : RoundEnv → Session S R → Session S R
  unfolding tell_client
  send_unavailable env s = elim env.write_unavailable [
    | err e ↦ s
    | ok d ↦ tell_client (codes "421 Service not available\r\n") s
  ]

  -- An error of forwarding is answered with a 421 and ends the session.
  abbrev pub after : RoundEnv → Control → Step S R → Control × Session S R
  after env next (ok d, s) = (next, s)
  after env next (err e, s) = (returns (ok done), send_unavailable env s)

  -- An error of answering the client ends the handler with it.
  abbrev pub answered : Step S R → Control × Session S R
  answered (ok d, s) = (continues, s)
  answered (err e, s) = (returns (err e), s)

module _ (C : CacheApi Bytes CacheEntry) (D : CacheApi Bytes IpAddr) where
  -- The match on the command token.
  unfoldable pub handle_verb :
      RoundEnv → SmtpConfig → Bytes → Client C D → Verb → Control × Client C D
  handle_verb env config line s helo = after env continues (handle_helo C D env config line s)
  handle_verb env config line s forwarded = after env continues (forward_command env line s)
  handle_verb env config line s quit = after env (returns (ok done)) (forward_command env line s)
  handle_verb env config line s unknown = answered (answer env (codes "500 Unknown command\r\n") s)

  unfoldable pub handle_line : RoundEnv → SmtpConfig → Bytes → Client C D → Control × Client C D
  unfolding send_unavailable handle_verb
  handle_line env config line s =
      if ltb package_max_length (length line)
      then (returns (ok done), send_unavailable env s)
      else if is_data s.connection
      then after env continues (forward_data env line s)
      else handle_verb env config line s (verb (command_token line))

  -- A round: an error of reading or the end of the input ends the handler.
  unfoldable pub handle_round : SmtpConfig → Round → Client C D → Control × Client C D
  unfolding handle_line
  handle_round config round s = elim round.read [
    | err e ↦ (returns (err e), s)
    | ok line ↦
        if is_empty line then (returns (ok done), s) else handle_line round.env config line s
  ]

  -- The loop; after the last round given it waits for the next line.
  unfoldable pub run_rounds : SmtpConfig → List Round → Client C D → Control × Client C D
  unfolding handle_round
  run_rounds config [] s = (continues, s)
  run_rounds config (r ∷ rs) s =
      let (control, next) = handle_round config r s in
      elim control [
        | continues ↦ run_rounds config rs next
        | returns result ↦ (returns result, next)
      ]

  -- The session's start: the greeting, and a connection without a backend.
  abbrev pub new_client : Adapter C.Store → DnsState D.Store → Client C D
  new_client a dns = record { connection = new_connection; to_client = []; adapter = a; dns = dns }

  unfoldable pub handle_client :
      SmtpConfig → RoundEnv → List Round → Adapter C.Store → DnsState D.Store → Control × Client C D
  unfolding run_rounds answer
  handle_client config env rounds a dns =
      let (greeted, s) =
        answer env (codes "220 utopia-php.io ESMTP Proxy\r\n") (new_client a dns) in
      elim greeted [ err e ↦ (returns (err e), s) | ok d ↦ run_rounds config rounds s ]
