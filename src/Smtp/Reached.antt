-- ===== src/Smtp/Reached.antt =====
-- What every session comes to: the rounds of `handle_client` keep it guarded.
use protocol_proxy.Smtp.Config.{SmtpConfig}
use protocol_proxy.Resolver.{Resolver}
use protocol_proxy.Adapter.Route.Safety.{IsSound, build-IsCacheSafe}
use protocol_proxy.Dns.{DnsState, nanos_per_second}
use protocol_proxy.Smtp.Lines.{command_token}
use protocol_proxy.Smtp.Guarded.{
  IsGuarded, forward_data-IsGuarded, answer-IsGuarded, tell_client-IsGuarded, handle_helo-IsGuarded,
  forward_command-IsGuarded,
}
use protocol_proxy.Smtp.Server.{
  handle_line, handle_round, run_rounds, handle_client, Control, continues, answered, verb, Round,
  Control-cases, new_client, after, handle_verb, Verb,
}
use protocol_proxy.Smtp.Session.{
  RoundEnv, Step, Client, new_connection, package_max_length, is_data, answer, build_adapter,
}
use protocol_proxy.Net.{IpAddr}
use protocol_proxy.Adapter.Route.{CacheEntry, Adapter, new, set_cache_ttl, cache_capacity}
use protocol_proxy.External.{CacheApi, IsCache}
use protocol_proxy.Prelude.{
  [], ◌∷◌, true, false, ok, err, inl, inr, Result-cases, if◌then◌else◌, codes, Bytes, Bool, ltb,
  List, is_empty, length, refl, ◌≡◌, ◌*◌,
}
use protocol_proxy.Smtp.Server.{send_unavailable, helo, forwarded, quit, unknown, continues}
use protocol_proxy.Smtp.Session.{other}

module _ (C : CacheApi Bytes CacheEntry) (D : CacheApi Bytes IpAddr)
    (laws : IsCache Bytes CacheEntry C) where
  after-IsGuarded :
      (env : RoundEnv) (next : Control) (out : Step C.Store D.Store)
      → IsGuarded C D laws out.1
      → IsGuarded C D laws (after env next out).1
  unfolding send_unavailable
  after-IsGuarded env next (ok d, s) h = h
  after-IsGuarded env next (err e, s) h = elim (Result-cases env.write_unavailable) [
    | inl (f, failed) ↦ rw (failed, send_unavailable) h
    | inr (d, written) ↦
        rw (written, send_unavailable)
          (tell_client-IsGuarded C D laws (codes "421 Service not available\r\n") s h)
  ]

  send_unavailable-IsGuarded :
      (env : RoundEnv) (s : Client C D)
      → IsGuarded C D laws s
      → IsGuarded C D laws (send_unavailable env s)
  send_unavailable-IsGuarded env s h = after-IsGuarded env continues (err (other []), s) h

  answered-IsGuarded :
      (out : Step C.Store D.Store) → IsGuarded C D laws out.1 → IsGuarded C D laws (answered out).1
  answered-IsGuarded (ok d, s) h = h
  answered-IsGuarded (err e, s) h = h

  handle_verb-IsGuarded :
      (env : RoundEnv) (config : SmtpConfig) (line : Bytes) (s : Client C D) (v : Verb)
      → IsGuarded C D laws s
      → IsGuarded C D laws (handle_verb C D env config line s v).1
  unfolding handle_verb
  handle_verb-IsGuarded env config line s helo h =
      after-IsGuarded env continues _ (handle_helo-IsGuarded C D laws env config line s h)
  handle_verb-IsGuarded env config line s forwarded h =
      after-IsGuarded env continues _ (forward_command-IsGuarded C D laws env line s h)
  handle_verb-IsGuarded env config line s quit h =
      after-IsGuarded env _ _ (forward_command-IsGuarded C D laws env line s h)
  handle_verb-IsGuarded env config line s unknown h =
      answered-IsGuarded _ (answer-IsGuarded C D laws env _ s h)

  choose_round-IsGuarded :
      (b : Bool) (s t : Control × Client C D)
      → IsGuarded C D laws s.1
      → IsGuarded C D laws t.1
      → IsGuarded C D laws (if b then s else t).1
  choose_round-IsGuarded true s t h k = h
  choose_round-IsGuarded false s t h k = k

  handle_line-IsGuarded :
      (env : RoundEnv) (config : SmtpConfig) (line : Bytes) (s : Client C D)
      → IsGuarded C D laws s
      → IsGuarded C D laws (handle_line C D env config line s).1
  unfolding handle_line
  handle_line-IsGuarded env config line s h =
      choose_round-IsGuarded (ltb package_max_length (length line)) _ _
        (send_unavailable-IsGuarded env s h)
        (choose_round-IsGuarded (is_data s.connection) _ _
          (after-IsGuarded env continues _ (forward_data-IsGuarded C D laws env line s h))
          (handle_verb-IsGuarded env config line s (verb (command_token line)) h))

  pub handle_round-IsGuarded :
      (config : SmtpConfig) (round : Round) (s : Client C D)
      → IsGuarded C D laws s
      → IsGuarded C D laws (handle_round C D config round s).1
  unfolding handle_round
  handle_round-IsGuarded config round s h = elim (Result-cases round.read) [
    | inl (e, failed) ↦ rw (failed, handle_round) h
    | inr (line, given) ↦
        rw (given, handle_round)
          (choose_round-IsGuarded (is_empty line) _ _ h
            (handle_line-IsGuarded round.env config line s h))
  ]

  run_rounds-IsGuarded :
      (config : SmtpConfig) (rounds : List Round) (s : Client C D)
      → IsGuarded C D laws s
      → IsGuarded C D laws (run_rounds C D config rounds s).1
  unfolding run_rounds
  run_rounds-IsGuarded config [] s h = h
  run_rounds-IsGuarded config (r ∷ rs) s h =
      let next = handle_round-IsGuarded config r s h in
      elim (Control-cases (handle_round C D config r s).0) [
        | inl on ↦ rw (on, run_rounds) (run_rounds-IsGuarded config rs _ next)
        | inr (result, over) ↦ rw (over, run_rounds) next
      ]

  -- However the client, the backend and the sockets behave, and whatever the lines: a session whose adapter
  -- validates and has only safe endpoints in its cache is, after any rounds, in the message only with a
  -- backend, and its backend was dialed at the host and port of an endpoint that `validate` let pass.
  pub handle_client-IsGuarded :
      (config : SmtpConfig) (env : RoundEnv) (rounds : List Round) (a : Adapter C.Store)
      (dns : DnsState D.Store)
      → IsSound C D laws (a, dns)
      → IsGuarded C D laws (handle_client C D config env rounds a dns).1
  unfolding handle_client new_connection
  handle_client-IsGuarded config env rounds a dns sound =
      let start : IsGuarded C D laws (new_client C D a dns) = record {
        sound = sound;
        backed = λ e. cc;
        dialed = λ b e. cc;
      } in
      let greeted =
        answer-IsGuarded C D laws env (codes "220 utopia-php.io ESMTP Proxy\r\n") _ start in
      elim (Result-cases
        (answer env (codes "220 utopia-php.io ESMTP Proxy\r\n") (new_client C D a dns)).0) [
          | inl (e, failed) ↦ rw (failed, handle_client) greeted
          | inr (d, passed) ↦
              rw (passed, handle_client) (run_rounds-IsGuarded config rounds _ greeted)
        ]

  -- The adapter that `start` builds, where the settings do not skip validation.
  pub build_adapter-IsSound :
      (resolver : Resolver) (config : SmtpConfig) (dns : DnsState D.Store)
      → config.skip_validation ≡ false
      → IsSound C D laws (build_adapter C D resolver config, dns)
  unfolding build_adapter new set_cache_ttl
  build_adapter-IsSound resolver config dns on =
      rw (on, build_adapter)
        (build-IsCacheSafe C D laws cache_capacity (3600 * nanos_per_second), refl)

  -- On that adapter, where no session has run on it before, a session is guarded after any rounds, and so is what it
  -- leaves in the adapter's cache.
  build_adapter-IsGuarded :
      (resolver : Resolver) (config : SmtpConfig) (env : RoundEnv) (rounds : List Round)
      (dns : DnsState D.Store)
      → config.skip_validation ≡ false
      → IsGuarded C D laws
          (handle_client C D config env rounds (build_adapter C D resolver config) dns).1
  build_adapter-IsGuarded resolver config env rounds dns on =
      handle_client-IsGuarded config env rounds (build_adapter C D resolver config) dns
        (build_adapter-IsSound resolver config dns on)
