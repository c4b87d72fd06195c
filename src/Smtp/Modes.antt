-- ===== src/Smtp/Modes.antt =====
-- How a session comes to read a message, and how it comes to read commands again.
use protocol_proxy.Smtp.Turns.{
  IsEntered, Entering, attempt-holds, answer-Entering, forward_command-Entering,
  forward_data-Leaving,
}
use protocol_proxy.Smtp.Config.{SmtpConfig}
use protocol_proxy.Dns.{DnsState}
use protocol_proxy.Smtp.Server.{
  answered, handle_verb, handle_line, Verb, continues, returns, helo, verb, send_unavailable,
  forwarded, quit, unknown, Control, after,
}
use protocol_proxy.Resolver.{ResolverError, ConnectionResult}
use protocol_proxy.Net.{IpAddr}
use protocol_proxy.Adapter.Route.{CacheEntry, route, Adapter}
use protocol_proxy.External.{CacheApi}
use protocol_proxy.Smtp.Session.{
  forward_data, handle_helo, Client, is_data, package_max_length, dial_backend, Connection,
  connect_to_backend,
}
use protocol_proxy.Smtp.Lines.{is_terminator, parse_helo_domain, command_token}
use protocol_proxy.Prelude.{
  true, false, ok, err, inl, inr, refl, Bool-cases, Option-cases, arith, codes, ◌≡◌, Bytes, Result,
  [], some, ◌∙◌, ◌≤◌, ltb, length, sym, ap,
}
use protocol_proxy.Smtp.Session.{
  command, done, RoundEnv, data_mode, answer, forward_command, IoError, tell_client, set_backend,
  Step,
}

module _ (C : CacheApi Bytes CacheEntry) (D : CacheApi Bytes IpAddr) where
  dial_backend-Entering :
      (env : RoundEnv) (config : SmtpConfig) (line : Bytes) (s : Client C D)
      (out : Result ResolverError ConnectionResult × Adapter C.Store × DnsState D.Store)
      → Entering env line s
      → Entering env line (dial_backend C D env config line s out).1
  unfolding set_backend
  dial_backend-Entering env config line s (err e, a, dns) h = h
  dial_backend-Entering env config line s (ok routed, a, dns) h =
      let t = record s { adapter = a; dns = dns } in
      attempt-holds (Entering env line) (connect_to_backend env config routed.endpoint) t
        (λ b. forward_command env line (set_backend b t)) h
        (λ b e. forward_command-Entering env line (set_backend b t) h)

  handle_helo-Entering :
      (env : RoundEnv) (config : SmtpConfig) (line : Bytes) (s : Client C D)
      → Entering env line s
      → Entering env line (handle_helo C D env config line s).1
  unfolding handle_helo
  handle_helo-Entering env config line s h = elim (Option-cases (parse_helo_domain line)) [
    | inl missing ↦
        rw (missing, handle_helo) (answer-Entering env line (codes "501 Syntax error\r\n") s h)
    | inr (domain, found) ↦
        rw (found, handle_helo)
          (dial_backend-Entering env config line
            (record s { connection = record s.connection { domain = some domain } })
            (route C D env.route s.adapter s.dns domain) h)
  ]

  -- Ending with a 421 leaves the connection.
  after-connection :
      (env : RoundEnv) (next : Control) (out : Step C.Store D.Store)
      → (after env next out).1.connection ≡ out.1.connection
  unfolding send_unavailable tell_client
  after-connection env next (ok d, s) = refl
  after-connection env next (err e, s) = ground arith

  after-Entering :
      (env : RoundEnv) (line : Bytes) (next : Control) (out : Step C.Store D.Store)
      → Entering env line out.1
      → Entering env line (after env next out).1
  after-Entering env line next out h now =
      h (sym (ap (λ (c : Connection). c.state) (after-connection env next out)) ∙ now)

  answered-Entering :
      (env : RoundEnv) (line : Bytes) (out : Step C.Store D.Store)
      → Entering env line out.1
      → Entering env line (answered out).1
  answered-Entering env line (ok d, s) h = h
  answered-Entering env line (err e, s) h = h

  handle_verb-Entering :
      (env : RoundEnv) (config : SmtpConfig) (line : Bytes) (s : Client C D) (v : Verb)
      → Entering env line s
      → Entering env line (handle_verb C D env config line s v).1
  unfolding handle_verb
  handle_verb-Entering env config line s helo h =
      after-Entering env line continues (handle_helo C D env config line s)
        (handle_helo-Entering env config line s h)
  handle_verb-Entering env config line s forwarded h =
      after-Entering env line continues (forward_command env line s)
        (forward_command-Entering env line s h)
  handle_verb-Entering env config line s quit h =
      after-Entering env line (returns (ok done)) (forward_command env line s)
        (forward_command-Entering env line s h)
  handle_verb-Entering env config line s unknown h =
      answered-Entering env line (answer env (codes "500 Unknown command\r\n") s)
        (answer-Entering env line (codes "500 Unknown command\r\n") s h)

  -- A session that read commands reads a message after a line only if that line is `DATA`, in any case and
  -- with nothing but white space around it, and the backend's answer to it begins with 354.
  pub handle_line-IsEntered :
      (env : RoundEnv) (config : SmtpConfig) (line : Bytes) (s : Client C D)
      → s.connection.state ≡ command
      → (handle_line C D env config line s).1.connection.state ≡ data_mode
      → IsEntered env line
  unfolding handle_line is_data
  handle_line-IsEntered env config line s before now =
      let idle : is_data s.connection ≡ false = rw (before, is_data) refl in
      let start : Entering env line s = λ m. absurd (ground arith) in
      elim (Bool-cases (ltb package_max_length (length line))) [
        | inl long ↦
            let same = after-connection env continues (err (IoError.other []), s) in
            start (sym (ap (λ (c : Connection). c.state) same) ∙ (rw (long, handle_line) at now))
        | inr short ↦
            handle_verb-Entering env config line s (verb (command_token line)) start
              (rw (short, handle_line, idle) at now)
      ]

  -- A session that read a message reads commands after a line of at most 10 MiB only if the trimmed line is
  -- a single dot.
  pub handle_line-left :
      (env : RoundEnv) (config : SmtpConfig) (line : Bytes) (s : Client C D)
      → s.connection.state ≡ data_mode
      → length line ≤ package_max_length
      → (handle_line C D env config line s).1.connection.state ≡ command
      → is_terminator line ≡ true
  unfolding handle_line is_data
  handle_line-left env config line s before short now =
      let reading : is_data s.connection ≡ true = rw (before, is_data) refl in
      let fits : ltb package_max_length (length line) ≡ false = ground arith in
      let out = forward_data env line s in
      let same = after-connection env continues out in
      forward_data-Leaving env line s before
        (sym (ap (λ (c : Connection). c.state) same) ∙ (rw (fits, handle_line, reading) at now))
