-- ===== src/Smtp/Guarded.antt =====
-- What holds of a session at every round: it reads a message only with a backend, and the backend was
-- dialed from an endpoint that `validate` let pass.
use protocol_proxy.Smtp.Config.{default_port, SmtpConfig}
use protocol_proxy.Text.Split.{starts_with}
use protocol_proxy.Smtp.Lines.{is_terminator, is_data_only_line, parse_helo_domain}
use protocol_proxy.Adapter.Route.Safety.{IsSound, Outcome, IsGood, route-IsGood}
use protocol_proxy.Smtp.Session.{
  within, connect_to_backend, handle_helo, check_greeting, dial_backend,
}
use protocol_proxy.Net.{IpAddr}
use protocol_proxy.Adapter.Endpoint.{parse_endpoint}
use protocol_proxy.Adapter.Route.{CacheEntry}
use protocol_proxy.Adapter.Route.Validated.{IsSafe}
use protocol_proxy.External.{CacheApi, IsCache}
use protocol_proxy.Smtp.Session.{
  Backend, Client, tell_client, set_state, set_backend, sent_more, answer, relay_answer,
  forward_command, end_message, forward_data, IoError, command, RoundEnv, data_mode, Step, attempt,
}
use protocol_proxy.Prelude.{
  some, true, ok, err, inl, inr, refl, Option-cases, arith, codes, ◌&&◌, ◌≡◌, subst, Bytes, Result,
  is_some, is_empty, false, if◌then◌else◌, Bool,
}

-- A backend dialed from a safe endpoint.
pub record IsAllowed (b : Backend) : Type 0 where
  pub endpoint : Bytes
  pub safe : IsSafe endpoint
  pub parsed : (b.host, b.port) ≡ parse_endpoint endpoint default_port

module _ (C : CacheApi Bytes CacheEntry) (D : CacheApi Bytes IpAddr)
    (laws : IsCache Bytes CacheEntry C) where
  pub record IsGuarded (s : Client C D) : Type 0 where
    pub sound : IsSound C D laws (s.adapter, s.dns)
    pub backed : s.connection.state ≡ data_mode → is_some s.connection.backend ≡ true
    pub dialed : (b : Backend) → s.connection.backend ≡ some b → IsAllowed b

  attempt-IsGuarded :
      {A : Type 0} (m : Result IoError A) (s : Client C D) (next : A → Step C.Store D.Store)
      → IsGuarded s
      → ((a : A) → IsGuarded (next a).1)
      → IsGuarded (attempt m s next).1
  attempt-IsGuarded (err e) s next h k = h
  attempt-IsGuarded (ok a) s next h k = k a

  choose-IsGuarded :
      (b : Bool) (s t : Client C D) → IsGuarded s → IsGuarded t → IsGuarded (if b then s else t)
  choose-IsGuarded true s t h k = h
  choose-IsGuarded false s t h k = k

  choose_step-IsGuarded :
      (b : Bool) (s t : Step C.Store D.Store)
      → IsGuarded s.1
      → IsGuarded t.1
      → IsGuarded (if b then s else t).1
  choose_step-IsGuarded true s t h k = h
  choose_step-IsGuarded false s t h k = k

  pub tell_client-IsGuarded :
      (text : Bytes) (s : Client C D) → IsGuarded s → IsGuarded (tell_client text s)
  unfolding tell_client
  tell_client-IsGuarded text s h = record { sound = h.sound; backed = h.backed; dialed = h.dialed }

  command-IsGuarded : (s : Client C D) → IsGuarded s → IsGuarded (set_state command s)
  unfolding set_state
  command-IsGuarded s h = record { sound = h.sound; backed = λ e. cc; dialed = h.dialed }

  data_mode-IsGuarded :
      (s : Client C D)
      → is_some s.connection.backend ≡ true
      → IsGuarded s
      → IsGuarded (set_state data_mode s)
  unfolding set_state
  data_mode-IsGuarded s b h = record { sound = h.sound; backed = λ e. b; dialed = h.dialed }

  set_backend-IsGuarded :
      (b : Backend) (s : Client C D) → IsAllowed b → IsGuarded s → IsGuarded (set_backend b s)
  unfolding set_backend
  set_backend-IsGuarded b s a h = record {
    sound = h.sound;
    backed = λ e. refl;
    dialed = λ c e. let same : b ≡ c = ground arith in subst IsAllowed same a;
  }

  sent_more-IsAllowed : (b : Backend) (line : Bytes) → IsAllowed b → IsAllowed (sent_more b line)
  sent_more-IsAllowed b line a = record { endpoint = a.endpoint; safe = a.safe; parsed = a.parsed }

  pub answer-IsGuarded :
      (env : RoundEnv) (text : Bytes) (s : Client C D)
      → IsGuarded s
      → IsGuarded (answer env text s).1
  unfolding answer
  answer-IsGuarded env text s h = attempt-IsGuarded env.write_client s _ h (λ w.
      attempt-IsGuarded env.flush_client (tell_client text s) _ (tell_client-IsGuarded text s h)
        (λ f. tell_client-IsGuarded text s h))

  -- Answering the client leaves the connection.
  answer-connection :
      (env : RoundEnv) (text : Bytes) (s : Client C D)
      → (answer env text s).1.connection ≡ s.connection
  unfolding answer tell_client
  answer-connection env text s = ground arith

  relay_answer-IsGuarded :
      (env : RoundEnv) (line response : Bytes) (s : Client C D)
      → is_some s.connection.backend ≡ true
      → IsGuarded s
      → IsGuarded (relay_answer env line response s).1
  unfolding relay_answer
  relay_answer-IsGuarded env line response s b h =
      let told = answer-IsGuarded env response s h in
      choose_step-IsGuarded (is_empty response) _ _ h (
        attempt-IsGuarded (answer env response s).0 (answer env response s).1 _ told (λ d.
          choose-IsGuarded (is_data_only_line line && starts_with response (codes "354")) _ _
            (data_mode-IsGuarded (answer env response s).1
              (rw (answer-connection env response s, is_some) b) told)
            told))

  pub forward_command-IsGuarded :
      (env : RoundEnv) (line : Bytes) (s : Client C D)
      → IsGuarded s
      → IsGuarded (forward_command env line s).1
  unfolding forward_command
  forward_command-IsGuarded env line s h = elim (Option-cases s.connection.backend) [
    | inl missing ↦ rw (missing, forward_command) h
    | inr (b, found) ↦
        let next = set_backend (sent_more b line) s in
        let written : IsGuarded next =
          set_backend-IsGuarded (sent_more b line) s (sent_more-IsAllowed b line (h.dialed b found))
            h in
        rw (found, forward_command)
          (attempt-IsGuarded (within (codes "backend write timeout") env.write_backend) s _ h (λ w.
            attempt-IsGuarded (within (codes "backend flush timeout") env.flush_backend) next _
              written
              (λ f.
                attempt-IsGuarded (within (codes "backend read timeout") env.read_backend) next _
                  written
                  (λ response.
                    relay_answer-IsGuarded env line response next (unfold set_backend in refl)
                      written))))
  ]

  end_message-IsGuarded :
      (env : RoundEnv) (s : Client C D) → IsGuarded s → IsGuarded (end_message env s).1
  unfolding end_message
  end_message-IsGuarded env s h =
      attempt-IsGuarded (within (codes "backend read timeout") env.read_backend) s _ h (λ response.
        choose_step-IsGuarded (is_empty response) _ _ (command-IsGuarded s h)
          (answer-IsGuarded env response (set_state command s) (command-IsGuarded s h)))

  pub forward_data-IsGuarded :
      (env : RoundEnv) (line : Bytes) (s : Client C D)
      → IsGuarded s
      → IsGuarded (forward_data env line s).1
  unfolding forward_data
  forward_data-IsGuarded env line s h = elim (Option-cases s.connection.backend) [
    | inl missing ↦ rw (missing, forward_data) h
    | inr (b, found) ↦
        let next = set_backend (sent_more b line) s in
        let written : IsGuarded next =
          set_backend-IsGuarded (sent_more b line) s (sent_more-IsAllowed b line (h.dialed b found))
            h in
        rw (found, forward_data)
          (attempt-IsGuarded (within (codes "backend write timeout") env.write_backend) s _ h (λ w.
            attempt-IsGuarded (within (codes "backend flush timeout") env.flush_backend) next _
              written
              (λ f.
                choose_step-IsGuarded (is_terminator line) _ _
                  (end_message-IsGuarded env next written) written)))
  ]

  connect_to_backend-IsAllowed :
      (env : RoundEnv) (config : SmtpConfig) (endpoint : Bytes) (b : Backend)
      → IsSafe endpoint
      → connect_to_backend env config endpoint ≡ ok b
      → IsAllowed b
  unfolding connect_to_backend check_greeting
  connect_to_backend-IsAllowed env config endpoint b safe e = record {
    endpoint = endpoint;
    safe = safe;
    parsed = ground arith;
  }

  connected-IsGuarded :
      (env : RoundEnv) (config : SmtpConfig) (line : Bytes) (s : Client C D)
      (r : Result IoError Backend)
      → ((b : Backend) → r ≡ ok b → IsAllowed b)
      → IsGuarded s
      → IsGuarded (attempt r s (λ b. forward_command env line (set_backend b s))).1
  connected-IsGuarded env config line s (err e) a h = h
  connected-IsGuarded env config line s (ok b) a h =
      forward_command-IsGuarded env line (set_backend b s) (set_backend-IsGuarded b s (a b refl) h)

  dial_backend-IsGuarded :
      (env : RoundEnv) (config : SmtpConfig) (line : Bytes) (s : Client C D)
      (out : Outcome C D laws)
      → IsGood C D laws out
      → IsGuarded s
      → IsGuarded (dial_backend C D env config line s out).1
  dial_backend-IsGuarded env config line s (err e, a, dns) g h = record {
    sound = (g.cache, g.validating);
    backed = h.backed;
    dialed = h.dialed;
  }
  dial_backend-IsGuarded env config line s (ok routed, a, dns) g h =
      connected-IsGuarded env config line (record s { adapter = a; dns = dns }) _
        (λ b e. connect_to_backend-IsAllowed env config routed.endpoint b (g.answer routed refl) e)
        (record { sound = (g.cache, g.validating); backed = h.backed; dialed = h.dialed })

  pub handle_helo-IsGuarded :
      (env : RoundEnv) (config : SmtpConfig) (line : Bytes) (s : Client C D)
      → IsGuarded s
      → IsGuarded (handle_helo C D env config line s).1
  unfolding handle_helo
  handle_helo-IsGuarded env config line s h = elim (Option-cases (parse_helo_domain line)) [
    | inl missing ↦
        rw (missing, handle_helo) (answer-IsGuarded env (codes "501 Syntax error\r\n") s h)
    | inr (domain, found) ↦
        rw (found, handle_helo)
          (dial_backend-IsGuarded env config line
            (record s { connection = record s.connection { domain = some domain } }) _
            (route-IsGood C D laws env.route s.adapter s.dns domain h.sound.0 h.sound.1)
            (record { sound = h.sound; backed = h.backed; dialed = h.dialed }))
  ]
