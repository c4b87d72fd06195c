-- ===== src/Smtp/Turns.antt =====
-- What a turn with the client or the backend leaves of the mode of a session.
use protocol_proxy.External.{failed}
use protocol_proxy.External.{finished, Timed, elapsed}
use protocol_proxy.Smtp.Session.{forward_data}
use protocol_proxy.Text.Split.{starts_with}
use protocol_proxy.Smtp.Lines.{is_data_only_line, is_terminator}
use protocol_proxy.Prelude.{
  true, false, ok, err, inl, inr, refl, Bool-cases, Option-cases, arith, if◌then◌else◌, codes, ◌&&◌,
  ◌≡◌, Bool, Bytes, Result, is_empty,
}
use protocol_proxy.Smtp.Session.{
  command, done, RoundEnv, Session, data_mode, answer, relay_answer, forward_command, within,
  IoError, tell_client, set_backend, Step, attempt, set_state, sent_more,
}

-- The line is `DATA` and the backend's answer in the round begins with 354.
pub record IsEntered (env : RoundEnv) (line : Bytes) : Type 0 where
  pub asked : is_data_only_line line ≡ true
  pub response : Bytes
  pub given : env.read_backend ≡ finished response
  pub accepted : starts_with response (codes "354") ≡ true

within-ok :
    {A : Type 0} (message : Bytes) (t : Timed A) (a : A) → within message t ≡ ok a → t ≡ finished a
within-ok message elapsed a e = cc
within-ok message (failed m) a e = cc
within-ok message (finished b) a e = cc

module _ {S R : Type 0} (Q : Session S R → Type 0) where
  pub attempt-holds :
      {A : Type 0} (m : Result IoError A) (s : Session S R) (next : A → Step S R)
      → Q s
      → ((a : A) → m ≡ ok a → Q (next a).1)
      → Q (attempt m s next).1
  attempt-holds (err e) s next h k = h
  attempt-holds (ok a) s next h k = k a refl

module _ {S R : Type 0} (env : RoundEnv) (line : Bytes) where
  -- If the session now reads a message, the round was one that begins it.
  abbrev pub Entering : Session S R → Type 0
  Entering t = t.connection.state ≡ data_mode → IsEntered env line

  -- If the session now reads commands, the line was the message's last.
  abbrev pub Leaving : Session S R → Type 0
  Leaving t = t.connection.state ≡ command → is_terminator line ≡ true

  pub answer-Entering :
      (text : Bytes) (s : Session S R) → Entering s → Entering (answer env text s).1
  unfolding answer tell_client
  answer-Entering text s h =
      attempt-holds Entering env.write_client s
        (λ w. attempt env.flush_client (tell_client text s) (λ f. (ok done, tell_client text s))) h
        (λ w e.
          attempt-holds Entering env.flush_client (tell_client text s)
            (λ f. (ok done, tell_client text s)) h (λ f e. h))

  begin-Entering :
      (response : Bytes) (t : Session S R) (b : Bool)
      → b ≡ (is_data_only_line line && starts_with response (codes "354"))
      → env.read_backend ≡ finished response
      → Entering t
      → Entering (if b then set_state data_mode t else t)
  begin-Entering response t true e given h m = record {
    asked = ground arith;
    response = response;
    given = given;
    accepted = ground arith;
  }
  begin-Entering response t false e given h m = h m

  relay_answer-Entering :
      (response : Bytes) (s : Session S R)
      → env.read_backend ≡ finished response
      → Entering s
      → Entering (relay_answer env line response s).1
  unfolding relay_answer
  relay_answer-Entering response s given h = elim (Bool-cases (is_empty response)) [
    | inl nothing ↦ rw (nothing, relay_answer) h
    | inr more ↦
        rw (more, relay_answer)
          (attempt-holds Entering (answer env response s).0 (answer env response s).1
            (λ d. (
              ok done,
              if is_data_only_line line && starts_with response (codes "354")
                  then set_state data_mode (answer env response s).1
                  else (answer env response s).1,
            ))
            (answer-Entering response s h)
            (λ d e.
              begin-Entering response (answer env response s).1
                (is_data_only_line line && starts_with response (codes "354")) refl given
                (answer-Entering response s h)))
  ]

  pub forward_command-Entering :
      (s : Session S R) → Entering s → Entering (forward_command env line s).1
  unfolding forward_command set_backend
  forward_command-Entering s h = elim (Option-cases s.connection.backend) [
    | inl missing ↦ rw (missing, forward_command) h
    | inr (b, found) ↦
        let next = set_backend (sent_more b line) s in
        rw (found, forward_command)
          (attempt-holds Entering (within (codes "backend write timeout") env.write_backend) s _ h
            (λ w e.
              attempt-holds Entering (within (codes "backend flush timeout") env.flush_backend) next
                _ h
                (λ f e.
                  attempt-holds Entering (within (codes "backend read timeout") env.read_backend)
                    next _ h
                    (λ response e.
                      relay_answer-Entering response next
                        (within-ok (codes "backend read timeout") env.read_backend response e) h))))
  ]

  pub forward_data-Leaving :
      (s : Session S R) → s.connection.state ≡ data_mode → Leaving (forward_data env line s).1
  unfolding forward_data set_backend
  forward_data-Leaving s m = elim (Option-cases s.connection.backend) [
    | inl missing ↦ rw (missing, forward_data) (λ e. absurd (ground arith))
    | inr (b, found) ↦
        let next = set_backend (sent_more b line) s in
        let still : Leaving next = λ e. absurd (ground arith) in
        let before : Leaving s = λ e. absurd (ground arith) in
        elim (Bool-cases (is_terminator line)) [
          | inl last ↦ λ e. last
          | inr more ↦
              rw (found, forward_data)
                (attempt-holds Leaving (within (codes "backend write timeout") env.write_backend) s
                  _ before
                  (λ w e.
                    attempt-holds Leaving (within (codes "backend flush timeout") env.flush_backend)
                      next _ still (λ f e. rw more (λ now. absurd (ground arith)))))
        ]
  ]
