-- ===== src/Smtp/Message.antt =====
-- A message's way to the backend.
use protocol_proxy.Smtp.Config.{SmtpConfig}
use protocol_proxy.Text.Words.{trim, trim_start, trim_end}
use mathlib.Core.List.{append_assoc}
use protocol_proxy.Smtp.Lines.{is_terminator, trim_ascii}
use protocol_proxy.Net.{IpAddr}
use protocol_proxy.Adapter.Route.{CacheEntry}
use protocol_proxy.Smtp.Server.{Round, handle_round, handle_line, continues, run_rounds}
use protocol_proxy.External.{CacheApi, finished}
use protocol_proxy.Prelude.{
  some, true, false, ok, ◌++◌, ◌&&◌, ◌≡◌, ◌≤◌, Bool, Bytes, not, is_empty, leb, length, [], ◌∷◌,
  refl, arith, List, ltb, all, map, ◌∙◌, bytes_beq,
}
use protocol_proxy.Smtp.Session.{
  command, done, RoundEnv, Client, Backend, package_max_length, sent_more, forward_data, is_data,
  set_backend, end_message, data_mode, answer, set_state, tell_client,
}

-- A line that the message goes on with.
abbrev pub is_body : Bytes → Bool
is_body line =
    not (is_empty line) && (leb (length line) package_max_length && not (is_terminator line))

-- A round with this line in which the sockets work and the backend's answer is the given one.
abbrev pub sends : RoundEnv → Bytes → Bytes → Round
sends env response line = record {
  read = ok line;
  env = record env {
    write_backend = finished done;
    flush_backend = finished done;
    read_backend = finished response;
    write_client = ok done;
    flush_client = ok done;
  };
}

abbrev pub concat : List Bytes → Bytes
concat [] = []
concat (line ∷ lines) = line ++ concat lines

terminator-nonempty : (line : Bytes) → is_terminator line ≡ true → is_empty line ≡ false
unfolding is_terminator trim_ascii trim trim_start trim_end bytes_beq
terminator-nonempty [] h = cc
terminator-nonempty (x ∷ line) h = refl

module _ (C : CacheApi Bytes CacheEntry) (D : CacheApi Bytes IpAddr) where
  -- The session with these bytes more sent to its backend.
  abbrev pub relayed : Client C D → Backend → Bytes → Client C D
  relayed s b text = record s {
    connection = record s.connection { backend = some (sent_more b text) };
  }

  -- The session after the message.
  abbrev pub ended : Client C D → Backend → Bytes → Bytes → Client C D
  ended s b text response = record s {
    connection = record s.connection { backend = some (sent_more b text); state = command };
    to_client = s.to_client ++ response;
  }

  body-round :
      (config : SmtpConfig) (env : RoundEnv) (response line : Bytes) (s : Client C D) (b : Backend)
      → s.connection.state ≡ data_mode
      → s.connection.backend ≡ some b
      → is_body line ≡ true
      → handle_round C D config (sends env response line) s ≡ (continues, relayed s b line)
  unfolding handle_round handle_line forward_data is_data set_backend
  body-round config env response line s b m k h =
      let reading : is_data s.connection ≡ true = rw (m, is_data) refl in
      let given : is_empty line ≡ false = ground arith in
      let short : ltb package_max_length (length line) ≡ false = ground arith in
      let goes_on : is_terminator line ≡ false = ground arith in
      rw (given, handle_round, short, handle_line, reading, k, forward_data, goes_on, set_backend)
        refl

  last-round :
      (config : SmtpConfig) (env : RoundEnv) (response last : Bytes) (s : Client C D) (b : Backend)
      → s.connection.state ≡ data_mode
      → s.connection.backend ≡ some b
      → is_terminator last ≡ true
      → length last ≤ package_max_length
      → is_empty response ≡ false
      → handle_round C D config (sends env response last) s ≡ (continues, ended s b last response)
  unfolding handle_round handle_line forward_data is_data set_backend end_message answer set_state
      tell_client
  last-round config env response last s b m k t l r =
      let reading : is_data s.connection ≡ true = rw (m, is_data) refl in
      let given = terminator-nonempty last t in
      let short : ltb package_max_length (length last) ≡ false = ground arith in
      rw
        (
          given, handle_round, short, handle_line, reading, k, forward_data, t, set_backend, r,
          end_message,
        )
        refl

  run_rounds-next :
      (config : SmtpConfig) (r : Round) (rs : List Round) (s t : Client C D)
      → handle_round C D config r s ≡ (continues, t)
      → run_rounds C D config (r ∷ rs) s ≡ run_rounds C D config rs t
  unfolding run_rounds
  run_rounds-next config r rs s t e =
      let goes_on : (handle_round C D config r s).0 ≡ continues = rw e refl in
      let next : (handle_round C D config r s).1 ≡ t = rw e refl in
      rw (goes_on, run_rounds, next) refl

  -- In a message, where the sockets work: the lines up to the one whose trimmed text is a single dot go to
  -- the backend byte for byte and in order, that line too; then the backend's answer goes to the client
  -- and the session reads commands again. Each line is at most 10 MiB long, and the answer is not empty.
  pub message-IsRelayed :
      (config : SmtpConfig) (env : RoundEnv) (response last : Bytes) (body : List Bytes)
      (s : Client C D) (b : Backend)
      → s.connection.state ≡ data_mode
      → s.connection.backend ≡ some b
      → all is_body body ≡ true
      → is_terminator last ≡ true
      → length last ≤ package_max_length
      → is_empty response ≡ false
      → run_rounds C D config (map (sends env response) (body ++ last ∷ [])) s
        ≡ (continues, ended s b (concat body ++ last) response)
  unfolding run_rounds
  message-IsRelayed config env response last [] s b m k h t l r =
      run_rounds-next config (sends env response last) [] s _
        (last-round config env response last s b m k t l r)
  message-IsRelayed config env response last (line ∷ body) s b m k h t l r =
      let first = body-round config env response line s b m k (ground arith) in
      let rest =
        message-IsRelayed config env response last body (relayed s b line) (sent_more b line) m refl
          (ground arith) t l r in
      let same : (b.sent ++ line) ++ (concat body ++ last)
          ≡ b.sent ++ ((line ++ concat body) ++ last) =
        simp (append_assoc) in
      run_rounds-next config (sends env response line)
        (map (sends env response) (body ++ last ∷ [])) s _ first
      ∙ rest
      ∙ rw same refl
