-- ===== src/Http/Raw/Framing.antt =====
-- The loops that read a raw response end, and what they read does not depend on how the bytes arrive.
use protocol_proxy.Http.Raw.Search.{
  find_subslice-le, find_subslice-append, moved, take-length-append, length-drop, take-append,
  drop-length-append, is_empty-take, drop-append,
}
use protocol_proxy.Resolver.{ProxyError}
use protocol_proxy.Http.Config.{HttpConfig}
use protocol_proxy.Http.Heads.{Head, parse_head}
use protocol_proxy.Http.Names.{find_subslice}
use mathlib.Core.List.{append-nil}
use protocol_proxy.External.{finished, failed, elapsed}
use protocol_proxy.Http.Raw.{
  with_received, with_head, separator, cut, Reads, read_rest, Received, read_head, chunk,
  after_chunk, read_body, read_response, RawEnv, build_response,
}
use protocol_proxy.Prelude.{
  [], ◌∷◌, some, ok, refl, arith, ◌++◌, ◌≡◌, ap, ◌<◌, ◌≤◌, ℕ, take, length, Bytes, drop, min, ◌+◌,
  false, ◌∙◌, ◌-◌, is_empty, length-append, sym, none, inl, inr, Option-cases, subst, codes, Result,
  take-append_drop,
}

-- Reads that each give something, and so many that they can give a stream.
abbrev pub AllPositive : Reads → Type 0
AllPositive [] = Unit {0}
AllPositive (finished n ∷ reads) = (0 < n) × AllPositive reads
AllPositive (r ∷ reads) = ⊥

-- The body's loop reads what is missing of the length, in whatever chunks it comes.
pub read_rest-all :
    (total : ℕ) (body stream : Bytes) (reads : Reads)
    → length body + length stream ≡ total
    → AllPositive reads
    → length stream ≤ length reads
    → read_rest total body stream reads ≡ some (ok (body ++ stream))
unfolding read_rest
read_rest-all total body [] [] e p h = ground (arith, append-nil body)
read_rest-all total body (c ∷ cs) [] e p h = absurd (omega arith)
read_rest-all total body [] (finished n ∷ reads) e p h = ground (arith, append-nil body)
read_rest-all total body (c ∷ cs) (finished n ∷ reads) e p h =
    let k = min n (min (total - length body) 8192) in
    let s : Bytes = c ∷ cs in
    let rest =
      read_rest-all total (body ++ take k s) (drop k s) reads
        (omega (
          arith,
          length-append body (take k s),
          length-append (take k s) (drop k s),
          ap length (take-append_drop k s),
        ))
        p.1 (omega (arith, length-drop k s)) in
    ground (arith, rest, moved k body s, is_empty-take k s (omega arith) (omega arith))
read_rest-all total body stream (elapsed ∷ reads) e p h = elim p [ ]
read_rest-all total body stream (failed m ∷ reads) e p h = elim p [ ]

-- What the loop for the head gives, of bytes in which the empty line stands.
abbrev IsReceived : ℕ → Bytes → Received → Type 0
IsReceived position all got =
    (got.head ≡ take position all)
    × (got.buffer ++ got.stream ≡ drop (position + 4) all)
    × AllPositive got.reads
    × (length got.stream ≤ length got.reads)

cut-IsReceived :
    (position : ℕ) (buffer stream : Bytes) (reads : Reads)
    → find_subslice buffer separator ≡ some position
    → AllPositive reads
    → length stream ≤ length reads
    → IsReceived position (buffer ++ stream) (cut position buffer stream reads)
cut-IsReceived position buffer stream reads e p h =
    let inside = find_subslice-le buffer separator position e in
    (
      sym (take-append position buffer stream (omega arith)),
      sym (drop-append (position + 4) buffer stream (omega arith)),
      p,
      h,
    )

read_head-found :
    (position : ℕ) (buffer stream : Bytes) (reads : Reads)
    → find_subslice buffer separator ≡ some position
    → read_head buffer stream reads ≡ some (ok (cut position buffer stream reads))
unfolding read_head
read_head-found position buffer stream [] e = rw (e, read_head) refl
read_head-found position buffer stream (r ∷ reads) e = rw (e, read_head) refl

read_head-more :
    (buffer stream : Bytes) (n : ℕ) (reads : Reads)
    → find_subslice buffer separator ≡ none
    → is_empty (chunk 8192 n stream) ≡ false
    → read_head buffer stream (finished n ∷ reads)
      ≡ read_head (buffer ++ chunk 8192 n stream) (after_chunk 8192 n stream) reads
unfolding read_head
read_head-more buffer stream n reads e h = rw (e, read_head) (rw h refl)

-- The outcome of the loop for the head.
abbrev Receives : ℕ → Bytes → Bytes → Reads → Type 0
Receives position buffer stream reads =
    (got : Received) × (read_head buffer stream reads ≡ some (ok got))
    × IsReceived position (buffer ++ stream) got

Receives-found :
    (position q : ℕ) (buffer stream : Bytes) (reads : Reads)
    → find_subslice (buffer ++ stream) separator ≡ some position
    → find_subslice buffer separator ≡ some q
    → AllPositive reads
    → length stream ≤ length reads
    → Receives position buffer stream reads
Receives-found position q buffer stream reads e found p h =
    let extended = find_subslice-append buffer separator stream q found in
    let same : q ≡ position = cc in
    let here = subst (λ n. find_subslice buffer separator ≡ some n) same found in
    (
      cut position buffer stream reads,
      read_head-found position buffer stream reads here,
      cut-IsReceived position buffer stream reads here p h,
    )

-- The loop for the head ends where the empty line has come, whatever the chunks.
pub read_head-all :
    (position : ℕ) (buffer stream : Bytes) (reads : Reads)
    → find_subslice (buffer ++ stream) separator ≡ some position
    → AllPositive reads
    → length stream ≤ length reads
    → Receives position buffer stream reads
read_head-all position buffer [] reads e p h =
    Receives-found position position buffer [] reads e (rw (← append-nil buffer) e) p h
read_head-all position buffer (c ∷ cs) [] e p h = absurd (omega arith)
read_head-all position buffer (c ∷ cs) (finished n ∷ reads) e p h =
    let k = min n 8192 in
    let s : Bytes = c ∷ cs in
    let next =
      read_head-all position (buffer ++ take k s) (drop k s) reads (rw (moved k buffer s) e) p.1
        (omega (arith, length-drop k s)) in
    elim (Option-cases (find_subslice buffer separator)) [
      | inr (q, found) ↦ Receives-found position q buffer s (finished n ∷ reads) e found p h
      | inl unfound ↦
          let step =
            read_head-more buffer s n reads unfound
              (is_empty-take (min n 8192) s (omega arith) (omega arith)) in
          (
            next.0,
            step ∙ next.1,
            subst (λ all. IsReceived position all next.0) (moved k buffer s) next.2,
          )
    ]
read_head-all position buffer stream (elapsed ∷ reads) e p h = elim p [ ]
read_head-all position buffer stream (failed m ∷ reads) e p h = elim p [ ]

read_body-all :
    (parsed : Head) (got : Received) (body : Bytes)
    → got.buffer ++ got.stream ≡ body
    → AllPositive got.reads
    → length got.stream ≤ length got.reads
    → parsed.content_length ≡ some (length body)
    → parsed.chunked ≡ false
    → read_body parsed got ≡ some (ok body)
unfolding read_body
read_body-all parsed got body e p h len plain =
    let all =
      read_rest-all (length body) got.buffer got.stream got.reads
        (sym (length-append got.buffer got.stream) ∙ ap length e) p h in
    rw (len, plain, read_body) (all ∙ ap (λ (b : Bytes). some (ok b)) e)

read_response-read :
    (config : HttpConfig) (env : RawEnv) (stream head : Bytes) (got : Received) (parsed : Head)
    (r : Result ProxyError Bytes)
    → read_head [] stream env.reads ≡ some (ok got)
    → got.head ≡ head
    → parse_head config head ≡ ok parsed
    → read_body parsed got ≡ some r
    → read_response config env stream ≡ some (build_response env parsed r)
unfolding read_response
read_response-read config env stream head got parsed r e is_head parses bodied =
    let parsed_got : parse_head config got.head ≡ ok parsed =
      ap (parse_head config) is_head ∙ parses in
    rw (e, read_response) (rw (parsed_got, with_received) (rw (bodied, with_head) refl))

-- A backend that answers with a head, an empty line and a body of the length that the head gives: where the first
-- empty line ends the head and every read gives something, the response is that head with exactly that body, in
-- whatever chunks the bytes come. It is given after at most as many reads as there are bytes.
pub read_response-all :
    (config : HttpConfig) (env : RawEnv) (head body : Bytes) (parsed : Head)
    → find_subslice (head ++ (codes "\r\n\r\n" ++ body)) (codes "\r\n\r\n") ≡ some (length head)
    → AllPositive env.reads
    → length (head ++ (codes "\r\n\r\n" ++ body)) ≤ length env.reads
    → parse_head config head ≡ ok parsed
    → parsed.content_length ≡ some (length body)
    → parsed.chunked ≡ false
    → read_response config env (head ++ (codes "\r\n\r\n" ++ body))
      ≡ some (build_response env parsed (ok body))
read_response-all config env head body parsed e p h parses len plain =
    let received = read_head-all (length head) [] (head ++ (separator ++ body)) env.reads e p h in
    let got = received.0 in
    let is_head : got.head ≡ head = received.2.0 ∙ take-length-append head (separator ++ body) in
    let is_body : got.buffer ++ got.stream ≡ body =
      received.2.1 ∙ drop-length-append 4 head (separator ++ body) in
    let bodied = read_body-all parsed got body is_body received.2.2 received.2.3 len plain in
    read_response-read config env (head ++ (separator ++ body)) head got parsed (ok body) received.1
      is_head parses bodied
