-- ===== src/TcpServer/Tasks/Crossed.antt =====
-- What comes of the time between the drop of a client's stream and the removal of its entries.
use protocol_proxy.TcpServer.Session.{Worker, bidirectional_copy, copied}
use protocol_proxy.Adapter.Tcp.Tables.{close_connection_lem}
use protocol_proxy.Sockmap.Pairs.{BpfApi}
use protocol_proxy.Adapter.Tcp.{TcpClient}
use protocol_proxy.Net.{IpAddr}
use protocol_proxy.Adapter.Route.{CacheEntry}
use protocol_proxy.External.{CacheApi, MapApi, IsMap}
use protocol_proxy.TcpServer.Tasks.{
  absent, reading, ended, serving, open_stream, update, Tasks, finds, finishes, closes, System,
  accepts, Step, NotOpen, closed,
}
use protocol_proxy.TcpServer.Tasks.Owned.{update_self, update_other, after, stepped}
use protocol_proxy.Prelude.{
  nat_eq, false, none, some, inr, Bool-cases, arith, ◌==◌, Bytes, ◌≡◌, sym, ◌∙◌, ap, ℕ, ◌≢◌, inl,
  ==_iff,
}

-- The stream that was dropped leaves its descriptor.
dropped :
    (tasks : Tasks) (i fd : ℕ)
    → ((k : ℕ) → i ≢ k → open_stream (tasks k) ≢ some fd)
    → NotOpen fd (update tasks i (ended fd))
dropped tasks i fd alone k e = elim (Bool-cases (i == k)) [
  | inl same ↦ let nothing : open_stream (ended fd) ≡ some fd = rw same at e in cc
  | inr other ↦ alone k (λ same. ground (arith, ==_iff i k)) (rw other at e)
]

module _ (C : CacheApi Bytes CacheEntry) (D : CacheApi Bytes IpAddr) (T : MapApi ℕ TcpClient)
    (P : MapApi ℕ ℕ) (B : BpfApi) (map_laws : IsMap ℕ TcpClient T) (pair_laws : IsMap ℕ ℕ P) where
  -- A client ends and its stream is dropped; a client accepted next has its descriptor; that one has the backend; and
  -- the first one's entries are removed.
  abbrev pub ended_at : System C D T P B → ℕ → ℕ → System C D T P B
  ended_at s i fd = after C D T P B s i s.worker (ended fd)

  abbrev pub reused_at : System C D T P B → ℕ → ℕ → ℕ → System C D T P B
  reused_at s i j fd = after C D T P B (ended_at s i fd) j s.worker (reading fd)

  abbrev pub given_at : System C D T P B → ℕ → ℕ → ℕ → TcpClient → System C D T P B
  given_at s i j fd client = after C D T P B (reused_at s i j fd) j s.worker (serving fd client)

  abbrev pub removed_at : System C D T P B → ℕ → ℕ → ℕ → TcpClient → System C D T P B
  removed_at s i j fd client =
      after C D T P B (given_at s i j fd client) i (closed C D T P B fd s.worker) absent

  copied-gone :
      (fd : ℕ) (client : TcpClient) (w : Worker C D T P B)
      → T.get fd w.adapter.connections ≡ none
      → bidirectional_copy C D T P B false fd client w ≡ copied
  unfolding bidirectional_copy
  copied-gone fd client w gone = ground (arith, gone)

  -- While the system may give a closed stream's descriptor again: where a client has a backend that the adapter keeps,
  -- and no other open stream has its descriptor, these four steps are possible one after another. The client ends; a
  -- client is accepted with its descriptor; that one goes from reading to having the first one's backend, the tables
  -- being as before, so nothing is routed or dialed; and the end of the first one removes the entry of the second, which
  -- still has the backend and would, if no other connection holds it, copy its bytes by `copy_bidirectional`.
  pub Step-crossed :
      (s : System C D T P B) (i j fd : ℕ) (client : TcpClient)
      → s.tasks i ≡ serving fd client
      → T.get fd s.worker.adapter.connections ≡ some client
      → s.tasks j ≡ absent
      → ((k : ℕ) → i ≢ k → open_stream (s.tasks k) ≢ some fd)
      → Step C D T P B NotOpen s (ended_at s i fd)
        × Step C D T P B NotOpen (ended_at s i fd) (reused_at s i j fd)
        × Step C D T P B NotOpen (reused_at s i j fd) (given_at s i j fd client)
        × Step C D T P B NotOpen (given_at s i j fd client) (removed_at s i j fd client)
        × ((removed_at s i j fd client).tasks j ≡ serving fd client)
        × (T.get fd (removed_at s i j fd client).worker.adapter.connections ≡ none)
        × (bidirectional_copy C D T P B false fd client (removed_at s i j fd client).worker
            ≡ copied)
  Step-crossed s i j fd client e held slot alone =
      let apart : i ≢ j = λ same. ground (arith, e, slot, ap s.tasks same) in
      let apart' : j ≢ i = λ same. apart (sym same) in
      let slot1 : (ended_at s i fd).tasks j ≡ absent =
        update_other s.tasks i j (ended fd) apart ∙ slot in
      let s2 = reused_at s i j fd in
      let s3 = given_at s i j fd client in
      let still : s3.tasks i ≡ ended fd =
        update_other s2.tasks j i (serving fd client) apart'
        ∙ (update_other (ended_at s i fd).tasks j i (reading fd) apart'
            ∙ update_self s.tasks i (ended fd)) in
      let removed =
        close_connection_lem C D T P B map_laws pair_laws fd fd s.worker.adapter s.worker.loader in
      let gone : T.get fd (closed C D T P B fd s.worker).adapter.connections ≡ none =
        ground (arith, removed.0, ==_iff fd fd) in
      (
        stepped C D T P B NotOpen i e finishes,
        accepts j fd slot1 (dropped s.tasks i fd alone),
        stepped C D T P B NotOpen j (update_self (ended_at s i fd).tasks j (reading fd))
            (finds held),
        stepped C D T P B NotOpen i still closes,
        update_other s3.tasks i j absent apart ∙ update_self s2.tasks j (serving fd client),
        gone,
        copied-gone fd client (removed_at s i j fd client).worker gone,
      )
