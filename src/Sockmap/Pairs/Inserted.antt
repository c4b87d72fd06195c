-- ===== src/Sockmap/Pairs/Inserted.antt =====
-- Inserting a pair and removing it again.
use protocol_proxy.Sockmap.Pairs.{
  BpfApi, IsBpf, Names, Inner, build_tuple_key, insert_pair, remove_pair,
}
use protocol_proxy.Prelude.{
  nat_eq, none, some, true, if◌then◌else◌, ◌==◌, ◌||◌, Option, ◌≡◌, ℕ, lookup, inl, inr,
  Option-cases, arith, insert, lookup-insert, lookup-remove,
}

module _ (B : BpfApi) (laws : IsBpf B) where
  -- What a table of an object holds; an object without the table holds nothing.
  abbrev pub peer_of : ℕ → Inner B.Map → Option ℕ
  peer_of k inner = elim inner.peers [ none ↦ none | some m ↦ B.get k m ]

  -- What a successful insertion did.
  pub record IsInserted (accept_fd backend_fd self_key peer_key : ℕ) (inner inner' : Inner B.Map)
      : Type 0 where
    pub before : B.Map
    pub between : B.Map
    pub after : B.Map
    pub held : inner.peers ≡ some before
    pub first : B.update self_key backend_fd before ≡ some between
    pub second : B.update peer_key accept_fd between ≡ some after
    pub peers : inner'.peers ≡ some after
    pub pairs : inner'.allocated_pairs ≡ insert accept_fd (self_key, peer_key) inner.allocated_pairs

  pub insert_pair-IsInserted :
      (names : Names) (accept_fd backend_fd self_key peer_key : ℕ) (inner inner' : Inner B.Map)
      → build_tuple_key names accept_fd ≡ some self_key
      → build_tuple_key names backend_fd ≡ some peer_key
      → insert_pair B names accept_fd backend_fd inner ≡ (true, inner')
      → IsInserted accept_fd backend_fd self_key peer_key inner inner'
  unfolding insert_pair
  insert_pair-IsInserted names a b self peer inner inner' ks kp e =
      elim (Option-cases inner.peers) [
        | inl missing ↦ absurd (ground arith)
        | inr (m, held) ↦ elim (Option-cases (B.update self b m)) [
          | inl failed ↦ absurd (ground arith)
          | inr (m', first) ↦ elim (Option-cases (B.update peer a m')) [
            | inl failed ↦ absurd (ground arith)
            | inr (m'', second) ↦ record {
              before = m;
              between = m';
              after = m'';
              held = held;
              first = first;
              second = second;
              peers = ground arith;
              pairs = ground arith;
            }
          ]
        ]
      ]

  removed :
      (a b self peer k : ℕ) (inner inner' : Inner B.Map)
      → IsInserted a b self peer inner inner'
      → (peer_of k inner'
          ≡ (if peer == k then some a else if self == k then some b else peer_of k inner))
        × (peer_of k (remove_pair B a inner')
            ≡ (if peer == k || self == k then none else peer_of k inner))
        × (lookup a (remove_pair B a inner').allocated_pairs ≡ none)
  unfolding remove_pair
  removed a b self peer k inner inner' i =
      let written = laws.get-update self k b i.before i.between i.first in
      let written' = laws.get-update peer k a i.between i.after i.second in
      let deleted = laws.get-delete self k i.after in
      let deleted' = laws.get-delete peer k (B.delete self i.after) in
      let listed = lookup-insert a a (self, peer) inner.allocated_pairs in
      let unlisted = lookup-remove a a inner'.allocated_pairs in
      (
        ground (arith, i.held, i.peers),
        ground (arith, i.held, i.peers, i.pairs),
        ground (arith, i.pairs),
      )

  -- A pair that was inserted maps the key of either socket to the descriptor of the other, the peer's
  -- key coming last; no other key changes, and removing the pair takes both keys out and changes no other.
  pub insert_pair-remove_pair :
      (names : Names) (accept_fd backend_fd self_key peer_key k : ℕ) (inner inner' : Inner B.Map)
      → build_tuple_key names accept_fd ≡ some self_key
      → build_tuple_key names backend_fd ≡ some peer_key
      → insert_pair B names accept_fd backend_fd inner ≡ (true, inner')
      → (peer_of k inner' ≡ (
          if peer_key == k
          then some accept_fd
          else if self_key == k
          then some backend_fd
          else peer_of k inner))
        × (peer_of k (remove_pair B accept_fd inner')
            ≡ (if peer_key == k || self_key == k then none else peer_of k inner))
        × (lookup accept_fd (remove_pair B accept_fd inner').allocated_pairs ≡ none)
  insert_pair-remove_pair names a b self peer k inner inner' ks kp e =
      let i = insert_pair-IsInserted names a b self peer inner inner' ks kp e in
      removed a b self peer k inner inner' i
