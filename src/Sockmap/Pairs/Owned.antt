-- ===== src/Sockmap/Pairs/Owned.antt =====
-- The kernel's table holds no key but those of the recorded pairs, so that the loader can empty it.
use protocol_proxy.Sockmap.Pairs.{
  BpfApi, IsBpf, Names, Inner, build_tuple_key, insert_pair, remove_pair, delete_both,
}
use protocol_proxy.Sockmap.Pairs.Inserted.{peer_of, IsInserted, insert_pair-IsInserted}
use protocol_proxy.Prelude.{
  nat_eq, none, some, inl, inr, Option-cases, arith, ◌≡◌, ◌⊎◌, ℕ, lookup, remove, ◌≢◌,
  lookup-remove, [], true, false, Bool-cases, ◌==◌, sym, lookup-insert, ==_iff,
}

module _ (B : BpfApi) (laws : IsBpf B) where
  -- A recorded pair that has the key.
  pub record Owner (k : ℕ) (inner : Inner B.Map) : Type 0 where
    pub fd : ℕ
    pub keys : ℕ × ℕ
    pub listed : lookup fd inner.allocated_pairs ≡ some keys
    pub which : (k ≡ keys.0) ⊎ (k ≡ keys.1)

  abbrev pub IsOwned : Inner B.Map → Type 0
  IsOwned inner = (k v : ℕ) → peer_of B laws k inner ≡ some v → Owner k inner

  abbrev removed : ℕ → ℕ × ℕ → Inner B.Map → Inner B.Map
  removed fd keys inner = record {
    peers = delete_both B keys inner.peers;
    allocated_pairs = remove fd inner.allocated_pairs;
  }

  removed-peer :
      (fd : ℕ) (keys : ℕ × ℕ) (inner : Inner B.Map) (k v : ℕ)
      → peer_of B laws k (removed fd keys inner) ≡ some v
      → (k ≢ keys.0) × (k ≢ keys.1) × (peer_of B laws k inner ≡ some v)
  unfolding delete_both
  removed-peer fd keys inner k v e = elim (Option-cases inner.peers) [
    | inl missing ↦ absurd (ground arith)
    | inr (m, held) ↦
        let deleted = laws.get-delete keys.0 k m in
        let deleted' = laws.get-delete keys.1 k (B.delete keys.0 m) in
        (ground arith, ground arith, ground arith)
  ]

  removed-IsOwned :
      (fd : ℕ) (keys : ℕ × ℕ) (inner : Inner B.Map)
      → lookup fd inner.allocated_pairs ≡ some keys
      → IsOwned inner
      → IsOwned (removed fd keys inner)
  removed-IsOwned fd keys inner found h k v e =
      let (ne, ne', was) = removed-peer fd keys inner k v e in
      let o = h k v was in
      record {
        fd = o.fd;
        keys = o.keys;
        listed = ground (arith, o.listed, o.which, lookup-remove fd o.fd inner.allocated_pairs);
        which = o.which;
      }

  pub remove_pair-IsOwned :
      (fd : ℕ) (inner : Inner B.Map) → IsOwned inner → IsOwned (remove_pair B fd inner)
  unfolding remove_pair
  remove_pair-IsOwned fd inner h = elim (Option-cases (lookup fd inner.allocated_pairs)) [
    | inl missing ↦ rw (missing, remove_pair) h
    | inr (keys, found) ↦ rw (found, remove_pair) (removed-IsOwned fd keys inner found h)
  ]

  inserted-IsOwned :
      (a b self peer : ℕ) (inner inner' : Inner B.Map)
      → IsInserted B laws a b self peer inner inner'
      → lookup a inner.allocated_pairs ≡ none
      → IsOwned inner
      → IsOwned inner'
  inserted-IsOwned a b self peer inner inner' i fresh h k v e =
      let written = laws.get-update self k b i.before i.between i.first in
      let written' = laws.get-update peer k a i.between i.after i.second in
      elim (Bool-cases (peer == k)) [
        | inl hit ↦ record {
          fd = a;
          keys = (self, peer);
          listed = ground (arith, i.pairs, lookup-insert a a (self, peer) inner.allocated_pairs);
          which = inr (sym ((==_iff peer k).0 hit));
        }
        | inr miss ↦ elim (Bool-cases (self == k)) [
          | inl hit ↦ record {
            fd = a;
            keys = (self, peer);
            listed = ground (arith, i.pairs, lookup-insert a a (self, peer) inner.allocated_pairs);
            which = inl (sym ((==_iff self k).0 hit));
          }
          | inr miss' ↦
              let was : peer_of B laws k inner ≡ some v = ground (arith, i.held, i.peers) in
              let o = h k v was in
              record {
                fd = o.fd;
                keys = o.keys;
                listed = ground (
                  arith,
                  i.pairs,
                  o.listed,
                  lookup-insert a o.fd (self, peer) inner.allocated_pairs,
                );
                which = o.which;
              }
        ]
      ]

  -- A failed insertion leaves the records, and at most takes a key out.
  insert_pair-failed :
      (names : Names) (a b k v : ℕ) (inner inner' : Inner B.Map)
      → insert_pair B names a b inner ≡ (false, inner')
      → peer_of B laws k inner' ≡ some v
      → (inner'.allocated_pairs ≡ inner.allocated_pairs) × (peer_of B laws k inner ≡ some v)
  unfolding insert_pair
  insert_pair-failed names a b k v inner inner' e f =
      elim (Option-cases (build_tuple_key names a)) [
        | inl missing ↦ ground arith
        | inr (self, ks) ↦ elim (Option-cases (build_tuple_key names b)) [
          | inl missing ↦ ground arith
          | inr (peer, kp) ↦ elim (Option-cases inner.peers) [
            | inl missing ↦ ground arith
            | inr (m, held) ↦ elim (Option-cases (B.update self b m)) [
              | inl failed ↦ ground arith
              | inr (m', first) ↦
                  let written = laws.get-update self k b m m' first in
                  let deleted = laws.get-delete self k m' in ground arith
            ]
          ]
        ]
      ]

  -- What calls of the loader make of a table that was empty when it was loaded. A socket is given to it
  -- again only after it was taken back.
  pub data Reach : Inner B.Map → Type 0 where
    loaded :
        (m : B.Map)
        → ((k : ℕ) → B.get k m ≡ none)
        → Reach (record { peers = some m; allocated_pairs = [] })
    inserts :
        {inner : Inner B.Map} (names : Names) (a b : ℕ)
        → Reach inner
        → lookup a inner.allocated_pairs ≡ none
        → Reach (insert_pair B names a b inner).1
    removes : {inner : Inner B.Map} (a : ℕ) → Reach inner → Reach (remove_pair B a inner)

  insert_pair-keys :
      (names : Names) (a b : ℕ) (inner : Inner B.Map)
      → (insert_pair B names a b inner).0 ≡ true
      → (self : ℕ) × (peer : ℕ) × (build_tuple_key names a ≡ some self)
        × (build_tuple_key names b ≡ some peer)
  unfolding insert_pair
  insert_pair-keys names a b inner e = elim (Option-cases (build_tuple_key names a)) [
    | inl missing ↦ absurd (ground arith)
    | inr (self, ks) ↦ elim (Option-cases (build_tuple_key names b)) [
      | inl missing ↦ absurd (ground arith)
      | inr (peer, kp) ↦ (self, peer, ks, kp)
    ]
  ]

  insert_pair-IsOwned :
      (names : Names) (a b : ℕ) (inner : Inner B.Map)
      → lookup a inner.allocated_pairs ≡ none
      → IsOwned inner
      → IsOwned (insert_pair B names a b inner).1
  insert_pair-IsOwned names a b inner fresh h =
      let out = insert_pair B names a b inner in
      elim (Bool-cases out.0) [
        | inr failed ↦ λ k v e.
            let (same, was) = insert_pair-failed names a b k v inner out.1 (ground arith) e in
            let o = h k v was in
            record { fd = o.fd; keys = o.keys; listed = rw same o.listed; which = o.which }
        | inl done ↦
            let (self, peer, ks, kp) = insert_pair-keys names a b inner done in
            inserted-IsOwned a b self peer inner out.1
              (insert_pair-IsInserted B laws names a b self peer inner out.1 ks kp (ground arith))
              fresh h
      ]

  pub Reach-IsOwned : {inner : Inner B.Map} → Reach inner → IsOwned inner
  Reach-IsOwned (loaded m nothing) = λ k v e. cc (nothing k)
  Reach-IsOwned (inserts {inner} names a b r fresh) =
      insert_pair-IsOwned names a b inner fresh (Reach-IsOwned r)
  Reach-IsOwned (removes {inner} a r) = remove_pair-IsOwned a inner (Reach-IsOwned r)
