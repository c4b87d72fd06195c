-- ===== src/Sockmap/Pairs/Dropped.antt =====
-- What dropping the loader leaves of the kernel's table.
use protocol_proxy.Sockmap.Pairs.Owned.{IsOwned, Reach, Reach-IsOwned, remove_pair-IsOwned}
use protocol_proxy.Sockmap.Pairs.{BpfApi, IsBpf, Inner, remove_pair, remove_all, drop_inner}
use protocol_proxy.Sockmap.Pairs.Inserted.{peer_of}
use protocol_proxy.Prelude.{
  nat_eq, none, some, inl, inr, Option-cases, arith, ◌≡◌, ℕ, lookup, lookup-remove, [], ◌∷◌, true,
  false, refl, if◌then◌else◌, ◌==◌, ◌||◌, Bool, List, ==_iff, map,
}

module _ (B : BpfApi) (laws : IsBpf B) where
  abbrev member : ℕ → List ℕ → Bool
  member x [] = false
  member x (y ∷ ys) = y == x || member x ys

  remove_pair-lookup :
      (fd j : ℕ) (inner : Inner B.Map)
      → lookup j (remove_pair B fd inner).allocated_pairs
        ≡ (if fd == j then none else lookup j inner.allocated_pairs)
  unfolding remove_pair
  remove_pair-lookup fd j inner =
      ground (arith, lookup-remove fd j inner.allocated_pairs, ==_iff fd j)

  remove_all-lookup :
      (fds : List ℕ) (j : ℕ) (inner : Inner B.Map)
      → lookup j (remove_all B fds inner).allocated_pairs
        ≡ (if member j fds then none else lookup j inner.allocated_pairs)
  unfolding remove_all
  remove_all-lookup [] j inner = refl
  remove_all-lookup (fd ∷ fds) j inner =
      ground
        (arith, remove_all-lookup fds j (remove_pair B fd inner), remove_pair-lookup fd j inner)

  remove_all-IsOwned :
      (fds : List ℕ) (inner : Inner B.Map)
      → IsOwned B laws inner
      → IsOwned B laws (remove_all B fds inner)
  unfolding remove_all
  remove_all-IsOwned [] inner h = h
  remove_all-IsOwned (fd ∷ fds) inner h =
      remove_all-IsOwned fds (remove_pair B fd inner) (remove_pair-IsOwned B laws fd inner h)

  member-keys :
      (j : ℕ) (m : List (ℕ × (ℕ × ℕ))) (keys : ℕ × ℕ)
      → lookup j m ≡ some keys
      → member j (map (λ p. p.0) m) ≡ true
  unfolding lookup
  member-keys j [] keys e = cc
  member-keys j ((i, w) ∷ m) keys e = ground (arith, member-keys j m keys)

  drop_inner-lookup :
      (j : ℕ) (inner : Inner B.Map) → lookup j (drop_inner B inner).allocated_pairs ≡ none
  unfolding drop_inner
  drop_inner-lookup j inner =
      let fds = map (λ (p : ℕ × (ℕ × ℕ)). p.0) inner.allocated_pairs in
      elim (Option-cases (lookup j inner.allocated_pairs)) [
        | inl missing ↦ ground (arith, remove_all-lookup fds j inner)
        | inr (keys, found) ↦
            ground
              (arith, remove_all-lookup fds j inner, member-keys j inner.allocated_pairs keys found)
      ]

  drop_inner-IsOwned :
      (inner : Inner B.Map) → IsOwned B laws inner → IsOwned B laws (drop_inner B inner)
  unfolding drop_inner
  drop_inner-IsOwned inner h = remove_all-IsOwned (map (λ p. p.0) inner.allocated_pairs) inner h

  -- From an empty table, after any insertions under descriptors that have no pair yet and any removals,
  -- dropping the loader takes every key out of the kernel's table.
  pub drop_inner-empty :
      (inner : Inner B.Map) (k : ℕ)
      → Reach B laws inner
      → peer_of B laws k (drop_inner B inner) ≡ none
  drop_inner-empty inner k r = elim (Option-cases (peer_of B laws k (drop_inner B inner))) [
    | inl gone ↦ gone
    | inr (v, held) ↦
        let o = drop_inner-IsOwned inner (Reach-IsOwned B laws r) k v held in
        cc (o.listed, drop_inner-lookup o.fd inner)
  ]
