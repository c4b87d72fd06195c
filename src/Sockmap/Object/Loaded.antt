-- ===== src/Sockmap/Object/Loaded.antt =====
-- What a loaded BPF object is.
use protocol_proxy.Sockmap.Pairs.Owned.{Reach, loaded}
use protocol_proxy.Sockmap.Pairs.{BpfApi, IsBpf, Inner}
use protocol_proxy.Sockmap.Object.{
  Object, ObjectEnv, attach_attr, find_map, find_prog_fd, load_inner,
}
use protocol_proxy.Prelude.{
  none, some, ok, codes, ◌≡◌, Bytes, ℕ, [], inl, inr, Bool-cases, Option-cases, Result-cases, arith,
  sym, subst, ap,
}

-- The relay program is attached to the table that the loader writes.
pub record IsAttached {M : Type 0} (env : ObjectEnv M) (path : Bytes) (table : M) : Type 0 where
  pub object : Object M
  pub peers_fd : ℕ
  pub prog_fd : ℕ
  pub read_of : env.load_object path ≡ ok object
  pub peers_of : find_map object (codes "peers") ≡ some (peers_fd, table)
  pub prog_of : find_prog_fd object (codes "relay") ≡ some prog_fd
  pub attached : env.prog_attach (attach_attr peers_fd prog_fd) ≡ ok tt

module _ (B : BpfApi) (laws : IsBpf B) where
  load_inner-IsAttached :
      (env : ObjectEnv B.Map) (path : Bytes) (inner : Inner B.Map)
      → load_inner env path ≡ ok inner
      → (table : B.Map) × (record { peers = some table; allocated_pairs = [] } ≡ inner)
        × IsAttached env path table
  unfolding load_inner
  load_inner-IsAttached env path inner e = elim (Bool-cases (env.is_file path)) [
    | inr missing ↦ absurd (ground (arith, missing))
    | inl file ↦ elim (Result-cases (env.open_file path)) [
      | inl (x, failed) ↦ absurd (ground (arith, file, failed))
      | inr (u, opened) ↦ elim (Result-cases (env.load_object path)) [
        | inl (x, failed) ↦ absurd (ground (arith, file, opened, failed))
        | inr (object, read) ↦ elim (Option-cases (find_map object (codes "peers"))) [
          | inl missing ↦ absurd (ground (arith, file, opened, read, missing))
          | inr ((peers_fd, table), peers) ↦
              elim (Option-cases (find_prog_fd object (codes "relay"))) [
                | inl missing ↦ absurd (ground (arith, file, opened, read, peers, missing))
                | inr (prog_fd, prog) ↦
                    elim (Result-cases (env.prog_attach (attach_attr peers_fd prog_fd))) [
                      | inl (x, failed) ↦
                          absurd (ground (arith, file, opened, read, peers, prog, failed))
                      | inr (done, attached) ↦ (
                        table,
                        ground (arith, file, opened, read, peers, prog, attached),
                        record {
                          object = object;
                          peers_fd = peers_fd;
                          prog_fd = prog_fd;
                          read_of = read;
                          peers_of = peers;
                          prog_of = prog;
                          attached = attached;
                        },
                      )
                    ]
              ]
        ]
      ]
    ]
  ]

  -- Where the tables of the loaded object are empty: a loader that loads has the object's table `peers`, to which the
  -- object's program `relay` is attached, and starts with that empty table and no pairs.
  load_inner-Reach :
      (env : ObjectEnv B.Map) (path : Bytes) (inner : Inner B.Map)
      → ((object : Object B.Map) (name : Bytes) (fd : ℕ) (table : B.Map) (k : ℕ)
          → env.load_object path ≡ ok object
          → find_map object name ≡ some (fd, table)
          → B.get k table ≡ none)
      → load_inner env path ≡ ok inner
      → Reach B laws inner
        × ((table : B.Map) × (inner.peers ≡ some table) × IsAttached env path table)
  load_inner-Reach env path inner empty e =
      let (table, same, a) = load_inner-IsAttached env path inner e in
      (
        subst (Reach B laws) same (
            loaded table
              (λ k. empty a.object (codes "peers") a.peers_fd table k a.read_of a.peers_of)),
        (table, ap (λ (i : Inner B.Map). i.peers) (sym same), a),
      )
