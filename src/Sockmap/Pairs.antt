-- ===== src/Sockmap/Pairs.antt =====
-- rust/crates/utopia-proxy/src/sockmap/mod.rs and linux.rs: the loader's state and the pairs of sockets.
-- The kernel's table is `libbpf`'s and the addresses of a socket are the system's: both are arguments.
-- A descriptor is a natural number, as the kernel gives them.
pub mod Inserted
pub mod Owned
pub mod Dropped
use protocol_proxy.Sockmap.Tuple.{Remote, tuple_key}
use protocol_proxy.Prelude.{
  nat_eq, [], ◌∷◌, none, some, true, false, if◌then◌else◌, ◌==◌, Option, List, ◌≡◌, Bool, ℕ, map,
  ◌*◌, insert, lookup, ◌+◌, remove,
}

-- The table `peers`: `update` fails with `none`; deleting what is absent changes nothing.
pub record BpfApi : Type 1 where
  pub Map : Type 0
  pub get : ℕ → Map → Option ℕ
  pub update : ℕ → ℕ → Map → Option Map
  pub delete : ℕ → Map → Map

pub record IsBpf (b : BpfApi) : Type 0 where
  pub get-update :
      (k j v : ℕ) (m m' : b.Map)
      → b.update k v m ≡ some m'
      → b.get j m' ≡ (if k == j then some v else b.get j m)
  pub get-delete :
      (k j : ℕ) (m : b.Map) → b.get j (b.delete k m) ≡ (if k == j then none else b.get j m)

-- `getsockname` and `getpeername`: bytes 2 to 7 of the address, or a failure.
pub record Names : Type 0 where
  pub sockname : ℕ → Option Remote
  pub peername : ℕ → Option Remote

-- `u16::from_be_bytes`.
abbrev from_be_u16 : ℕ → ℕ → ℕ
from_be_u16 b0 b1 = b0 * 256 + b1

unfoldable pub build_tuple_key : Names → ℕ → Option ℕ
build_tuple_key names fd = elim (names.sockname fd) [
  | none ↦ none
  | some local ↦ elim (names.peername fd) [
    | none ↦ none
    | some peer ↦
        let local_port = from_be_u16 local.p0 local.p1 in
        if local_port == 0 then none else some (tuple_key local_port peer)
  ]
]

-- `Inner`: the table, if the object has it, and the keys of each accepted socket's pair.
pub record Inner (M : Type 0) : Type 0 where
  pub peers : Option M
  pub allocated_pairs : List (ℕ × (ℕ × ℕ))

module _ (B : BpfApi) where
  -- Both writes, with the first undone where the second fails.
  write_pair : (self_key peer_key accept_fd backend_fd : ℕ) → B.Map → Bool × B.Map
  write_pair self_key peer_key accept_fd backend_fd m = elim (B.update self_key backend_fd m) [
    | none ↦ (false, m)
    | some m' ↦ elim (B.update peer_key accept_fd m') [
      | none ↦ (false, B.delete self_key m')
      | some m'' ↦ (true, m'')
    ]
  ]

  abbrev record_pair : ℕ → ℕ → ℕ → Inner B.Map → Bool × B.Map → Bool × Inner B.Map
  record_pair accept_fd self_key peer_key inner (true, m) = (
    true,
    record inner {
      peers = some m;
      allocated_pairs = insert accept_fd (self_key, peer_key) inner.allocated_pairs;
    },
  )
  record_pair accept_fd self_key peer_key inner (false, m) =
      (false, record inner { peers = some m })

  unfoldable pub insert_pair : Names → ℕ → ℕ → Inner B.Map → Bool × Inner B.Map
  unfolding write_pair
  insert_pair names accept_fd backend_fd inner = elim (build_tuple_key names accept_fd) [
    | none ↦ (false, inner)
    | some self_key ↦ elim (build_tuple_key names backend_fd) [
      | none ↦ (false, inner)
      | some peer_key ↦ elim inner.peers [
        | none ↦ (false, inner)
        | some m ↦
            record_pair accept_fd self_key peer_key inner
              (write_pair self_key peer_key accept_fd backend_fd m)
      ]
    ]
  ]

  delete_both : ℕ × ℕ → Option B.Map → Option B.Map
  delete_both keys none = none
  delete_both keys (some m) = some (B.delete keys.1 (B.delete keys.0 m))

  unfoldable pub remove_pair : ℕ → Inner B.Map → Inner B.Map
  unfolding delete_both
  remove_pair accept_fd inner = elim (lookup accept_fd inner.allocated_pairs) [
    | none ↦ inner
    | some keys ↦ record {
      peers = delete_both keys inner.peers;
      allocated_pairs = remove accept_fd inner.allocated_pairs;
    }
  ]

  remove_all : List ℕ → Inner B.Map → Inner B.Map
  remove_all [] inner = inner
  remove_all (fd ∷ fds) inner = remove_all fds (remove_pair fd inner)

  -- `Drop for Inner`.
  unfoldable pub drop_inner : Inner B.Map → Inner B.Map
  unfolding remove_all
  drop_inner inner = remove_all (map (λ p. p.0) inner.allocated_pairs) inner
