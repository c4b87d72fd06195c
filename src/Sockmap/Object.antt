-- ===== src/Sockmap/Object.antt =====
-- `Inner::load` of rust/crates/utopia-proxy/src/sockmap/linux.rs: the BPF object, its table and its program. What
-- libbpf reads of a file and the attaching by the kernel are arguments.
pub mod Loaded
use protocol_proxy.Sockmap.Pairs.{Inner}
use protocol_proxy.Prelude.{
  ◌>>=◌, bytes_eq, [], some, ok, err, if◌then◌else◌, codes, ◌++◌, Bytes, ℕ, Option, Result, List,
  Bool, ◌%◌, lookup, ◌^◌, not, map_err, ok_or,
}

-- A loaded object: its tables by name, each with its descriptor, and the descriptors of its programs by name.
pub record Object (M : Type 0) : Type 0 where
  pub maps : List (Bytes × (ℕ × M))
  pub progs : List (Bytes × ℕ)

-- The argument of the system call.
pub record BpfProgAttachAttr : Type 0 where
  pub target_fd : ℕ
  pub attach_bpf_fd : ℕ
  pub attach_type : ℕ
  pub attach_flags : ℕ

pub record ObjectEnv (M : Type 0) : Type 0 where
  pub is_file : Bytes → Bool
  pub open_file : Bytes → Result Bytes (Unit {0})
  pub load_object : Bytes → Result Bytes (Object M)
  pub prog_attach : BpfProgAttachAttr → Result Bytes (Unit {0})

abbrev bpf_sk_skb_stream_verdict : ℕ
bpf_sk_skb_stream_verdict = 5

-- `as u32` keeps the lower 32 bits.
unfoldable pub attach_attr : ℕ → ℕ → BpfProgAttachAttr
attach_attr peers_fd prog_fd = record {
  target_fd = peers_fd % 2 ^ 32;
  attach_bpf_fd = prog_fd % 2 ^ 32;
  attach_type = bpf_sk_skb_stream_verdict;
  attach_flags = 0;
}

abbrev prefixed : Bytes → Bytes → Bytes
prefixed what e = what ++ e

module _ {M : Type 0} where
  unfoldable pub find_map : Object M → Bytes → Option (ℕ × M)
  unfolding lookup
  find_map object name = lookup name object.maps

  unfoldable pub find_prog_fd : Object M → Bytes → Option ℕ
  unfolding lookup
  find_prog_fd object name = lookup name object.progs

  unfoldable pub load_inner : ObjectEnv M → Bytes → Result Bytes (Inner M)
  unfolding find_map find_prog_fd attach_attr
  load_inner env path =
      if not (env.is_file path) then err (codes "BPF object not found: " ++ path) else do
        _ ← map_err (prefixed (codes "open_file: ")) (env.open_file path)
        object ← map_err (prefixed (codes "load: ")) (env.load_object path)
        (peers_fd, table) ← ok_or (find_map object (codes "peers")) (codes "map 'peers' not found")
        prog_fd ← ok_or (find_prog_fd object (codes "relay")) (codes "program 'relay' not found")
        _ ←
            map_err (prefixed (codes "bpf_prog_attach failed: "))
              (env.prog_attach (attach_attr peers_fd prog_fd))
        ok (record { peers = some table; allocated_pairs = [] })
