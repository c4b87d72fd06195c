-- ===== src/Sockmap/Tuple.antt =====
-- `tuple_key` of rust/crates/utopia-proxy/src/sockmap/tuple.rs, in arithmetic of 64 bits.
pub mod Fields
use protocol_proxy.Prelude.{ℕ, ◌+◌, ◌*◌, ◌^◌, ◌%◌}
use Prim.Native.Nat.{bit_and, bit_or}

-- `u16::from_le_bytes` and `u32::from_le_bytes`.
abbrev pub from_le_u16 : ℕ → ℕ → ℕ
from_le_u16 b0 b1 = b0 + b1 * 256

abbrev pub from_le_u32 : ℕ → ℕ → ℕ → ℕ → ℕ
from_le_u32 b0 b1 b2 b3 = b0 + b1 * 256 + b2 * 65536 + b3 * 16777216

-- `<<` on 64 bits.
abbrev pub shl_u64 : ℕ → ℕ → ℕ
shl_u64 x n = x * 2 ^ n % 2 ^ 64

-- The two bytes of the remote port and the four of the remote address, in network order.
pub record Remote : Type 0 where
  pub p0 : ℕ
  pub p1 : ℕ
  pub i0 : ℕ
  pub i1 : ℕ
  pub i2 : ℕ
  pub i3 : ℕ

unfoldable pub tuple_key : ℕ → Remote → ℕ
tuple_key local_port r =
    let rport_le = from_le_u16 r.p0 r.p1 in
    let rip_le = from_le_u32 r.i0 r.i1 r.i2 r.i3 in
    let k = bit_and local_port 0xffff in
    let k = bit_or (shl_u64 k 16) (bit_and rport_le 0xffff) in bit_or (shl_u64 k 32) rip_le
