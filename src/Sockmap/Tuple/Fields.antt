-- ===== src/Sockmap/Tuple/Fields.antt =====
-- The fields of a key.
use Prim.Native.Nat.{bit_or}
use protocol_proxy.Prelude.{arith, ◌≡◌, ◌<◌, ℕ, ◌*◌, ◌^◌, ◌+◌, ◌/◌, ◌%◌}
use protocol_proxy.Bits.{bit_or-add, bit_and_u16}
use protocol_proxy.Sockmap.Tuple.{Remote, from_le_u16, from_le_u32, tuple_key}

pub record IsRemote (r : Remote) : Type 0 where
  pub p0_lt : r.p0 < 256
  pub p1_lt : r.p1 < 256
  pub i0_lt : r.i0 < 256
  pub i1_lt : r.i1 < 256
  pub i2_lt : r.i2 < 256
  pub i3_lt : r.i3 < 256

-- The two bit operations in arithmetic.
tuple_key-sum :
    (port : ℕ) (r : Remote)
    → port < 65536
    → IsRemote r
    → tuple_key port r
      ≡ (port * 2 ^ 16 + from_le_u16 r.p0 r.p1) * 2 ^ 32 + from_le_u32 r.i0 r.i1 r.i2 r.i3
unfolding tuple_key
tuple_key-sum port r h v =
    let rport = from_le_u16 r.p0 r.p1 in
    let rip = from_le_u32 r.i0 r.i1 r.i2 r.i3 in
    let high = port * 65536 + rport in
    let shifted : port * 65536 % 2 ^ 64 ≡ port * 65536 = omega arith in
    let joined : bit_or (port * 65536) rport ≡ high = bit_or-add 16 port rport (omega arith) in
    let shifted_high : high * 4294967296 % 2 ^ 64 ≡ high * 4294967296 = omega arith in
    rw
      (
        bit_and_u16 port h,
        bit_and_u16 rport (omega arith),
        shifted,
        joined,
        shifted_high,
        tuple_key,
      )
      (bit_or-add 32 high rip (omega arith))

-- The layout: bits 48 to 63 are the local port, 32 to 47 the remote port and 0 to 31 the remote address,
-- both read as little-endian numbers of their network bytes; and the key fits 64 bits.
tuple_key_layout :
    (port : ℕ) (r : Remote)
    → port < 65536
    → IsRemote r
    → (tuple_key port r < 2 ^ 64)
      × (tuple_key port r / 2 ^ 48 ≡ port)
      × (tuple_key port r / 2 ^ 32 % 2 ^ 16 ≡ from_le_u16 r.p0 r.p1)
      × (tuple_key port r % 2 ^ 32 ≡ from_le_u32 r.i0 r.i1 r.i2 r.i3)
tuple_key_layout port r h v = omega (arith, tuple_key-sum port r h v)

-- Two connections have one key only if their ports and their remote addresses agree, byte for byte.
pub tuple_key_injective :
    (port port' : ℕ) (r r' : Remote)
    → port < 65536
    → port' < 65536
    → IsRemote r
    → IsRemote r'
    → tuple_key port r ≡ tuple_key port' r'
    → (port ≡ port') × (r ≡ r')
tuple_key_injective port port' r r' h h' v v' e =
    ground (arith, tuple_key-sum port r h v, tuple_key-sum port' r' h' v')
