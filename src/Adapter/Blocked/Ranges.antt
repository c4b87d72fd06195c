-- ===== src/Adapter/Blocked/Ranges.antt =====
-- The refused addresses as CIDR ranges.
use Prim.Native.Nat.{bit_and}
use protocol_proxy.Bits.{mask_ten, mask_seven}
use protocol_proxy.Prelude.{ℕ, ◌+◌, ◌-◌, ◌*◌, ◌/◌, ◌^◌, ◌≡◌, ◌⊎◌, true, ◌==◌, arith, ◌↔◌}
use protocol_proxy.Net.{v4, v6, Ipv4Addr, Ipv6Addr, IsOctets, IpAddr, IsSegments, IsAddress}
use protocol_proxy.Adapter.Blocked.{
  is_blocked_ipv4, is_blocked_ipv6, is_blocked_ip, is_loopback, is_ipv4_mapped,
}

-- The address as a number of 32 or 128 bits.
abbrev pub to_bits_v4 : Ipv4Addr → ℕ
to_bits_v4 ip = ip.a * 2 ^ 24 + ip.b * 2 ^ 16 + ip.c * 2 ^ 8 + ip.d

abbrev pub to_bits_v6 : Ipv6Addr → ℕ
to_bits_v6 ip =
    ip.s0 * 2 ^ 112
    + ip.s1 * 2 ^ 96
    + ip.s2 * 2 ^ 80
    + ip.s3 * 2 ^ 64
    + ip.s4 * 2 ^ 48
    + ip.s5 * 2 ^ 32
    + ip.s6 * 2 ^ 16
    + ip.s7

-- The first `prefix` bits of the address are those of the network.
abbrev pub InRange : (width address network prefix : ℕ) → Type 0
InRange width address network prefix =
    address / 2 ^ (width - prefix) ≡ network / 2 ^ (width - prefix)

-- 10.0.0.0/8, 172.16.0.0/12, 192.168.0.0/16, 127.0.0.0/8, 169.254.0.0/16, 224.0.0.0/4,
-- 240.0.0.0/4 and 0.0.0.0/8.
abbrev pub IsReservedV4 : ℕ → Type 0
IsReservedV4 n =
    InRange 32 n 0x0a00_0000 8
    ⊎ InRange 32 n 0xac10_0000 12
    ⊎ InRange 32 n 0xc0a8_0000 16
    ⊎ InRange 32 n 0x7f00_0000 8
    ⊎ InRange 32 n 0xa9fe_0000 16
    ⊎ InRange 32 n 0xe000_0000 4
    ⊎ InRange 32 n 0xf000_0000 4
    ⊎ InRange 32 n 0 8

-- ::1/128, fe80::/10, fc00::/7 and ::ffff:0:0/96.
abbrev pub IsReservedV6 : ℕ → Type 0
IsReservedV6 n =
    InRange 128 n 1 128
    ⊎ InRange 128 n (0xfe80 * 2 ^ 112) 10
    ⊎ InRange 128 n (0xfc00 * 2 ^ 112) 7
    ⊎ InRange 128 n (0xffff * 2 ^ 32) 96

blocked_v4_sound :
    (ip : Ipv4Addr) → IsOctets ip → is_blocked_ipv4 ip ≡ true → IsReservedV4 (to_bits_v4 ip)
unfolding is_blocked_ipv4
blocked_v4_sound ip v h = ground arith

blocked_v4_complete :
    (ip : Ipv4Addr) → IsOctets ip → IsReservedV4 (to_bits_v4 ip) → is_blocked_ipv4 ip ≡ true
unfolding is_blocked_ipv4
blocked_v4_complete ip v h = ground arith

-- The leading bits of an address.
bits_ten : (ip : Ipv6Addr) → IsSegments ip → to_bits_v6 ip / 2 ^ 118 ≡ ip.s0 / 64
bits_ten ip v = omega arith

bits_seven : (ip : Ipv6Addr) → IsSegments ip → to_bits_v6 ip / 2 ^ 121 ≡ ip.s0 / 512
bits_seven ip v = omega arith

bits_96 :
    (ip : Ipv6Addr)
    → IsSegments ip
    → to_bits_v6 ip / 2 ^ 32
      ≡ ip.s0 * 2 ^ 80 + ip.s1 * 2 ^ 64 + ip.s2 * 2 ^ 48 + ip.s3 * 2 ^ 32 + ip.s4 * 2 ^ 16 + ip.s5
bits_96 ip v = omega arith

loopback_range :
    (ip : Ipv6Addr) → IsSegments ip → (is_loopback ip ≡ true) ↔ InRange 128 (to_bits_v6 ip) 1 128
unfolding is_loopback
loopback_range ip v = (λ h. ground arith, λ h. ground arith)

ten_range :
    (ip : Ipv6Addr)
    → IsSegments ip
    → ((bit_and ip.s0 0xffc0 == 0xfe80) ≡ true) ↔ InRange 128 (to_bits_v6 ip) (0xfe80 * 2 ^ 112) 10
ten_range ip v = rw (bits_ten ip v, mask_ten ip.s0 v.s0_lt) (ground arith)

seven_range :
    (ip : Ipv6Addr)
    → IsSegments ip
    → ((bit_and ip.s0 0xfe00 == 0xfc00) ≡ true) ↔ InRange 128 (to_bits_v6 ip) (0xfc00 * 2 ^ 112) 7
seven_range ip v = rw (bits_seven ip v, mask_seven ip.s0 v.s0_lt) (ground arith)

mapped_range :
    (ip : Ipv6Addr)
    → IsSegments ip
    → (is_ipv4_mapped ip ≡ true) ↔ InRange 128 (to_bits_v6 ip) (0xffff * 2 ^ 32) 96
unfolding is_ipv4_mapped
mapped_range ip v = rw (bits_96 ip v) (λ h. ground arith, λ h. ground arith)

blocked_v6_iff :
    (ip : Ipv6Addr) → IsSegments ip → (is_blocked_ipv6 ip ≡ true) ↔ IsReservedV6 (to_bits_v6 ip)
unfolding is_blocked_ipv6
blocked_v6_iff ip v =
    ground (arith, loopback_range ip v, ten_range ip v, seven_range ip v, mapped_range ip v)

-- An address of a listed range.
abbrev pub IsReserved : IpAddr → Type 0
IsReserved (v4 ip) = IsReservedV4 (to_bits_v4 ip)
IsReserved (v6 ip) = IsReservedV6 (to_bits_v6 ip)

-- The tests on octets and segments refuse an address exactly when it lies in a listed range.
pub is_blocked_ip_iff : (ip : IpAddr) → IsAddress ip → (is_blocked_ip ip ≡ true) ↔ IsReserved ip
unfolding is_blocked_ip
is_blocked_ip_iff (v4 ip) v = (blocked_v4_sound ip v, blocked_v4_complete ip v)
is_blocked_ip_iff (v6 ip) v = blocked_v6_iff ip v
