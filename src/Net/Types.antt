-- ===== src/Net/Types.antt =====
-- `Ipv4Addr`, `Ipv6Addr` and `IpAddr`.
use protocol_proxy.Prelude.{ℕ, ◌<◌, List, [], ◌∷◌}

pub record Ipv4Addr : Type 0 where
  pub a : ℕ
  pub b : ℕ
  pub c : ℕ
  pub d : ℕ

-- The eight segments of sixteen bits.
pub record Ipv6Addr : Type 0 where
  pub s0 : ℕ
  pub s1 : ℕ
  pub s2 : ℕ
  pub s3 : ℕ
  pub s4 : ℕ
  pub s5 : ℕ
  pub s6 : ℕ
  pub s7 : ℕ

pub data IpAddr : Type 0 where
  v4 : Ipv4Addr → IpAddr
  v6 : Ipv6Addr → IpAddr

pub record IsOctets (ip : Ipv4Addr) : Type 0 where
  pub a_lt : ip.a < 256
  pub b_lt : ip.b < 256
  pub c_lt : ip.c < 256
  pub d_lt : ip.d < 256

pub record IsSegments (ip : Ipv6Addr) : Type 0 where
  pub s0_lt : ip.s0 < 65536
  pub s1_lt : ip.s1 < 65536
  pub s2_lt : ip.s2 < 65536
  pub s3_lt : ip.s3 < 65536
  pub s4_lt : ip.s4 < 65536
  pub s5_lt : ip.s5 < 65536
  pub s6_lt : ip.s6 < 65536
  pub s7_lt : ip.s7 < 65536

abbrev pub IsAddress : IpAddr → Type 0
IsAddress (v4 ip) = IsOctets ip
IsAddress (v6 ip) = IsSegments ip

abbrev pub segments : Ipv6Addr → List ℕ
segments ip = ip.s0 ∷ ip.s1 ∷ ip.s2 ∷ ip.s3 ∷ ip.s4 ∷ ip.s5 ∷ ip.s6 ∷ ip.s7 ∷ []
