-- ===== src/Adapter/Blocked.antt =====
-- `is_blocked_ip` of rust/crates/utopia-proxy/src/adapter/mod.rs: the addresses that no endpoint may have.
pub mod Ranges
use Prim.Native.Nat.{bit_and}
use protocol_proxy.Prelude.{ℕ, Bool, true, false, ◌&&◌, leb, ◌==◌, if◌then◌else◌}
use protocol_proxy.Net.{Ipv4Addr, Ipv6Addr, IpAddr, v4, v6}

pub is_blocked_ipv4 : Ipv4Addr → Bool
is_blocked_ipv4 ip =
    if ip.a == 10
    then true
    else if ip.a == 172 && (leb 16 ip.b && leb ip.b 31)
    then true
    else if ip.a == 192 && ip.b == 168
    then true
    else if ip.a == 127
    then true
    else if ip.a == 169 && ip.b == 254
    then true
    else if leb 224 ip.a
    then true
    else if ip.a == 0
    then true
    else false

-- `Ipv6Addr::is_loopback`.
pub is_loopback : Ipv6Addr → Bool
is_loopback ip =
    ip.s0 == 0
    && ip.s1 == 0
    && ip.s2 == 0
    && ip.s3 == 0
    && ip.s4 == 0
    && ip.s5 == 0
    && ip.s6 == 0
    && ip.s7 == 1

-- ::ffff:0:0/96.
pub is_ipv4_mapped : Ipv6Addr → Bool
is_ipv4_mapped ip =
    ip.s0 == 0 && ip.s1 == 0 && ip.s2 == 0 && ip.s3 == 0 && ip.s4 == 0 && ip.s5 == 0xffff

pub is_blocked_ipv6 : Ipv6Addr → Bool
is_blocked_ipv6 ip =
    if is_loopback ip
    then true
    else if bit_and ip.s0 0xffc0 == 0xfe80
    then true
    else if bit_and ip.s0 0xfe00 == 0xfc00
    then true
    else if is_ipv4_mapped ip
    then true
    else false

unfoldable pub is_blocked_ip : IpAddr → Bool
unfolding is_blocked_ipv4 is_blocked_ipv6
is_blocked_ip (v4 ip) = is_blocked_ipv4 ip
is_blocked_ip (v6 ip) = is_blocked_ipv6 ip
