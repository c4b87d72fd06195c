-- ===== src/Net/Print.antt =====
-- `IpAddr::to_string`.
use protocol_proxy.Text.Split.{contains}
use protocol_proxy.Prelude.{
  ℕ, suc, zero, ◌+◌, ◌/◌, ◌%◌, ◌≡◌, refl, Bool, ◌&&◌, List, [], ◌∷◌, ◌++◌, Bytes, ◌==◌,
  if◌then◌else◌, ltb, codes, take, drop, true, inl, inr, Bool-cases, arith,
}
use protocol_proxy.Text.Decimal.{print_decimal, print_hex, contains-append}
use protocol_proxy.Net.Types.{Ipv4Addr, Ipv6Addr, IpAddr, v4, v6, segments}

unfoldable pub print_ipv4 : Ipv4Addr → Bytes
unfolding print_decimal
print_ipv4 ip =
    print_decimal ip.a
    ++ (b'.' ∷ (print_decimal ip.b ++ (b'.' ∷ (print_decimal ip.c ++ (b'.' ∷ print_decimal ip.d)))))

print_segments : List ℕ → Bytes
unfolding print_hex
print_segments [] = []
print_segments (s ∷ []) = print_hex s
print_segments (s ∷ t ∷ rest) = print_hex s ++ (b':' ∷ print_segments (t ∷ rest))

-- A run of zero segments: its start and its length.
record Run : Type 0 where
  start : ℕ
  size : ℕ

abbrev no_run : Run
no_run = record { start = 0; size = 0 }

abbrev extend : Run → ℕ → Run
extend r i = record { start = if r.size == 0 then i else r.start; size = suc r.size }

abbrev longer : Run → Run → Run
longer current longest = if ltb longest.size current.size then current else longest

longest_run : ℕ → Run → Run → List ℕ → Run
longest_run i current longest [] = longest
longest_run i current longest (zero ∷ rest) =
    longest_run (suc i) (extend current i) (longer (extend current i) longest) rest
longest_run i current longest (suc s ∷ rest) = longest_run (suc i) no_run longest rest

is_mapped : Ipv6Addr → Bool
is_mapped ip = ip.s0 == 0 && ip.s1 == 0 && ip.s2 == 0 && ip.s3 == 0 && ip.s4 == 0 && ip.s5 == 0xffff

mapped_ipv4 : Ipv6Addr → Ipv4Addr
mapped_ipv4 ip = record { a = ip.s6 / 256; b = ip.s6 % 256; c = ip.s7 / 256; d = ip.s7 % 256 }

print_compressed : Run → List ℕ → Bytes
unfolding print_segments
print_compressed r s =
    if ltb 1 r.size
    then print_segments (take r.start s)
      ++ (codes "::" ++ print_segments (drop (r.start + r.size) s))
    else print_segments s

unfoldable pub print_ipv6 : Ipv6Addr → Bytes
unfolding print_compressed longest_run is_mapped mapped_ipv4 print_ipv4
print_ipv6 ip =
    if is_mapped ip
    then codes "::ffff:" ++ print_ipv4 (mapped_ipv4 ip)
    else print_compressed (longest_run 0 no_run no_run (segments ip)) (segments ip)

unfoldable pub print_ip : IpAddr → Bytes
unfolding print_ipv4 print_ipv6
print_ip (v4 ip) = print_ipv4 ip
print_ip (v6 ip) = print_ipv6 ip

v6_test :
    print_ip
      (v6 (record { s0 = 0xfe80; s1 = 0; s2 = 0; s3 = 1; s4 = 0; s5 = 0; s6 = 0; s7 = 0x12 }))
    ≡ codes "fe80:0:0:1::12"
unfolding print_ip
v6_test = refl

print_segments-colon :
    (s t : ℕ) (rest : List ℕ) → contains b':' (print_segments (s ∷ t ∷ rest)) ≡ true
unfolding print_segments
print_segments-colon s t rest =
    ground (arith, contains-append b':' (print_hex s) (b':' ∷ print_segments (t ∷ rest)))

print_compressed-colon :
    (r : Run) (s t : ℕ) (rest : List ℕ) → contains b':' (print_compressed r (s ∷ t ∷ rest)) ≡ true
unfolding print_compressed
print_compressed-colon r s t rest = ground (
  arith,
  print_segments-colon s t rest,
  contains-append b':' (print_segments (take r.start (s ∷ t ∷ rest)))
      (codes "::" ++ print_segments (drop (r.start + r.size) (s ∷ t ∷ rest))),
)

-- An IPv6 address holds a colon.
pub print_ipv6-colon : (ip : Ipv6Addr) → contains b':' (print_ipv6 ip) ≡ true
unfolding print_ipv6
print_ipv6-colon ip = elim (Bool-cases (is_mapped ip)) [
  | inl mapped ↦ rw (mapped, print_ipv6) refl
  | inr plain ↦
      rw (plain, print_ipv6)
        (print_compressed-colon (longest_run 0 no_run no_run (segments ip)) ip.s0 ip.s1
          (ip.s2 ∷ ip.s3 ∷ ip.s4 ∷ ip.s5 ∷ ip.s6 ∷ ip.s7 ∷ []))
]
