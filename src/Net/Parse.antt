-- ===== src/Net/Parse.antt =====
-- `IpAddr::from_str`: the parser of `std::net`, which reads an IPv4 address or else an IPv6 one.
-- Each reader returns its value and the text that is left.
use protocol_proxy.Prelude.{
  ℕ, suc, zero, ◌+◌, ◌-◌, ◌*◌, ◌≡◌, refl, Bool, true, false, ◌&&◌, ◌||◌, List, [], ◌∷◌, ◌++◌,
  Option, none, some, Bytes, ◌==◌, if◌then◌else◌, leb, ltb, length, codes, not,
}
use protocol_proxy.Text.Ascii.{is_digit}
use protocol_proxy.Net.Types.{Ipv4Addr, Ipv6Addr, IpAddr, v4, v6}

infixl 5 ◌>>=◌
abbrev ◌>>=◌ {ℓ κ} : {A : Type ℓ} {B : Type κ} → Option A → (A → Option B) → Option B
none >>= k = none
some a >>= k = k a

-- `char::to_digit`.
abbrev digit_value : ℕ → ℕ → Option ℕ
digit_value radix c =
    let v =
      if is_digit c
      then c - b'0'
      else if leb b'a' c && leb c b'f'
      then c - b'a' + 10
      else if leb b'A' c && leb c b'F'
      then c - b'A' + 10
      else radix in
    if ltb v radix then some v else none

-- The value, the number of digits and the rest, behind a prefix of value `acc` and length `k`.
read_digits : ℕ → ℕ → ℕ → Bytes → ℕ × ℕ × Bytes
read_digits radix acc k [] = (acc, k, [])
read_digits radix acc k (c ∷ cs) = elim (digit_value radix c) [
  | none ↦ (acc, k, c ∷ cs)
  | some v ↦ read_digits radix (acc * radix + v) (suc k) cs
]

begins_zero : Bytes → Bool
begins_zero [] = false
begins_zero (c ∷ cs) = c == b'0'

read_number : ℕ → ℕ → Bool → ℕ → Bytes → Option (ℕ × Bytes)
unfolding read_digits begins_zero
read_number radix max_digits allow_zero_prefix most s =
    let (v, k, rest) = read_digits radix 0 0 s in
    if k == 0 || ltb max_digits k || not allow_zero_prefix && begins_zero s && ltb 1 k || ltb most v
    then none
    else some (v, rest)

read_char : ℕ → Bytes → Option Bytes
read_char c [] = none
read_char c (x ∷ xs) = if x == c then some xs else none

read_octet : Bytes → Option (ℕ × Bytes)
unfolding read_number
read_octet s = read_number 10 3 false 255 s

unfoldable pub read_ipv4 : Bytes → Option (Ipv4Addr × Bytes)
unfolding read_octet read_char
read_ipv4 s = do
  (a, s) ← read_octet s
  s ← read_char b'.' s
  (b, s) ← read_octet s
  s ← read_char b'.' s
  (c, s) ← read_octet s
  s ← read_char b'.' s
  (d, s) ← read_octet s
  some (record { a = a; b = b; c = c; d = d }, s)

read_separator : Bool → Bytes → Option Bytes
unfolding read_char
read_separator first s = if first then some s else read_char b':' s

-- The groups read, whether they end in an IPv4 address, and the rest; `left` groups may come.
-- An embedded IPv4 address needs two of them.
read_groups : ℕ → Bool → Bytes → List ℕ × Bool × Bytes
unfolding read_separator read_number
read_groups zero first s = ([], false, s)
read_groups (suc left) first s =
    let embedded : Option (Ipv4Addr × Bytes) =
      if leb 1 left then (read_separator first s >>= read_ipv4) else none in
    let group : Option (ℕ × Bytes) =
      (read_separator first s >>= λ rest. read_number 16 4 true 65535 rest) in
    elim embedded [
      | some (ip, rest) ↦ ((ip.a * 256 + ip.b) ∷ (ip.c * 256 + ip.d) ∷ [], true, rest)
      | none ↦ elim group [
        | none ↦ ([], false, s)
        | some (g, rest) ↦
            let (gs, ended, rest') = read_groups left false rest in (g ∷ gs, ended, rest')
      ]
    ]

of_segments : List ℕ → Option Ipv6Addr
of_segments (a ∷ b ∷ c ∷ d ∷ e ∷ f ∷ g ∷ h ∷ []) =
    some (record { s0 = a; s1 = b; s2 = c; s3 = d; s4 = e; s5 = f; s6 = g; s7 = h })
of_segments _ = none

zeros : ℕ → List ℕ
zeros zero = []
zeros (suc n) = 0 ∷ zeros n

unfoldable pub read_ipv6 : Bytes → Option (Ipv6Addr × Bytes)
unfolding read_groups read_char of_segments zeros
read_ipv6 s =
    let (head, head_v4, rest) = read_groups 8 true s in
    if length head == 8
    then (do ip ← of_segments head; some (ip, rest))
    else if head_v4
    then none
    else do
      rest ← read_char b':' rest
      rest ← read_char b':' rest
      let (tail, _, rest) = read_groups (8 - (length head + 1)) true rest
      ip ← of_segments (head ++ (zeros (8 - length head - length tail) ++ tail))
      some (ip, rest)

abbrev to_v4 : Ipv4Addr × Bytes → Option (IpAddr × Bytes)
to_v4 (ip, s) = some (v4 ip, s)

abbrev to_v6 : Ipv6Addr × Bytes → Option (IpAddr × Bytes)
to_v6 (ip, s) = some (v6 ip, s)

read_ip : Bytes → Option (IpAddr × Bytes)
unfolding read_ipv4 read_ipv6
read_ip s = elim (read_ipv4 s) [ some r ↦ to_v4 r | none ↦ (read_ipv6 s >>= to_v6) ]

abbrev whole {ℓ} : {A : Type ℓ} → A × Bytes → Option A
whole (a, []) = some a
whole (a, c ∷ cs) = none

unfoldable pub parse_ip : Bytes → Option IpAddr
unfolding read_ip
parse_ip s = read_ip s >>= whole

-- `Ipv4Addr::from_str`: no text above fifteen bytes is an address.
unfoldable pub parse_ipv4 : Bytes → Option Ipv4Addr
unfolding read_ipv4
parse_ipv4 s = if ltb 15 (length s) then none else read_ipv4 s >>= whole

v4_test : parse_ip (codes "192.168.0.1") ≡ some (v4 (record { a = 192; b = 168; c = 0; d = 1 }))
unfolding parse_ip
v4_test = refl

v4_leading_zero : parse_ip (codes "192.168.01.1") ≡ none
unfolding parse_ip
v4_leading_zero = refl

v6_test :
    parse_ip (codes "fe80::12")
    ≡ some (v6 (record { s0 = 0xfe80; s1 = 0; s2 = 0; s3 = 0; s4 = 0; s5 = 0; s6 = 0; s7 = 0x12 }))
unfolding parse_ip
v6_test = refl

v6_mapped :
    parse_ip (codes "::ffff:1.2.3.4")
    ≡ some (v6 (record { s0 = 0; s1 = 0; s2 = 0; s3 = 0; s4 = 0; s5 = 0xffff; s6 = 258; s7 = 772 }))
unfolding parse_ip
v6_mapped = refl

v6_rejected : (parse_ip (codes "1:2:3") ≡ none) × (parse_ip (codes "1::2::3") ≡ none)
unfolding parse_ip
v6_rejected = (refl, refl)
