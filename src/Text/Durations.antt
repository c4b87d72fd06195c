-- ===== src/Text/Durations.antt =====
-- How Rust prints a `Duration` for `{:?}`: in the largest unit of which it holds one, with the fraction's digits up to
-- the last that is not 0. A duration is a number of nanoseconds.
use protocol_proxy.Text.Decimal.{print_decimal}
use protocol_proxy.Text.Words.{trim_end}
use protocol_proxy.Prelude.{
  [], ◌∷◌, zero, suc, refl, if◌then◌else◌, codes, ◌++◌, ◌==◌, Bytes, ℕ, ◌≡◌, ◌/◌, leb, ◌+◌,
  is_empty, ◌%◌,
}

digits : ℕ → ℕ → Bytes
digits zero n = []
digits (suc k) n = digits k (n / 10) ++ (b'0' + n % 10) ∷ []

fraction : ℕ → ℕ → Bytes
unfolding digits
fraction k n =
    let shown = trim_end (λ c. c == b'0') (digits k n) in
    if is_empty shown then [] else b'.' ∷ shown

unfoldable pub debug_duration : ℕ → Bytes
unfolding fraction
debug_duration n =
    if leb 1000000000 n
    then print_decimal (n / 1000000000) ++ (fraction 9 (n % 1000000000) ++ codes "s")
    else if leb 1000000 n
    then print_decimal (n / 1000000) ++ (fraction 6 (n % 1000000) ++ codes "ms")
    else if leb 1000 n
    then print_decimal (n / 1000) ++ (fraction 3 (n % 1000) ++ 0xc2 ∷ 0xb5 ∷ codes "s")
    else print_decimal n ++ codes "ns"

debug_duration_example : debug_duration 1050000000 ≡ codes "1.05s"
unfolding debug_duration trim_end print_decimal
debug_duration_example = refl
