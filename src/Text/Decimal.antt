-- ===== src/Text/Decimal.antt =====
-- Printing a number (`to_string`, `{:x}`) and parsing an unsigned one (`str::parse`).
use protocol_proxy.Prelude.{
  ℕ, suc, zero, ◌+◌, ◌-◌, ◌*◌, ◌/◌, ◌%◌, ◌≤◌, ◌<◌, ◌≡◌, ◌≢◌, refl, true, false, ◌&&◌, ◌||◌, [], ◌∷◌,
  ◌++◌, Option, none, some, Bytes, ◌==◌, if◌then◌else◌, arith, ltb, leb, Bool-cases, tests, inl,
  inr, ap, subst, ◌∙◌,
}
use protocol_proxy.Text.Ascii.{is_digit}
use protocol_proxy.Text.Split.{contains}

-- The digit of a value below 16.
unfoldable pub digit_of : ℕ → ℕ
digit_of d = if ltb d 10 then b'0' + d else b'a' + (d - 10)

print_from : ℕ → ℕ → ℕ → Bytes
print_from radix zero n = []
print_from radix (suc f) n = elim (ltb n radix) [
  | true ↦ digit_of n ∷ []
  | false ↦ print_from radix f (n / radix) ++ digit_of (n % radix) ∷ []
]

-- The number itself is fuel enough: each round divides it by the radix.
unfoldable pub print_decimal : ℕ → Bytes
unfolding print_from digit_of
print_decimal n = print_from 10 (suc n) n

unfoldable pub print_hex : ℕ → Bytes
unfolding print_from digit_of
print_hex n = print_from 16 (suc n) n

-- Digits only; a value above `most` overflows.
unfoldable pub parse_digits : ℕ → ℕ → Bytes → Option ℕ
parse_digits most acc [] = some acc
parse_digits most acc (c ∷ cs) =
    if is_digit c && leb (acc * 10 + (c - b'0')) most
    then parse_digits most (acc * 10 + (c - b'0')) cs
    else none

parse_nonempty : ℕ → Bytes → Option ℕ
unfolding parse_digits
parse_nonempty most [] = none
parse_nonempty most (c ∷ cs) = parse_digits most 0 (c ∷ cs)

-- One leading plus sign is accepted, the empty text is not.
unfoldable pub parse_uint : ℕ → Bytes → Option ℕ
unfolding parse_nonempty
parse_uint most [] = none
parse_uint most (c ∷ cs) =
    if c == b'+' then parse_nonempty most cs else parse_digits most 0 (c ∷ cs)

abbrev pub u16_max : ℕ
u16_max = 65535

abbrev pub parse_u16 : Bytes → Option ℕ
parse_u16 = parse_uint u16_max

parse_digits-snoc :
    (most acc v d : ℕ) (cs : Bytes)
    → parse_digits most acc cs ≡ some v
    → d < 10
    → v * 10 + d ≤ most
    → parse_digits most acc (cs ++ digit_of d ∷ []) ≡ some (v * 10 + d)
unfolding parse_digits digit_of
parse_digits-snoc most acc v d [] e h k = ground arith
parse_digits-snoc most acc v d (c ∷ cs) e h k =
    ground (arith, parse_digits-snoc most (acc * 10 + (c - b'0')) v d cs)

print_small : (f n : ℕ) → ltb n 10 ≡ true → print_from 10 (suc f) n ≡ digit_of n ∷ []
unfolding print_from
print_small f n e = ground arith

print_large :
    (f n : ℕ)
    → ltb n 10 ≡ false
    → print_from 10 (suc f) n ≡ print_from 10 f (n / 10) ++ digit_of (n % 10) ∷ []
unfolding print_from
print_large f n e = ground arith

one_digit : (most n : ℕ) → n < 10 → n ≤ most → parse_digits most 0 (digit_of n ∷ []) ≡ some n
unfolding parse_digits digit_of
one_digit most n h k = ground arith

parse_digits-print_from :
    (most f n : ℕ) → n < f → n ≤ most → parse_digits most 0 (print_from 10 f n) ≡ some n
parse_digits-print_from most zero n h k = absurd (omega arith)
parse_digits-print_from most (suc f) n h k = elim (Bool-cases (ltb n 10)) [
  | inl small ↦ rw (print_small f n small) (one_digit most n (omega (tests, small)) k)
  | inr large ↦ rw (print_large f n large) (
      parse_digits-snoc most 0 (n / 10) (n % 10) (print_from 10 f (n / 10))
        (parse_digits-print_from most f (n / 10) (ground arith) (ground arith)) (omega arith)
        (omega arith)
      ∙ ap some (omega arith))
]

-- Text that begins with a digit parses by its digits.
abbrev StartsDigit : Bytes → Type 0
StartsDigit [] = ⊥
StartsDigit (c ∷ cs) = is_digit c ≡ true

StartsDigit-append : (a b : Bytes) → StartsDigit a → StartsDigit (a ++ b)
StartsDigit-append [] b h = absurd h
StartsDigit-append (c ∷ a) b h = h

digit_of-is_digit : (d : ℕ) → d < 10 → is_digit (digit_of d) ≡ true
unfolding digit_of
digit_of-is_digit d h = ground arith

print_from-StartsDigit : (f n : ℕ) → n < f → StartsDigit (print_from 10 f n)
print_from-StartsDigit zero n h = absurd (omega arith)
print_from-StartsDigit (suc f) n h = elim (Bool-cases (ltb n 10)) [
  | inl small ↦ rw (print_small f n small) (digit_of-is_digit n (omega (tests, small)))
  | inr large ↦ rw (print_large f n large) (
      StartsDigit-append (print_from 10 f (n / 10)) _
        (print_from-StartsDigit f (n / 10) (ground arith)))
]

parse_uint_of_digit :
    (most : ℕ) (s : Bytes) → StartsDigit s → parse_uint most s ≡ parse_digits most 0 s
unfolding parse_uint
parse_uint_of_digit most [] h = absurd h
parse_uint_of_digit most (c ∷ cs) h = ground arith

-- What is printed parses to the number, if that is within the type.
pub parse_uint-print_decimal : (most n : ℕ) → n ≤ most → parse_uint most (print_decimal n) ≡ some n
unfolding print_decimal
parse_uint-print_decimal most n h =
    parse_uint_of_digit most (print_from 10 (suc n) n)
      (print_from-StartsDigit (suc n) n (omega arith))
    ∙ parse_digits-print_from most (suc n) n (omega arith) h

pub contains-append : (c : ℕ) (a b : Bytes) → contains c (a ++ b) ≡ (contains c a || contains c b)
contains-append c [] b = refl
contains-append c (x ∷ a) b = ground (arith, contains-append c a b)

digit_of-ne : (c d : ℕ) → is_digit c ≡ false → d < 10 → (digit_of d == c) ≡ false
unfolding digit_of
digit_of-ne c d h k = ground arith

print_from-contains : (c f n : ℕ) → is_digit c ≡ false → contains c (print_from 10 f n) ≡ false
print_from-contains c zero n h = unfold print_from in refl
print_from-contains c (suc f) n h = elim (Bool-cases (ltb n 10)) [
  | inl small ↦ rw (print_small f n small, digit_of-ne c n h (omega (tests, small)))
  | inr large ↦ rw (
    print_large f n large,
    contains-append,
    print_from-contains c f (n / 10) h,
    digit_of-ne c (n % 10) h (omega arith),
  )
]

-- A decimal number holds no byte but digits, and is not empty.
pub print_decimal-contains : (c n : ℕ) → is_digit c ≡ false → contains c (print_decimal n) ≡ false
unfolding print_decimal
print_decimal-contains c n h = print_from-contains c (suc n) n h

pub print_decimal-ne-nil : (n : ℕ) → print_decimal n ≢ []
unfolding print_decimal
print_decimal-ne-nil n e = subst StartsDigit e (print_from-StartsDigit (suc n) n (omega arith))
