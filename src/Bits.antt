-- ===== src/Bits.antt =====
-- Laws of the bit operations at variables, for the masks and the shifts that the program packs with.
use Prim.Native.Nat.{
  ℕ, zero, suc, ◌+◌, ◌*◌, ◌/◌, ◌%◌, ◌^◌, ◌≤◌, ◌<◌, max, bit_and, bit_or, digits, bit_or-bitwise,
}
use native.Mathlib.Nat.{pow-suc, pow-zero}
use protocol_proxy.Prelude.{Bool, true, ◌&&◌, ◌==◌, ==_iff, ◌≡◌, refl, ap, arith}

abbrev or_digits : ℕ → ℕ → ℕ → ℕ
or_digits n a b = digits (λ b. b) max n a b

-- The digits of `a` stand above those of `y`.
or_digits-add : (n k x a y : ℕ) → a ≡ x * 2 ^ k → y < 2 ^ k → a ≤ n → or_digits n a y ≡ a + y
or_digits-add zero k x zero y e h le = omega arith
or_digits-add zero k x (suc a) y e h le = absurd (omega arith)
or_digits-add (suc n) k x zero y e h le = omega arith
or_digits-add (suc n) zero x (suc a) y e h le = omega (
  arith,
  pow-zero 2,
  or_digits-add n zero (suc a / 2) (suc a / 2) (y / 2) (omega (arith, pow-zero 2))
      (omega (arith, pow-zero 2)) (omega arith),
)
or_digits-add (suc n) (suc k) x (suc a) y e h le = omega (
  arith,
  ap (λ (t : ℕ). x * t) (pow-suc 2 k),
  or_digits-add n k x (suc a / 2) (y / 2) (omega (arith, ap (λ (t : ℕ). x * t) (pow-suc 2 k)))
      (omega (arith, pow-suc 2 k)) (omega arith),
)

-- Where the bits do not overlap, `|` adds.
pub bit_or-add : (k x y : ℕ) → y < 2 ^ k → bit_or (x * 2 ^ k) y ≡ x * 2 ^ k + y
bit_or-add k x y h = omega (
  arith,
  bit_or-bitwise (x * 2 ^ k) y,
  or_digits-add (x * 2 ^ k) k x (x * 2 ^ k) y refl h (omega arith),
)

-- The digits of `y` stand below those of `a`.
or_digits-below : (n k x a y : ℕ) → a ≡ x * 2 ^ k → y < 2 ^ k → y ≤ n → or_digits n y a ≡ a + y
or_digits-below zero k x a zero e h le = omega arith
or_digits-below zero k x a (suc y) e h le = absurd (omega arith)
or_digits-below (suc n) k x a zero e h le = omega arith
or_digits-below (suc n) zero x a (suc y) e h le = absurd (omega (arith, pow-zero 2))
or_digits-below (suc n) (suc k) x a (suc y) e h le = omega (
  arith,
  ap (λ (t : ℕ). x * t) (pow-suc 2 k),
  or_digits-below n k x (a / 2) (suc y / 2) (omega (arith, ap (λ (t : ℕ). x * t) (pow-suc 2 k)))
      (omega (arith, pow-suc 2 k)) (omega arith),
)

-- The same with the low bits in front.
pub bit_or-below : (k x y : ℕ) → y < 2 ^ k → bit_or y (x * 2 ^ k) ≡ x * 2 ^ k + y
bit_or-below k x y h =
    omega (
      arith,
      bit_or-bitwise y (x * 2 ^ k),
      or_digits-below y k x (x * 2 ^ k) y refl h (omega arith),
    )

-- A test tried at every number under a bound.
pub all_below : (ℕ → Bool) → ℕ → Bool
all_below p zero = true
all_below p (suc n) = all_below p n && p n

pub all_below-at : (p : ℕ → Bool) (x n : ℕ) → x < n → all_below p n ≡ true → p x ≡ true
unfolding all_below
all_below-at p x (suc n) less h = ground (arith, all_below-at p x n)
all_below-at p x zero less h = absurd (omega arith)

-- A number of sixteen bits.
u16_table : all_below (λ x. bit_and x 0xffff == x) 65536 ≡ true
unfolding all_below
u16_table = refl

pub bit_and_u16 : (x : ℕ) → x < 65536 → bit_and x 0xffff ≡ x
bit_and_u16 x h = (==_iff _ _).0 (all_below-at _ x 65536 h u16_table)

mask_ten_table : all_below (λ x. bit_and x 0xffc0 == x / 64 * 64) 65536 ≡ true
unfolding all_below
mask_ten_table = refl

mask_seven_table : all_below (λ x. bit_and x 0xfe00 == x / 512 * 512) 65536 ≡ true
unfolding all_below
mask_seven_table = refl

-- The masks of the ten and of the seven leading bits.
pub mask_ten : (x : ℕ) → x < 65536 → bit_and x 0xffc0 ≡ x / 64 * 64
mask_ten x h = (==_iff _ _).0 (all_below-at _ x 65536 h mask_ten_table)

pub mask_seven : (x : ℕ) → x < 65536 → bit_and x 0xfe00 ≡ x / 512 * 512
mask_seven x h = (==_iff _ _).0 (all_below-at _ x 65536 h mask_seven_table)

bit_table : all_below (λ x. bit_and x 0x0800 == x / 2048 % 2 * 2048) 65536 ≡ true
unfolding all_below
bit_table = refl

-- One bit.
pub mask_bit : (x : ℕ) → x < 65536 → bit_and x 0x0800 ≡ x / 2048 % 2 * 2048
mask_bit x h = (==_iff _ _).0 (all_below-at _ x 65536 h bit_table)
