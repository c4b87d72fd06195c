-- ===== src/Text/Split.antt =====
-- `split_once`, `rsplit_once`, `splitn` and `split` at one byte, and tests for parts of a text.
use protocol_proxy.Prelude.{
  ℕ, suc, zero, ◌≡◌, refl, Bool, true, false, ◌&&◌, ◌||◌, List, [], ◌∷◌, ◌++◌, Option, none, some,
  Bytes, ◌==◌, if◌then◌else◌, arith,
}

unfoldable pub split_once : ℕ → Bytes → Option (Bytes × Bytes)
split_once c [] = none
split_once c (x ∷ xs) = elim (x == c) [
  | true ↦ some ([], xs)
  | false ↦ elim (split_once c xs) [ none ↦ none | some (a, b) ↦ some (x ∷ a, b) ]
]

unfoldable pub rsplit_once : ℕ → Bytes → Option (Bytes × Bytes)
rsplit_once c [] = none
rsplit_once c (x ∷ xs) = elim (rsplit_once c xs) [
  | some (a, b) ↦ some (x ∷ a, b)
  | none ↦ if x == c then some ([], xs) else none
]

unfoldable pub splitn : ℕ → ℕ → Bytes → List Bytes
splitn zero c s = []
splitn (suc zero) c s = s ∷ []
splitn (suc (suc n)) c s = elim (split_once c s) [
  | none ↦ s ∷ []
  | some (a, b) ↦ a ∷ splitn (suc n) c b
]

abbrev pub onto_first {ℓ} : {A : Type ℓ} → A → List (List A) → List (List A)
onto_first x [] = (x ∷ []) ∷ []
onto_first x (s ∷ ss) = (x ∷ s) ∷ ss

unfoldable pub split : ℕ → Bytes → List Bytes
split c [] = [] ∷ []
split c (x ∷ xs) = if x == c then [] ∷ split c xs else onto_first x (split c xs)

-- `split("\r\n")`.
unfoldable pub split_crlf : Bytes → List Bytes
split_crlf [] = [] ∷ []
split_crlf (x ∷ []) = (x ∷ []) ∷ []
split_crlf (x ∷ y ∷ rest) = elim (x == 13 && y == 10) [
  | true ↦ [] ∷ split_crlf rest
  | false ↦ onto_first x (split_crlf (y ∷ rest))
]

abbrev pub contains : ℕ → Bytes → Bool
contains c [] = false
contains c (x ∷ xs) = x == c || contains c xs

unfoldable pub starts_with : Bytes → Bytes → Bool
starts_with s [] = true
starts_with [] (p ∷ ps) = false
starts_with (x ∷ xs) (p ∷ ps) = x == p && starts_with xs ps

unfoldable pub ends_with_byte : Bytes → ℕ → Bool
ends_with_byte [] c = false
ends_with_byte (x ∷ []) c = x == c
ends_with_byte (x ∷ y ∷ ys) c = ends_with_byte (y ∷ ys) c

-- A separator splits where it first stands.
pub split_once-append :
    (c : ℕ) (a b : Bytes) → contains c a ≡ false → split_once c (a ++ c ∷ b) ≡ some (a, b)
unfolding split_once
split_once-append c [] b h = ground arith
split_once-append c (x ∷ a) b h = ground (arith, split_once-append c a b)

pub split_once-none : (c : ℕ) (a : Bytes) → contains c a ≡ false → split_once c a ≡ none
unfolding split_once
split_once-none c [] h = refl
split_once-none c (x ∷ a) h = ground (arith, split_once-none c a)

pub contains-split_once-none : (c : ℕ) (a : Bytes) → split_once c a ≡ none → contains c a ≡ false
unfolding split_once
contains-split_once-none c [] h = refl
contains-split_once-none c (x ∷ a) h = ground (arith, contains-split_once-none c a)

pub split_once-some :
    (c : ℕ) (s a b : Bytes)
    → split_once c s ≡ some (a, b)
    → (s ≡ a ++ c ∷ b) × (contains c a ≡ false)
unfolding split_once
split_once-some c [] a b e = absurd (ground arith)
split_once-some c (x ∷ xs) [] b e = ground arith
split_once-some c (x ∷ xs) (y ∷ a) b e = ground (arith, split_once-some c xs a b)
