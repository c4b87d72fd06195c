-- ===== src/Text/Words.antt =====
-- Trimming and words, as in `str::trim` and `split_whitespace`: over any kind of character, with the test
-- for white space given.
use protocol_proxy.Prelude.{
  [], ◌∷◌, none, some, true, refl, arith, if◌then◌else◌, ◌++◌, ◌&&◌, Option, List, ◌≡◌, Bool,
  is_empty, all,
}

module _ {A : Type 0} (blank : A → Bool) where
  unfoldable pub trim_start : List A → List A
  trim_start [] = []
  trim_start (x ∷ xs) = if blank x then trim_start xs else x ∷ xs

  unfoldable pub trim_end : List A → List A
  trim_end [] = []
  trim_end (x ∷ xs) = let rest = trim_end xs in if blank x && is_empty rest then [] else x ∷ rest

  unfoldable pub trim : List A → List A
  trim s = trim_end (trim_start s)

  -- The text up to the first white space.
  unfoldable pub take_word : List A → List A
  take_word [] = []
  take_word (x ∷ xs) = if blank x then [] else x ∷ take_word xs

  -- The text after the first white space, if there is any.
  unfoldable pub after_blank : List A → Option (List A)
  after_blank [] = none
  after_blank (x ∷ xs) = if blank x then some xs else after_blank xs

  abbrev nonempty : List A → Option (List A)
  nonempty [] = none
  nonempty (x ∷ xs) = some (x ∷ xs)

  -- `split_whitespace().next()`.
  unfoldable pub first_word : List A → Option (List A)
  first_word s = nonempty (take_word (trim_start s))

  -- White space on the left is trimmed away.
  pub trim-append : (b s : List A) → all blank b ≡ true → trim (b ++ s) ≡ trim s
  unfolding trim trim_start
  trim-append [] s h = refl
  trim-append (x ∷ b) s h = ground (arith, trim-append b s)

  pub trim_end-blank : (s : List A) → all blank s ≡ true → trim_end s ≡ []
  unfolding trim_end
  trim_end-blank [] h = refl
  trim_end-blank (x ∷ s) h = ground (arith, trim_end-blank s)
