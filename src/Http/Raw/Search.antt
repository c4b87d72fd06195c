-- ===== src/Http/Raw/Search.antt =====
-- Where bytes stand in a stream that comes in chunks: `take`, `drop` and the search of
-- rust/crates/utopia-proxy/src/server/http/handler.rs.
use mathlib.Core.List.{append_assoc}
use protocol_proxy.Http.Names.{find_subslice}
use protocol_proxy.Text.Split.{starts_with}
use protocol_proxy.Prelude.{
  [], ◌∷◌, some, true, false, zero, suc, refl, arith, ◌++◌, ◌==◌, ◌&&◌, List, ◌≡◌, ◌∙◌, ap, ◌<◌,
  ◌≤◌, ℕ, take, drop, length, Bytes, min, ◌-◌, is_empty, ◌+◌, take-append_drop,
}

module _ {ℓ} {A : Type ℓ} where
  pub take-append : (n : ℕ) (xs ys : List A) → n ≤ length xs → take n (xs ++ ys) ≡ take n xs
  take-append zero xs ys h = refl
  take-append (suc n) [] ys h = absurd (omega arith)
  take-append (suc n) (x ∷ xs) ys h = ap (λ zs. x ∷ zs) (take-append n xs ys (omega arith))

  pub drop-append : (n : ℕ) (xs ys : List A) → n ≤ length xs → drop n (xs ++ ys) ≡ drop n xs ++ ys
  drop-append zero xs ys h = refl
  drop-append (suc n) [] ys h = absurd (omega arith)
  drop-append (suc n) (x ∷ xs) ys h = drop-append n xs ys (omega arith)

  length-take : (n : ℕ) (xs : List A) → length (take n xs) ≡ min n (length xs)
  length-take zero xs = omega arith
  length-take (suc n) [] = omega arith
  length-take (suc n) (x ∷ xs) = omega (arith, length-take n xs)

  pub length-drop : (n : ℕ) (xs : List A) → length (drop n xs) ≡ length xs - n
  length-drop zero xs = omega arith
  length-drop (suc n) [] = omega arith
  length-drop (suc n) (x ∷ xs) = omega (arith, length-drop n xs)

  -- Bytes that move from a stream to what was read stay together.
  pub moved : (k : ℕ) (body s : List A) → (body ++ take k s) ++ drop k s ≡ body ++ s
  moved k body s =
      append_assoc body (take k s) (drop k s) ∙ ap (λ ys. body ++ ys) (take-append_drop k s)

  pub is_empty-take : (k : ℕ) (s : List A) → 0 < k → 0 < length s → is_empty (take k s) ≡ false
  is_empty-take zero s h l = absurd (omega arith)
  is_empty-take (suc k) [] h l = absurd (omega arith)
  is_empty-take (suc k) (x ∷ s) h l = refl

starts_with-le : (s needle : Bytes) → starts_with s needle ≡ true → length needle ≤ length s
unfolding starts_with
starts_with-le s [] h = omega arith
starts_with-le [] (p ∷ ps) h = absurd (ground arith)
starts_with-le (x ∷ xs) (p ∷ ps) h = ground (arith, starts_with-le xs ps)

starts_with-append :
    (s needle rest : Bytes)
    → length needle ≤ length s
    → starts_with (s ++ rest) needle ≡ starts_with s needle
unfolding starts_with
starts_with-append s [] rest h = ground arith
starts_with-append [] (p ∷ ps) rest h = absurd (omega arith)
starts_with-append (x ∷ xs) (p ∷ ps) rest h =
    ap (λ b. x == p && b) (starts_with-append xs ps rest (omega arith))

pub find_subslice-le :
    (s needle : Bytes) (n : ℕ) → find_subslice s needle ≡ some n → n + length needle ≤ length s
unfolding find_subslice
find_subslice-le [] needle n h = absurd (ground arith)
find_subslice-le (x ∷ xs) needle zero h = ground (arith, starts_with-le (x ∷ xs) needle)
find_subslice-le (x ∷ xs) needle (suc n) h = ground (arith, find_subslice-le xs needle n)

-- What stands where the needle is found does not move when more bytes come.
pub find_subslice-append :
    (s needle rest : Bytes) (n : ℕ)
    → find_subslice s needle ≡ some n
    → find_subslice (s ++ rest) needle ≡ some n
unfolding find_subslice
find_subslice-append [] needle rest n h = absurd (ground arith)
find_subslice-append (x ∷ xs) needle rest zero h =
    ground (arith, starts_with-le (x ∷ xs) needle, starts_with-append (x ∷ xs) needle rest)
find_subslice-append (x ∷ xs) needle rest (suc n) h = ground (
  arith,
  starts_with-append (x ∷ xs) needle rest,
  find_subslice-append xs needle rest n,
  find_subslice-le xs needle n,
)

pub take-length-append {ℓ} : {A : Type ℓ} (xs ys : List A) → take (length xs) (xs ++ ys) ≡ xs
take-length-append [] ys = refl
take-length-append (x ∷ xs) ys = ap (λ zs. x ∷ zs) (take-length-append xs ys)

pub drop-length-append {ℓ} :
    {A : Type ℓ} (n : ℕ) (xs ys : List A) → drop (length xs + n) (xs ++ ys) ≡ drop n ys
drop-length-append n [] ys = ap (λ k. drop k ys) (omega arith)
drop-length-append n (x ∷ xs) ys =
    let e : suc (length xs) + n ≡ suc (length xs + n) = omega arith in
    rw e (drop-length-append n xs ys)
