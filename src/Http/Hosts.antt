-- ===== src/Http/Hosts.antt =====
-- What `is_valid_hostname` and `find_subslice` of rust/crates/utopia-proxy/src/server/http/handler.rs accept and find.
use protocol_proxy.Text.Ascii.{is_digit}
use protocol_proxy.Http.Names.{host_part, is_valid_hostname, find_subslice, is_name_byte}
use protocol_proxy.Text.Split.{rsplit_once, contains, starts_with}
use protocol_proxy.Prelude.{
  [], ◌∷◌, none, some, true, false, refl, arith, ◌++◌, ◌≡◌, ◌<◌, ◌≤◌, Bytes, ℕ, all, is_empty,
  length, ltb, drop, zero, suc, inl, inr, Bool-cases, Option-cases, ◌⊎◌,
}

rsplit_once-none : (c : ℕ) (s : Bytes) → contains c s ≡ false → rsplit_once c s ≡ none
unfolding rsplit_once
rsplit_once-none c [] h = refl
rsplit_once-none c (x ∷ s) h = ground (arith, rsplit_once-none c s)

rsplit_once-append :
    (c : ℕ) (a b : Bytes) → contains c b ≡ false → rsplit_once c (a ++ c ∷ b) ≡ some (a, b)
unfolding rsplit_once
rsplit_once-append c [] b h = ground (arith, rsplit_once-none c b)
rsplit_once-append c (x ∷ a) b h = ground (arith, rsplit_once-append c a b)

digits-no_colon : (s : Bytes) → all is_digit s ≡ true → contains b':' s ≡ false
digits-no_colon [] h = refl
digits-no_colon (x ∷ s) h = ground (arith, digits-no_colon s)

name_bytes-no_colon : (s : Bytes) → all is_name_byte s ≡ true → contains b':' s ≡ false
name_bytes-no_colon [] h = refl
name_bytes-no_colon (x ∷ s) h = ground (arith, name_bytes-no_colon s)

append-nonempty : (a : Bytes) (c : ℕ) (b : Bytes) → is_empty (a ++ c ∷ b) ≡ false
append-nonempty [] c b = refl
append-nonempty (x ∷ a) c b = refl

host_part-no_colon : (host : Bytes) → contains b':' host ≡ false → host_part host ≡ host
unfolding host_part
host_part-no_colon host h = rw (rsplit_once-none b':' host h, host_part) refl

host_part-port :
    (host port : Bytes)
    → is_empty port ≡ false
    → all is_digit port ≡ true
    → host_part (host ++ b':' ∷ port) ≡ host
unfolding host_part
host_part-port host port given digits =
    rw (rsplit_once-append b':' host port (digits-no_colon port digits), host_part, given, digits)
      refl

-- A colon and one or more digits after a host that holds no colon do not change whether it is accepted.
is_valid_hostname-port :
    (host port : Bytes)
    → contains b':' host ≡ false
    → is_empty port ≡ false
    → all is_digit port ≡ true
    → is_valid_hostname (host ++ b':' ∷ port) ≡ is_valid_hostname host
unfolding is_valid_hostname
is_valid_hostname-port [] port plain given digits =
    rw (host_part-port [] port given digits, is_valid_hostname) refl
is_valid_hostname-port (x ∷ host) port plain given digits =
    rw
      (
        host_part-port (x ∷ host) port given digits,
        host_part-no_colon (x ∷ host) plain,
        is_valid_hostname,
      )
      refl

-- A host of 1 to 253 letters, digits and hyphens is accepted wherever the hyphens stand and however long
-- its only label is.
pub is_valid_hostname-single :
    (host : Bytes)
    → is_empty host ≡ false
    → length host ≤ 253
    → all is_name_byte host ≡ true
    → is_valid_hostname host ≡ true
unfolding is_valid_hostname
is_valid_hostname-single host given short names =
    let same = host_part-no_colon host (name_bytes-no_colon host names) in
    let fits : ltb 253 (length host) ≡ false = ground arith in
    rw (given, same, fits, names, is_valid_hostname) (ground arith)

find_subslice-cases :
    (x : ℕ) (xs needle : Bytes) (n : ℕ)
    → find_subslice (x ∷ xs) needle ≡ some n
    → ((starts_with (x ∷ xs) needle ≡ true) × (n ≡ 0))
      ⊎ ((k : ℕ) × (starts_with (x ∷ xs) needle ≡ false)
          × (n ≡ suc k)
          × (find_subslice xs needle ≡ some k))
unfolding find_subslice
find_subslice-cases x xs needle n e = elim (Bool-cases (starts_with (x ∷ xs) needle)) [
  | inl here ↦ inl (here, ground arith)
  | inr away ↦ elim (Option-cases (find_subslice xs needle)) [
    | inl nowhere ↦ absurd (ground arith)
    | inr (k, found) ↦ inr (k, away, ground arith, found)
  ]
]

find_subslice-later :
    (x : ℕ) (xs needle : Bytes) (k m : ℕ)
    → starts_with (x ∷ xs) needle ≡ false
    → ((j : ℕ)
        → (starts_with (drop k xs) needle ≡ true)
          × (j < k → starts_with (drop j xs) needle ≡ false))
    → (starts_with (drop (suc k) (x ∷ xs)) needle ≡ true)
      × (m < suc k → starts_with (drop m (x ∷ xs)) needle ≡ false)
find_subslice-later x xs needle k zero away h = ((h zero).0, λ less. away)
find_subslice-later x xs needle k (suc m) away h = ((h m).0, λ less. (h m).1 (omega arith))

-- Where `find_subslice` finds the needle, the needle stands there, and at no place before.
find_subslice-first :
    (haystack needle : Bytes) (n m : ℕ)
    → find_subslice haystack needle ≡ some n
    → (starts_with (drop n haystack) needle ≡ true)
      × (m < n → starts_with (drop m haystack) needle ≡ false)
unfolding find_subslice
find_subslice-first [] needle n m e = cc
find_subslice-first (x ∷ xs) needle n m e = elim (find_subslice-cases x xs needle n e) [
  | inl (here, at_start) ↦ rw (at_start) (here, λ less. absurd (ground arith))
  | inr (k, not_here, later, found) ↦
      rw later (
        find_subslice-later x xs needle k m not_here (λ j. find_subslice-first xs needle k j found))
]
