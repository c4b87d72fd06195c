-- ===== src/Text/Utf8.antt =====
-- Decoding of UTF-8 (`str::from_utf8`, `String::from_utf8_lossy`) and Unicode white space.
use protocol_proxy.Prelude.{
  ℕ, suc, zero, ◌≡◌, refl, Bool, false, ◌&&◌, ◌||◌, List, [], ◌∷◌, ◌++◌, Option, none, some, Bytes,
  ◌==◌, if◌then◌else◌, leb, take, drop, length,
}

abbrev within : ℕ → ℕ → ℕ → Bool
within lo hi c = leb lo c && leb c hi

-- What stands at the front: a character of so many bytes, or so many bytes that begin none.
pub data Front : Type 0 where
  good bad : ℕ → Front

abbrev front_two : Bytes → Front
front_two [] = bad 1
front_two (c ∷ cs) = if within 0x80 0xbf c then good 2 else bad 1

abbrev third : Bytes → ℕ → Front → Front
third [] k done = bad k
third (c ∷ cs) k done = if within 0x80 0xbf c then done else bad k

front_three : ℕ → ℕ → Bytes → Front
front_three lo hi [] = bad 1
front_three lo hi (c ∷ cs) = if within lo hi c then third cs 2 (good 3) else bad 1

front_four : ℕ → ℕ → Bytes → Front
front_four lo hi [] = bad 1
front_four lo hi (c ∷ cs) =
    if within lo hi c then third cs 2 (third (drop 1 cs) 3 (good 4)) else bad 1

front : ℕ → Bytes → Front
unfolding front_three front_four
front c rest =
    if leb c 0x7f
    then good 1
    else if within 0xc2 0xdf c
    then front_two rest
    else if c == 0xe0
    then front_three 0xa0 0xbf rest
    else if c == 0xed
    then front_three 0x80 0x9f rest
    else if within 0xe1 0xef c
    then front_three 0x80 0xbf rest
    else if c == 0xf0
    then front_four 0x90 0xbf rest
    else if within 0xf1 0xf3 c
    then front_four 0x80 0xbf rest
    else if c == 0xf4
    then front_four 0x80 0x8f rest
    else bad 1

-- The characters of a text, each as its bytes; `none` if the text is not UTF-8.
-- The length of the text is fuel enough, since each round takes a byte at least.
chars_from : ℕ → Bytes → Option (List Bytes)
chars_from f [] = some []
chars_from zero (c ∷ cs) = none
chars_from (suc f) (c ∷ cs) = elim (front c cs) [
  | bad k ↦ none
  | good k ↦ elim (chars_from f (drop k (c ∷ cs))) [
    | none ↦ none
    | some rest ↦ some (take k (c ∷ cs) ∷ rest)
  ]
]

unfoldable pub from_utf8 : Bytes → Option (List Bytes)
unfolding chars_from front
from_utf8 s = chars_from (length s) s

lossy_from : ℕ → Bytes → Bytes
lossy_from f [] = []
lossy_from zero (c ∷ cs) = []
lossy_from (suc f) (c ∷ cs) = elim (front c cs) [
  | bad k ↦ 0xef ∷ 0xbf ∷ 0xbd ∷ lossy_from f (drop k (c ∷ cs))
  | good k ↦ take k (c ∷ cs) ++ lossy_from f (drop k (c ∷ cs))
]

unfoldable pub from_utf8_lossy : Bytes → Bytes
unfolding lossy_from front
from_utf8_lossy s = lossy_from (length s) s

-- `char::is_whitespace`, on the bytes of one character.
unfoldable pub is_whitespace : Bytes → Bool
is_whitespace (c ∷ []) = c == 32 || within 9 13 c
is_whitespace (b ∷ c ∷ []) = b == 0xc2 && (c == 0x85 || c == 0xa0)
is_whitespace (a ∷ b ∷ c ∷ []) =
    a == 0xe1 && b == 0x9a && c == 0x80
    || a == 0xe2 && b == 0x80 && (within 0x80 0x8a c || c == 0xa8 || c == 0xa9 || c == 0xaf)
    || a == 0xe2 && b == 0x81 && c == 0x9f
    || a == 0xe3 && b == 0x80 && c == 0x80
is_whitespace _ = false

abbrev lossy_test : Bytes
lossy_test = b'a' ∷ 0xff ∷ b'b' ∷ 0xe2 ∷ 0x82 ∷ []

lossy_example :
    from_utf8_lossy lossy_test ≡ b'a' ∷ 0xef ∷ 0xbf ∷ 0xbd ∷ b'b' ∷ 0xef ∷ 0xbf ∷ 0xbd ∷ []
unfolding from_utf8_lossy
lossy_example = refl
