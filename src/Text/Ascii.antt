-- ===== src/Text/Ascii.antt =====
-- ASCII tests and case changes on bytes, as in Rust's `u8` and `char`.
use protocol_proxy.Prelude.{
  ℕ, ◌+◌, ◌-◌, ◌≡◌, Bool, ◌&&◌, ◌||◌, map, Bytes, leb, ◌==◌, if◌then◌else◌, bytes_beq, arith,
}

abbrev pub is_digit : ℕ → Bool
is_digit c = leb b'0' c && leb c b'9'

abbrev pub is_lower : ℕ → Bool
is_lower c = leb b'a' c && leb c b'z'

abbrev pub is_upper : ℕ → Bool
is_upper c = leb b'A' c && leb c b'Z'

abbrev pub is_alphanumeric : ℕ → Bool
is_alphanumeric c = is_digit c || is_lower c || is_upper c

-- `u8::is_ascii_whitespace`: space, tab, line feed, form feed, carriage return.
abbrev pub is_ascii_whitespace : ℕ → Bool
is_ascii_whitespace c = c == 32 || c == 9 || c == 10 || c == 12 || c == 13

unfoldable pub to_upper : ℕ → ℕ
to_upper c = if is_lower c then c - 32 else c

unfoldable pub to_lower : ℕ → ℕ
to_lower c = if is_upper c then c + 32 else c

abbrev pub to_ascii_uppercase : Bytes → Bytes
to_ascii_uppercase = map to_upper

abbrev pub to_ascii_lowercase : Bytes → Bytes
to_ascii_lowercase = map to_lower

unfoldable pub eq_ignore_ascii_case : Bytes → Bytes → Bool
unfolding bytes_beq
eq_ignore_ascii_case a b = bytes_beq (to_ascii_lowercase a) (to_ascii_lowercase b)

pub to_lower-to_upper : (c : ℕ) → to_lower (to_upper c) ≡ to_lower c
unfolding to_lower to_upper
to_lower-to_upper c = ground arith
