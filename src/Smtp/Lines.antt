-- ===== src/Smtp/Lines.antt =====
-- Reading a client's line, in rust/crates/utopia-proxy/src/server/smtp/server.rs.
use mathlib.Core.List.{flatten}
use protocol_proxy.Prelude.{
  [], ◌∷◌, none, some, if◌then◌else◌, codes, ◌==◌, ◌&&◌, Bytes, Option, List, Bool, take, length,
  bytes_beq, is_some,
}
use protocol_proxy.Text.Ascii.{to_ascii_uppercase, is_ascii_whitespace, eq_ignore_ascii_case}
use protocol_proxy.Text.Utf8.{from_utf8, is_whitespace}
use protocol_proxy.Text.Words.{trim, first_word, after_blank}

unfoldable pub trim_ascii : Bytes → Bytes
trim_ascii = trim is_ascii_whitespace

-- The first four bytes of the trimmed line, in upper case; nothing if they are no text.
unfoldable pub command_token : Bytes → Bytes
unfolding trim_ascii
command_token line =
    let front = take 4 (trim_ascii line) in
    if is_some (from_utf8 front) then to_ascii_uppercase front else []

-- The first word after the verb.
abbrev domain_of : List Bytes → Option Bytes
domain_of chars = elim (after_blank is_whitespace chars) [
  | none ↦ none
  | some rest ↦ elim (first_word is_whitespace (trim is_whitespace rest)) [
    | none ↦ none
    | some domain ↦ some (flatten domain)
  ]
]

unfoldable pub parse_helo_domain : Bytes → Option Bytes
unfolding trim_ascii
parse_helo_domain line = elim (from_utf8 (trim_ascii line)) [
  | none ↦ none
  | some chars ↦ domain_of chars
]

unfoldable pub is_data_only_line : Bytes → Bool
unfolding trim_ascii
is_data_only_line line =
    let trimmed = trim_ascii line in
    length trimmed == 4 && eq_ignore_ascii_case trimmed (codes "DATA")

-- The test of `forward_data` for the line that ends the message.
unfoldable pub is_terminator : Bytes → Bool
unfolding trim_ascii
is_terminator line = bytes_beq (trim_ascii line) (codes ".")

-- `read_until(b'\n')`: a line with its line feed, or what is left, and the rest of the input.
unfoldable pub read_line : Bytes → Bytes × Bytes
read_line [] = ([], [])
read_line (x ∷ xs) =
    let (line, rest) = read_line xs in if x == 10 then (x ∷ [], xs) else (x ∷ line, rest)
