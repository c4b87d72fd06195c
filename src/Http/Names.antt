-- ===== src/Http/Names.antt =====
-- The tests and readers of rust/crates/utopia-proxy/src/server/http/handler.rs that stand by themselves.
use protocol_proxy.Net.{parse_ipv4}
use mathlib.Core.List.{flatten}
use protocol_proxy.Text.Utf8.{is_whitespace}
use protocol_proxy.Text.Decimal.{parse_u16}
use protocol_proxy.Text.Words.{after_blank, trim_start, first_word}
use protocol_proxy.Prelude.{
  [], ◌∷◌, none, some, false, suc, if◌then◌else◌, codes, ◌==◌, ◌&&◌, ◌||◌, Bytes, ℕ, Option, List,
  Bool, is_empty, not, bytes_beq, ltb, all, length, is_some,
}
use protocol_proxy.Text.Ascii.{is_digit, is_alphanumeric}
use protocol_proxy.Text.Split.{rsplit_once, split, starts_with, ends_with_byte, contains}

abbrev pub is_name_byte : ℕ → Bool
is_name_byte c = is_alphanumeric c || c == b'-'

unfoldable pub is_valid_label : Bytes → Bool
is_valid_label label =
    if is_empty label || ltb 63 (length label)
    then false
    else if starts_with label (codes "-") || ends_with_byte label b'-'
    then false
    else all is_name_byte label

-- The host name without a port: only digits after the last colon are a port.
unfoldable pub host_part : Bytes → Bytes
host_part hostname = elim (rsplit_once b':' hostname) [
  | none ↦ hostname
  | some (host, port) ↦ if not (is_empty port) && all is_digit port then host else hostname
]

unfoldable pub is_valid_hostname : Bytes → Bool
is_valid_hostname hostname =
    let host = host_part hostname in
    if is_empty hostname
    then false
    else if is_empty host || ltb 253 (length host)
    then false
    else is_some (parse_ipv4 host)
      || (all is_valid_label (split b'.' host) && contains b'.' host || all is_name_byte host)

-- `str::split_whitespace().nth(1)`, parsed as a number of 16 bits.
abbrev second_word : List Bytes → Option (List Bytes)
second_word chars = elim (after_blank is_whitespace (trim_start is_whitespace chars)) [
  | none ↦ none
  | some rest ↦ first_word is_whitespace rest
]

-- The status line as characters.
unfoldable pub parse_status_line : List Bytes → Option ℕ
parse_status_line chars = elim (second_word chars) [
  | none ↦ none
  | some word ↦ parse_u16 (flatten word)
]

-- Where the needle first stands; the needle is not empty.
unfoldable pub find_subslice : Bytes → Bytes → Option ℕ
unfolding bytes_beq
find_subslice [] needle = none
find_subslice (x ∷ xs) needle =
    let rest = find_subslice xs needle in
    if starts_with (x ∷ xs) needle
    then some 0
    else elim rest [ none ↦ none | some n ↦ some (suc n) ]

-- The headers of one connection, which are not relayed. A header's name is in lower case.
unfoldable pub is_hop_by_hop : Bytes → Bool
unfolding bytes_beq
is_hop_by_hop name =
    bytes_beq name (codes "connection")
    || bytes_beq name (codes "keep-alive")
    || bytes_beq name (codes "transfer-encoding")
    || bytes_beq name (codes "te")
    || bytes_beq name (codes "trailer")
    || bytes_beq name (codes "upgrade")
    || bytes_beq name (codes "proxy-authorization")
    || bytes_beq name (codes "proxy-authenticate")
    || bytes_beq name (codes "content-length")
    || bytes_beq name (codes "transfer-encoding")
