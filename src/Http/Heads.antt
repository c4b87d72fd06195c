-- ===== src/Http/Heads.antt =====
-- How `forward_raw_request` of rust/crates/utopia-proxy/src/server/http/handler.rs reads the head of a response.
use protocol_proxy.Text.Trim.{trim_text}
use protocol_proxy.Text.Utf8.{from_utf8}
use protocol_proxy.Resolver.{ProxyError, other}
use protocol_proxy.Http.Names.{parse_status_line}
use protocol_proxy.Text.Ascii.{to_ascii_lowercase, eq_ignore_ascii_case}
use protocol_proxy.Text.Decimal.{parse_uint}
use protocol_proxy.Http.Config.{HttpConfig}
use protocol_proxy.Http.Forward.{status_or}
use protocol_proxy.Text.Split.{split_once, split_crlf}
use protocol_proxy.Prelude.{
  [], ◌∷◌, none, some, true, false, ok, err, if◌then◌else◌, codes, ◌++◌, ◌&&◌, ◌||◌, Bytes, ℕ,
  Option, Result, List, Bool, ◌^◌, bytes_beq, ◌-◌, unwrap_or,
}

-- What the head says: its headers without those that frame it, and the framing.
pub record Head : Type 0 where
  pub status : ℕ
  pub headers : List (Bytes × Bytes)
  pub content_length : Option ℕ
  pub chunked : Bool

abbrev usize_max : ℕ
usize_max = 2 ^ 64 - 1

framed : Bytes → Bytes → Head → Head
framed name value head =
    if bytes_beq name (codes "content-length")
    then record head { content_length = parse_uint usize_max value }
    else if bytes_beq name (codes "transfer-encoding")
        && eq_ignore_ascii_case value (codes "chunked")
    then record head { chunked = true }
    else head

is_framing : Bytes → Bool
is_framing name =
    bytes_beq name (codes "connection")
    || bytes_beq name (codes "keep-alive")
    || bytes_beq name (codes "transfer-encoding")
    || bytes_beq name (codes "content-length")

kept : Bytes → Bytes → Head → Head
unfolding is_framing
kept name value head =
    if is_framing name then head else record head { headers = head.headers ++ (name, value) ∷ [] }

unfoldable pub add_line : Head → Bytes → Head
unfolding framed kept trim_text
add_line head line = elim (split_once b':' line) [
  | none ↦ head
  | some (key, value) ↦
      let name = to_ascii_lowercase (trim_text key) in
      let value = trim_text value in kept name value (framed name value head)
]

unfoldable pub add_lines : Head → List Bytes → Head
unfolding add_line
add_lines head [] = head
add_lines head (line ∷ lines) = add_lines (add_line head line) lines

status_line : HttpConfig → Bytes → Head
unfolding status_or parse_status_line from_utf8
status_line config line = record {
  status =
      if config.raw_backend_assume_ok
      then 200
      else status_or (unwrap_or (parse_status_line (unwrap_or (from_utf8 line) [])) 200) 200;
  headers = [];
  content_length = none;
  chunked = false;
}

head_of_lines : HttpConfig → List Bytes → Result ProxyError Head
unfolding status_line add_lines
head_of_lines config [] = err (other (codes "missing status line"))
head_of_lines config (line ∷ lines) = ok (add_lines (status_line config line) lines)

-- The head of a response, without the empty line after it.
unfoldable pub parse_head : HttpConfig → Bytes → Result ProxyError Head
unfolding head_of_lines split_crlf
parse_head config text = elim (from_utf8 text) [
  | none ↦ err (other (codes "non-utf8 header"))
  | some chars ↦ head_of_lines config (split_crlf text)
]
