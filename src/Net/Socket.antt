-- ===== src/Net/Socket.antt =====
-- The texts that Rust reads as a `SocketAddr`.
use protocol_proxy.Text.Decimal.{parse_u16}
use protocol_proxy.Text.Split.{starts_with, rsplit_once, ends_with_byte}
use protocol_proxy.Prelude.{
  [], ◌∷◌, none, some, true, false, codes, ◌&&◌, ◌||◌, Bytes, Option, Bool, is_some, drop,
}
use protocol_proxy.Net.Parse.{parse_ip, parse_ipv4}
use protocol_proxy.Net.Types.{IpAddr, v4, v6}

without_last : Bytes → Bytes
without_last [] = []
without_last (c ∷ []) = []
without_last (c ∷ d ∷ rest) = c ∷ without_last (d ∷ rest)

abbrev is_v6 : Option IpAddr → Bool
is_v6 none = false
is_v6 (some (v4 ip)) = false
is_v6 (some (v6 ip)) = true

-- An IPv6 address in brackets; a scope after it is left out.
abbrev is_bracketed : Bytes → Bool
is_bracketed text =
    starts_with text (codes "[")
    && ends_with_byte text b']'
    && is_v6 (parse_ip (without_last (drop 1 text)))

-- Whether a text is read as a `SocketAddr`.
unfoldable pub is_socket_addr : Bytes → Bool
unfolding without_last rsplit_once
is_socket_addr text = elim (rsplit_once b':' text) [
  | none ↦ false
  | some (host, port) ↦ is_some (parse_u16 port) && (is_some (parse_ipv4 host) || is_bracketed host)
]
