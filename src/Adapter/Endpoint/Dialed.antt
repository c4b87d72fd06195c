-- ===== src/Adapter/Endpoint/Dialed.antt =====
-- What is dialed of a validated endpoint.
use protocol_proxy.Prelude.{
  ℕ, ◌≤◌, ◌≡◌, ◌≢◌, refl, false, List, [], ◌∷◌, Option, none, some, Bytes, is_empty, ok, unwrap_or,
  arith,
}
use protocol_proxy.Text.Split.{splitn, contains, split_once-append, split_once-none}
use protocol_proxy.Text.Decimal.{
  u16_max, print_decimal, parse_uint-print_decimal, print_decimal-ne-nil,
}
use protocol_proxy.Adapter.Endpoint.{
  parse_endpoint, endpoint_parts, endpoint_text, check_parts, check_port,
}

-- A port that `validate` lets through, if there is one.
abbrev pub IsPort : Option ℕ → Type 0
IsPort none = Unit {0}
IsPort (some port) = (1 ≤ port) × (port ≤ u16_max)

is_empty_of_ne : (s : Bytes) → s ≢ [] → is_empty s ≡ false
is_empty_of_ne [] h = absurd (h refl)
is_empty_of_ne (x ∷ s) h = refl

-- Reading back what `validate` wrote gives the host, if that holds no colon, and the port.
pub parse_endpoint-endpoint_text :
    (host : Bytes) (port : Option ℕ) (default_port : ℕ)
    → contains b':' host ≡ false
    → IsPort port
    → parse_endpoint (endpoint_text host port) default_port ≡ (host, unwrap_or port default_port)
unfolding parse_endpoint endpoint_text
parse_endpoint-endpoint_text host none d h p = rw (split_once-none b':' host h, parse_endpoint)
parse_endpoint-endpoint_text host (some port) d h p = rw (
  split_once-append b':' host (print_decimal port) h,
  is_empty_of_ne _ (print_decimal-ne-nil port),
  parse_uint-print_decimal u16_max port p.1,
  parse_endpoint,
)

check_port-IsPort : (text : Bytes) (port : ℕ) → check_port text ≡ ok port → IsPort (some port)
unfolding check_port
check_port-IsPort text port e = ground arith

check_parts-IsPort :
    (endpoint : Bytes) (parts : List Bytes) (host : Bytes) (port : Option ℕ)
    → check_parts endpoint parts ≡ ok (host, port)
    → IsPort port
unfolding check_parts
check_parts-IsPort endpoint (h ∷ []) host port e = ground arith
check_parts-IsPort endpoint (h ∷ text ∷ []) host none e = tt
check_parts-IsPort endpoint (h ∷ text ∷ []) host (some port) e =
    ground (arith, check_port-IsPort text port)
check_parts-IsPort endpoint parts host port e = cc

-- The port that `validate` reads is in range.
pub endpoint_parts-IsPort :
    (endpoint host : Bytes) (port : Option ℕ)
    → endpoint_parts endpoint ≡ ok (host, port)
    → IsPort port
unfolding endpoint_parts
endpoint_parts-IsPort endpoint host port e =
    check_parts-IsPort endpoint (splitn 3 b':' endpoint) host port e
