-- ===== src/Adapter/Endpoint/Lost.antt =====
-- What becomes of an endpoint whose host has a colon, as the text of an IPv6 address has.
use protocol_proxy.Text.Split.{contains, split_once, contains-split_once-none, split_once-some}
use protocol_proxy.Net.{print_ip, Ipv6Addr, v6, print_ipv6, print_ipv6-colon}
use protocol_proxy.Adapter.Endpoint.{parse_endpoint, endpoint_text}
use protocol_proxy.Prelude.{false, inl, inr, Option-cases, arith, ◌≡◌, ap, Bytes, ℕ, Option, ◌≢◌}

parse_endpoint-no_colon :
    (endpoint : Bytes) (default_port : ℕ)
    → contains b':' (parse_endpoint endpoint default_port).0 ≡ false
unfolding parse_endpoint
parse_endpoint-no_colon endpoint default_port = elim (Option-cases (split_once b':' endpoint)) [
  | inl whole ↦ ground (arith, whole, contains-split_once-none b':' endpoint)
  | inr ((host, port), parts) ↦
      let plain = split_once-some b':' endpoint host port parts in ground (arith, parts)
]

-- An endpoint that `validate` writes for an IPv6 address is never read back: whatever the port, the host that
-- `parse_endpoint` takes from it is not the address's text.
pub parse_endpoint-endpoint_text-v6 :
    (ip : Ipv6Addr) (port : Option ℕ) (default_port : ℕ)
    → (parse_endpoint (endpoint_text (print_ip (v6 ip)) port) default_port).0 ≢ print_ip (v6 ip)
unfolding print_ip
parse_endpoint-endpoint_text-v6 ip port default_port e =
    let plain = parse_endpoint-no_colon (endpoint_text (print_ipv6 ip) port) default_port in
    let colon = print_ipv6-colon ip in
    let same : contains b':' (parse_endpoint (endpoint_text (print_ipv6 ip) port) default_port).0
        ≡ contains b':' (print_ipv6 ip) =
      ap (contains b':') e in
    ground arith
