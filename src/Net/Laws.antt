-- ===== src/Net/Laws.antt =====
-- The text of an address.
use protocol_proxy.Prelude.{◌≡◌, refl, false}
use protocol_proxy.Text.Split.{contains}
use protocol_proxy.Text.Decimal.{print_decimal-contains, contains-append}
use protocol_proxy.Net.Types.{Ipv4Addr}
use protocol_proxy.Net.Print.{print_ipv4}

-- An IPv4 address holds digits and dots only.
pub print_ipv4-no_colon : (ip : Ipv4Addr) → contains b':' (print_ipv4 ip) ≡ false
unfolding print_ipv4
print_ipv4-no_colon ip = simp (contains-append, print_decimal-contains) refl
