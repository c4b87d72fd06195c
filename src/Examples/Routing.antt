-- ===== src/Examples/Routing.antt =====
-- Routing, host names and endpoints.
use protocol_proxy.Adapter.Endpoint.Lost.{parse_endpoint-endpoint_text-v6}
use protocol_proxy.Adapter.Route.Cached.{route_again}
use protocol_proxy.Dns.Lifetime.{resolve-set_ttl}
use protocol_proxy.Protocol.Names.{from_str-display}
use protocol_proxy.Dns.Strict.{echo, resolve-resolve_strict}
use protocol_proxy.Adapter.Route.Safety.{route-IsSafe, sets_cache_ttl, routes}
use protocol_proxy.Adapter.Blocked.Ranges.{IsReserved, is_blocked_ip_iff}
use protocol_proxy.Adapter.Route.Validated.{IsSafe}
use protocol_proxy.Adapter.Blocked.{is_blocked_ip}
use protocol_proxy.Examples.Data.{
  endpoint, hosts_cache, dns_env, routes_cache, resolver, routes_laws, env,
}
use protocol_proxy.Protocol.{from_str, display, http, kafka}
use protocol_proxy.Dns.{resolve, resolve_strict, initial_dns, set_ttl, DnsState}
use protocol_proxy.Adapter.Endpoint.{parse_endpoint, endpoint_parts, endpoint_text}
use protocol_proxy.Net.{v4, Ipv6Addr, print_ip, v6}
use protocol_proxy.Resolver.{ConnectionResult, ResolverError, new_connection_result}
use protocol_proxy.Adapter.Route.{Adapter, route, cached}
use protocol_proxy.Adapter.Route
use protocol_proxy.Prelude.{
  bytes_eq, [], ◌∷◌, none, some, true, false, ok, refl, arith, codes, Result, ◌≡◌, ◌↔◌, lookup, ◌≢◌,
  insert,
}

abbrev start : Adapter routes_cache.Store
start = record {
  resolver = some resolver;
  protocol = http;
  cache = [];
  cache_ttl = 10;
  skip_validation = false;
  on_resolve = none;
}

abbrev answer_text : ConnectionResult
answer_text = record {
  endpoint = endpoint;
  protocol = http;
  metadata = (codes "cached", codes "false") ∷ [];
}

is_blocked_ip_iff_example :
    let ip = v4 (record { a = 172; b = 31; c = 0; d = 9 }) in
    (is_blocked_ip ip ≡ true) ↔ IsReserved ip
is_blocked_ip_iff_example =
    is_blocked_ip_iff (v4 (record { a = 172; b = 31; c = 0; d = 9 }))
      (record { a_lt = omega arith; b_lt = omega arith; c_lt = omega arith; d_lt = omega arith })

route-IsSafe_example : IsSafe endpoint
unfolding route cached protocol_proxy.Adapter.Route.Safety.run
    protocol_proxy.Adapter.Route.Safety.step Route.set_cache_ttl lookup Route.new Route.ask
    Route.validate endpoint_parts protocol_proxy.Text.Split.splitn
    protocol_proxy.Text.Split.split_once protocol_proxy.Text.Decimal.parse_uint
    protocol_proxy.Net.parse_ip resolve is_blocked_ip insert protocol_proxy.Prelude.bytes_beq
    new_connection_result endpoint_text protocol_proxy.Net.print_ip
route-IsSafe_example =
    route-IsSafe routes_cache hosts_cache routes_laws (some resolver) http initial_dns
      (sets_cache_ttl 10 ∷ routes env (codes "a.example") ∷ []) env (codes "b.example") answer_text
      tt refl

abbrev once :
    Result ResolverError ConnectionResult × Adapter routes_cache.Store × DnsState hosts_cache.Store
once = route routes_cache hosts_cache env start initial_dns (codes "x")

route_again_example : route routes_cache hosts_cache env once.1 initial_dns (codes "x") ≡ (
  ok (new_connection_result endpoint http (insert (codes "cached") (codes "true") [])),
  once.1,
  initial_dns,
)
unfolding route cached lookup insert Route.ask Route.validate endpoint_parts
    protocol_proxy.Text.Split.splitn protocol_proxy.Text.Split.split_once
    protocol_proxy.Text.Decimal.parse_uint protocol_proxy.Net.parse_ip resolve is_blocked_ip
    new_connection_result endpoint_text protocol_proxy.Net.print_ip protocol_proxy.Prelude.bytes_beq
route_again_example =
    route_again routes_cache hosts_cache routes_laws env env start initial_dns initial_dns
      (codes "x") answer_text (record { endpoint = endpoint; inserted_at = 6 }) refl refl
      (omega arith) refl (omega arith)

resolve-resolve_strict_example : resolve hosts_cache dns_env (codes "dns.example") 5 initial_dns ≡ (
  echo
      (codes "dns.example")
      (resolve_strict hosts_cache dns_env (codes "dns.example") 5 initial_dns).0,
  (resolve_strict hosts_cache dns_env (codes "dns.example") 5 initial_dns).1,
)
resolve-resolve_strict_example =
    resolve-resolve_strict hosts_cache dns_env (codes "dns.example") 5 initial_dns

resolve-set_ttl_example :
    let s = record initial_dns { cache = some [] } in
    resolve hosts_cache dns_env (codes "dns.example") 5 (set_ttl 300 s) ≡ (
      (resolve hosts_cache dns_env (codes "dns.example") 5 s).0,
      set_ttl 300 (resolve hosts_cache dns_env (codes "dns.example") 5 s).1,
    )
resolve-set_ttl_example =
    resolve-set_ttl hosts_cache dns_env (codes "dns.example") 5 300
      (record initial_dns { cache = some [] }) [] refl

from_str-display_example : from_str (display kafka) ≡ ok kafka
from_str-display_example = from_str-display kafka

abbrev documentation : Ipv6Addr
documentation = record {
  s0 = 0x2606;
  s1 = 0x4700;
  s2 = 0;
  s3 = 0;
  s4 = 0;
  s5 = 0;
  s6 = 0;
  s7 = 0x1111;
}

parse_endpoint-endpoint_text-v6_example :
    (parse_endpoint (endpoint_text (print_ip (v6 documentation)) (some 443)) 80).0
    ≢ print_ip (v6 documentation)
parse_endpoint-endpoint_text-v6_example =
    parse_endpoint-endpoint_text-v6 documentation (some 443) 80
