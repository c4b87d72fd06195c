-- ===== src/Dns/Strict.antt =====
-- `resolve` and `resolve_strict` answer alike.
use protocol_proxy.Resolver.{Duration}
use protocol_proxy.Net.{IpAddr, parse_ip, print_ip}
use protocol_proxy.Prelude.{Bytes, Result, ◌≡◌, arith, err, ok, if◌then◌else◌, is_some}
use protocol_proxy.External.{CacheApi}
use protocol_proxy.Dns.{DnsEnv, DnsState, DnsError, resolve, resolve_strict, force}

-- The text that `resolve` makes of a strict answer: a literal address and a host that cannot be
-- resolved stand as they were.
abbrev pub echo : Bytes → Result DnsError IpAddr → Bytes
echo host (err e) = host
echo host (ok ip) = if is_some (parse_ip host) then host else print_ip ip

module _ (C : CacheApi Bytes IpAddr) where
  -- Both resolvers leave the same cache, and the lenient one's text is the strict one's answer.
  pub resolve-resolve_strict :
      (env : DnsEnv) (host : Bytes) (limit : Duration) (s : DnsState C.Store)
      → resolve C env host limit s
        ≡ (echo host (resolve_strict C env host limit s).0, (resolve_strict C env host limit s).1)
  unfolding resolve resolve_strict
  resolve-resolve_strict env host limit s = ground arith

  -- A failure is not cached.
  resolve_strict-failure :
      (env : DnsEnv) (host : Bytes) (limit : Duration) (s : DnsState C.Store) (e : DnsError)
      → (resolve_strict C env host limit s).0 ≡ err e
      → force C (resolve_strict C env host limit s).1 ≡ force C s
  unfolding resolve_strict force
  resolve_strict-failure env host limit s e h = ground arith
