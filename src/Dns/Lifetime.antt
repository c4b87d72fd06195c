-- ===== src/Dns/Lifetime.antt =====
-- When the lifetime that `set_ttl` stores is read.
use protocol_proxy.Net.{IpAddr}
use protocol_proxy.Prelude.{Bytes, ℕ, ◌≡◌, some, arith}
use protocol_proxy.External.{CacheApi}
use protocol_proxy.Dns.{DnsEnv, DnsState, resolve, set_ttl, force}

module _ (C : CacheApi Bytes IpAddr) where
  -- Once the cache is built, changing the lifetime changes neither an answer nor a cache entry.
  pub resolve-set_ttl :
      (env : DnsEnv) (host : Bytes) (limit seconds : ℕ) (s : DnsState C.Store) (c : C.Store)
      → s.cache ≡ some c
      → resolve C env host limit (set_ttl seconds s)
        ≡ ((resolve C env host limit s).0, set_ttl seconds (resolve C env host limit s).1)
  unfolding resolve set_ttl force
  resolve-set_ttl env host limit seconds s c h = ground arith
