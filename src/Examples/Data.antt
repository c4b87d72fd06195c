-- ===== src/Examples/Data.antt =====
-- The resolver, the sockets and the settings of the examples. Tables are association lists.
use protocol_proxy.Adapter.Tcp.{TcpClient}
use protocol_proxy.Net.{IpAddr, v4}
use protocol_proxy.Resolver.{Resolver, ResolverError}
use protocol_proxy.Adapter.Route.{RouteEnv, CacheEntry}
use protocol_proxy.Dns.{DnsEnv, addresses}
use protocol_proxy.Sockmap.Pairs.{BpfApi, IsBpf}
use protocol_proxy.Prelude.{
  nat_eq, bytes_eq, insert, lookup, remove, lookup-insert, lookup-remove, [], ◌∷◌, none, some, ok,
  err, arith, if◌then◌else◌, codes, ◌==◌, Bytes, List, ◌≡◌, ℕ,
}
use protocol_proxy.External.{
  list_cache, list_cache-IsCache, list_map, list_map-IsMap, CacheApi, IsCache, MapApi, IsMap,
}

abbrev pub routes_cache : CacheApi Bytes CacheEntry
routes_cache = list_cache

abbrev pub hosts_cache : CacheApi Bytes IpAddr
hosts_cache = list_cache

abbrev pub routes_laws : IsCache Bytes CacheEntry routes_cache
routes_laws = list_cache-IsCache

abbrev pub clients : MapApi ℕ TcpClient
clients = list_map

abbrev pub pairs : MapApi ℕ ℕ
pairs = list_map

abbrev pub clients_laws : IsMap ℕ TcpClient clients
clients_laws = list_map-IsMap

abbrev pub pairs_laws : IsMap ℕ ℕ pairs
pairs_laws = list_map-IsMap

-- A kernel table in which every write succeeds.
abbrev pub table : BpfApi
table = record {
  Map = List (ℕ × ℕ);
  get = lookup;
  update = λ k v m. some (insert k v m);
  delete = remove;
}

abbrev get-update :
    (k j v : ℕ) (m m' : List (ℕ × ℕ))
    → some (insert k v m) ≡ some m'
    → lookup j m' ≡ (if k == j then some v else lookup j m)
get-update k j v m m' e = ground (arith, lookup-insert k j v m)

abbrev pub table_laws : IsBpf table
table_laws = record { get-update = get-update; get-delete = lookup-remove }

abbrev pub endpoint : Bytes
endpoint = codes "8.8.8.8:80"

abbrev pub dns_env : DnsEnv
dns_env = record {
  read_at = 0;
  written_at = 0;
  resolver = ok tt;
  lookup_ip = λ host limit. addresses (v4 (record { a = 8; b = 8; c = 4; d = 4 }) ∷ []);
}

abbrev pub env : RouteEnv
env = record { asked_at = 0; read_at = 5; inserted_at = 6; dns = dns_env }

abbrev pub resolver : Resolver
resolver = record {
  resolve = λ asked_at data'. ok (record { endpoint = endpoint; metadata = []; timeout = none });
}

abbrev pub fails : Resolver
fails = record { resolve = λ asked_at data'. err (ResolverError.not_found (codes "no") []) }
