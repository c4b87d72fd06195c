-- ===== src/TcpServer/Config.antt =====
-- rust/crates/utopia-proxy/src/server/tcp/config.rs: the settings of the TCP server. An adapter factory is known by a
-- number.
use protocol_proxy.Dns.{nanos_per_second}
use protocol_proxy.Tls.{Tls}
use protocol_proxy.Resolver.{Duration}
use protocol_proxy.Prelude.{
  [], none, some, true, false, codes, Bytes, ℕ, Option, List, Bool, min, ◌*◌, is_some, ◌^◌, ◌-◌,
}

pub record TcpConfig : Type 0 where
  pub ports : List ℕ
  pub host : Bytes
  pub workers : ℕ
  pub max_connections : ℕ
  pub max_coroutine : ℕ
  pub socket_buffer_size : ℕ
  pub buffer_output_size : ℕ
  pub reactor_num : ℕ
  pub enable_reuse_port : Bool
  pub backlog : ℕ
  pub package_max_length : ℕ
  pub tcp_keepidle : ℕ
  pub tcp_keepinterval : ℕ
  pub tcp_keepcount : ℕ
  pub tcp_user_timeout_ms : ℕ
  pub tcp_quickack : Bool
  pub enable_coroutine : Bool
  pub max_wait_time : ℕ
  pub log_connections : Bool
  pub receive_buffer_size : ℕ
  pub gc_interval_ms : ℕ
  pub dns_cache_ttl : ℕ
  pub tcp_notsent_lowat : ℕ
  pub sockmap_enabled : Bool
  pub sockmap_bpf_object : Bytes
  pub timeout : Duration
  pub connect_timeout : Duration
  pub skip_validation : Bool
  pub cache_ttl : ℕ
  pub tls : Option Tls
  pub adapter_factory : Option ℕ

-- `saturating_mul(2)` on 32 bits.
unfoldable pub saturating_double : ℕ → ℕ
saturating_double n = min (n * 2) (2 ^ 32 - 1)

abbrev default_max_connections : ℕ
default_max_connections = 200000

-- `TcpConfig::new`, on a machine with so many processors.
unfoldable pub new : ℕ → List ℕ → TcpConfig
unfolding saturating_double
new cpus ports = record {
  ports = ports;
  host = codes "0.0.0.0";
  workers = cpus;
  max_connections = default_max_connections;
  max_coroutine = saturating_double default_max_connections;
  socket_buffer_size = 32 * 1024;
  buffer_output_size = 32 * 1024;
  reactor_num = cpus;
  enable_reuse_port = true;
  backlog = 65535;
  package_max_length = 32 * 1024 * 1024;
  tcp_keepidle = 30;
  tcp_keepinterval = 10;
  tcp_keepcount = 3;
  tcp_user_timeout_ms = 10000;
  tcp_quickack = true;
  enable_coroutine = true;
  max_wait_time = 60;
  log_connections = false;
  receive_buffer_size = 8192;
  gc_interval_ms = 5000;
  dns_cache_ttl = 60;
  tcp_notsent_lowat = 16384;
  sockmap_enabled = false;
  sockmap_bpf_object = [];
  timeout = 30 * nanos_per_second;
  connect_timeout = 5 * nanos_per_second;
  skip_validation = false;
  cache_ttl = 0;
  tls = none;
  adapter_factory = none;
}

unfoldable pub with_host : Bytes → TcpConfig → TcpConfig
with_host host c = record c { host = host }

unfoldable pub with_workers : ℕ → TcpConfig → TcpConfig
with_workers workers c = record c { workers = workers }

unfoldable pub with_reactor_num : ℕ → TcpConfig → TcpConfig
with_reactor_num reactor_num c = record c { reactor_num = reactor_num }

unfoldable pub with_max_connections : ℕ → TcpConfig → TcpConfig
with_max_connections max c = record c {
  max_connections = max;
  max_coroutine = saturating_double max;
}

unfoldable pub with_tls : Tls → TcpConfig → TcpConfig
with_tls tls c = record c { tls = some tls }

unfoldable pub with_skip_validation : Bool → TcpConfig → TcpConfig
with_skip_validation skip c = record c { skip_validation = skip }

unfoldable pub with_cache_ttl : ℕ → TcpConfig → TcpConfig
with_cache_ttl ttl_seconds c = record c { cache_ttl = ttl_seconds }

unfoldable pub with_timeout : Duration → TcpConfig → TcpConfig
with_timeout timeout c = record c { timeout = timeout }

unfoldable pub with_connect_timeout : Duration → TcpConfig → TcpConfig
with_connect_timeout timeout c = record c { connect_timeout = timeout }

unfoldable pub with_sockmap : Bytes → TcpConfig → TcpConfig
with_sockmap bpf_object c = record c { sockmap_enabled = true; sockmap_bpf_object = bpf_object }

unfoldable pub with_adapter_factory : ℕ → TcpConfig → TcpConfig
with_adapter_factory factory c = record c { adapter_factory = some factory }

-- True when TLS settings are attached.
unfoldable pub is_tls_enabled : TcpConfig → Bool
is_tls_enabled c = is_some c.tls
