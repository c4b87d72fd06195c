-- ===== src/Smtp/Config.antt =====
-- rust/crates/utopia-proxy/src/server/smtp/config.rs: the settings of the SMTP server.
use protocol_proxy.Dns.{nanos_per_second}
use protocol_proxy.Resolver.{Duration}
use protocol_proxy.Prelude.{true, false, codes, Bytes, ℕ, Bool, ◌*◌}

abbrev pub default_port : ℕ
default_port = 25

pub record SmtpConfig : Type 0 where
  pub host : Bytes
  pub port : ℕ
  pub workers : ℕ
  pub max_connections : ℕ
  pub max_coroutine : ℕ
  pub socket_buffer_size : ℕ
  pub buffer_output_size : ℕ
  pub enable_coroutine : Bool
  pub max_wait_time : Duration
  pub timeout : Duration
  pub connect_timeout : Duration
  pub skip_validation : Bool
  pub cache_ttl : ℕ

-- `SmtpConfig::default`, on a machine with so many processors.
unfoldable pub default : ℕ → SmtpConfig
default cpus = record {
  host = codes "0.0.0.0";
  port = default_port;
  workers = cpus * 2;
  max_connections = 50000;
  max_coroutine = 50000;
  socket_buffer_size = 2 * 1024 * 1024;
  buffer_output_size = 2 * 1024 * 1024;
  enable_coroutine = true;
  max_wait_time = 60 * nanos_per_second;
  timeout = 30 * nanos_per_second;
  connect_timeout = 5 * nanos_per_second;
  skip_validation = false;
  cache_ttl = 60;
}
