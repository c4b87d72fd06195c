-- ===== src/Http/Config.antt =====
-- rust/crates/utopia-proxy/src/server/http/config.rs: the settings of the HTTP server. A request handler and a start
-- hook are known by numbers.
use protocol_proxy.Dns.{nanos_per_second}
use protocol_proxy.Resolver.{Duration}
use protocol_proxy.Prelude.{none, some, true, false, codes, Bytes, ℕ, Option, Bool, ◌*◌}

pub record HttpConfig : Type 0 where
  pub host : Bytes
  pub port : ℕ
  pub workers : ℕ
  pub max_connections : ℕ
  pub max_coroutine : ℕ
  pub socket_buffer_size : ℕ
  pub buffer_output_size : ℕ
  pub enable_coroutine : Bool
  pub max_wait_time : ℕ
  pub reactor_num : ℕ
  pub dispatch_mode : ℕ
  pub enable_reuse_port : Bool
  pub backlog : ℕ
  pub parse_post : Bool
  pub parse_cookie : Bool
  pub parse_files : Bool
  pub compression : Bool
  pub timeout : Duration
  pub connect_timeout : Duration
  pub keep_alive : Bool
  pub pool_size : ℕ
  pub pool_timeout : Duration
  pub fast_path : Bool
  pub fast_path_assume_ok : Bool
  pub fixed_backend : Option Bytes
  pub direct_response : Option Bytes
  pub direct_response_status : ℕ
  pub keepalive_timeout : ℕ
  pub http_protocol : Bool
  pub http2_protocol : Bool
  pub max_request : ℕ
  pub raw_backend : Bool
  pub raw_backend_assume_ok : Bool
  pub skip_validation : Bool
  pub cache_ttl : ℕ
  pub request_handler : Option ℕ
  pub worker_start : Option ℕ

-- `HttpConfig::default`, on a machine with so many processors.
unfoldable pub default : ℕ → HttpConfig
default cpus = record {
  host = codes "0.0.0.0";
  port = 80;
  workers = 16;
  max_connections = 100000;
  max_coroutine = 100000;
  socket_buffer_size = 2 * 1024 * 1024;
  buffer_output_size = 2 * 1024 * 1024;
  enable_coroutine = true;
  max_wait_time = 60;
  reactor_num = cpus * 2;
  dispatch_mode = 2;
  enable_reuse_port = true;
  backlog = 65535;
  parse_post = false;
  parse_cookie = false;
  parse_files = false;
  compression = false;
  timeout = 30 * nanos_per_second;
  connect_timeout = 5 * nanos_per_second;
  keep_alive = true;
  pool_size = 1024;
  pool_timeout = 1 * 1000000;
  fast_path = false;
  fast_path_assume_ok = false;
  fixed_backend = none;
  direct_response = none;
  direct_response_status = 200;
  keepalive_timeout = 60;
  http_protocol = true;
  http2_protocol = false;
  max_request = 0;
  raw_backend = false;
  raw_backend_assume_ok = false;
  skip_validation = false;
  cache_ttl = 60;
  request_handler = none;
  worker_start = none;
}

unfoldable pub with_host : Bytes → HttpConfig → HttpConfig
with_host host c = record c { host = host }

unfoldable pub with_port : ℕ → HttpConfig → HttpConfig
with_port port c = record c { port = port }

unfoldable pub with_workers : ℕ → HttpConfig → HttpConfig
with_workers workers c = record c { workers = workers }

unfoldable pub with_pool_size : ℕ → HttpConfig → HttpConfig
with_pool_size size c = record c { pool_size = size }

unfoldable pub with_pool_timeout : Duration → HttpConfig → HttpConfig
with_pool_timeout timeout c = record c { pool_timeout = timeout }

unfoldable pub with_timeout : Duration → HttpConfig → HttpConfig
with_timeout timeout c = record c { timeout = timeout }

unfoldable pub with_connect_timeout : Duration → HttpConfig → HttpConfig
with_connect_timeout timeout c = record c { connect_timeout = timeout }

unfoldable pub with_fixed_backend : Bytes → HttpConfig → HttpConfig
with_fixed_backend endpoint c = record c { fixed_backend = some endpoint }

unfoldable pub with_direct_response : Bytes → ℕ → HttpConfig → HttpConfig
with_direct_response body status c = record c {
  direct_response = some body;
  direct_response_status = status;
}

unfoldable pub with_raw_backend : Bool → HttpConfig → HttpConfig
with_raw_backend raw c = record c { raw_backend = raw }

unfoldable pub with_skip_validation : Bool → HttpConfig → HttpConfig
with_skip_validation skip c = record c { skip_validation = skip }

unfoldable pub with_cache_ttl : ℕ → HttpConfig → HttpConfig
with_cache_ttl seconds c = record c { cache_ttl = seconds }

unfoldable pub with_enable_reuse_port : Bool → HttpConfig → HttpConfig
with_enable_reuse_port enable c = record c { enable_reuse_port = enable }

unfoldable pub with_http2 : Bool → HttpConfig → HttpConfig
with_http2 enable c = record c { http2_protocol = enable }

unfoldable pub with_request_handler : ℕ → HttpConfig → HttpConfig
with_request_handler handler c = record c { request_handler = some handler }

unfoldable pub with_worker_start : ℕ → HttpConfig → HttpConfig
with_worker_start hook c = record c { worker_start = some hook }
