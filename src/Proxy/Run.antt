-- ===== src/Proxy/Run.antt =====
-- The settings that rust/bins/proxy/src/main.rs makes of the environment for each server, and the exit code of a run.
-- The servers' runs are arguments, and so is the reading of a number of seconds, which is a float: what it gives is
-- the duration, with 0 for a negative number.
use protocol_proxy.Dns.{nanos_per_second}
use protocol_proxy.Http.Config as HttpSettings
use protocol_proxy.Smtp.Config as SmtpSettings
use protocol_proxy.Smtp.Config.{SmtpConfig}
use protocol_proxy.Http.Config.{
  default, HttpConfig, with_port, with_pool_size, with_http2, with_raw_backend,
}
use protocol_proxy.TcpServer.Config.{
  new, TcpConfig, with_tls, with_sockmap, with_workers, with_skip_validation, with_timeout,
  with_connect_timeout,
}
use protocol_proxy.Resolver.{Duration, Resolver}
use protocol_proxy.Tls.{Tls}
use protocol_proxy.Text.Trim.{trim_text}
use protocol_proxy.Proxy.{
  Vars, env_uint, build_tls, env_u16, env_bool, env_usize, Protocol, resolve_protocol, env_u64,
  build_resolver, Command,
}
use protocol_proxy.Prelude.{
  ◌>>=◌, [], ◌∷◌, none, some, false, ok, if◌then◌else◌, codes, ◌&&◌, Bytes, ℕ, Option, Result, List,
  ltb, unwrap_or, is_empty, true, err, ◌++◌, ◌*◌, map_err, not,
}

-- What a run of the program meets.
pub record ProxyEnv : Type 0 where
  pub vars : Vars
  pub cpus : ℕ
  pub parse_seconds : Bytes → Option Duration
  pub start_tcp : Resolver → TcpConfig → Result Bytes (Unit {0})
  pub start_http : Resolver → HttpConfig → Result Bytes (Unit {0})
  pub start_smtp : Resolver → SmtpConfig → Result Bytes (Unit {0})

unfoldable pub env_duration : ProxyEnv → Bytes → Duration → Duration
unfolding trim_text
env_duration env key default = elim (env.vars key) [
  | none ↦ default
  | some value ↦ unwrap_or (env.parse_seconds (trim_text value)) default
]

abbrev positive_ports : List ℕ → List ℕ
positive_ports [] = []
positive_ports (port ∷ ports) =
    if ltb 0 port then port ∷ positive_ports ports else positive_ports ports

-- The ports that are not 0, or the default ones.
unfoldable pub tcp_ports : Vars → List ℕ
unfolding env_uint
tcp_ports vars =
    let ports = positive_ports (
      env_u16 vars (codes "TCP_POSTGRES_PORT") 5432
      ∷ env_u16 vars (codes "TCP_MYSQL_PORT") 3306
      ∷ []) in
    if is_empty ports then 5432 ∷ 3306 ∷ [] else ports

abbrev with_tls_if : Option Tls → TcpConfig → TcpConfig
with_tls_if none c = c
with_tls_if (some tls) c = with_tls tls c

unfoldable pub tcp_config : ProxyEnv → Result Bytes TcpConfig
unfolding build_tls tcp_ports env_duration env_uint env_bool new with_workers with_skip_validation
    with_timeout with_connect_timeout with_sockmap with_tls
tcp_config env = do
  tls ← build_tls env.vars
  let sockmap_path = unwrap_or (env.vars (codes "TCP_SOCKMAP_BPF_OBJECT")) []
  let config =
      with_connect_timeout (env_duration env (codes "TCP_CONNECT_TIMEOUT") (5 * nanos_per_second)) (
        with_timeout (env_duration env (codes "TCP_TIMEOUT") (30 * nanos_per_second)) (
          with_skip_validation (env_bool env.vars (codes "TCP_SKIP_VALIDATION") false) (
            with_workers (env_usize env.vars (codes "TCP_WORKERS") env.cpus)
              (new env.cpus (tcp_ports env.vars)))))
  let relaying =
      if env_bool env.vars (codes "TCP_SOCKMAP_ENABLED") false && not (is_empty sockmap_path)
      then with_sockmap sockmap_path config
      else config
  ok (with_tls_if tls relaying)

unfoldable pub http_config : ProxyEnv → HttpConfig
unfolding env_uint env_bool default with_port HttpSettings.with_workers with_pool_size with_http2
    HttpSettings.with_skip_validation with_raw_backend
http_config env =
    let config = with_raw_backend (env_bool env.vars (codes "HTTP_RAW_BACKEND") false) (
      HttpSettings.with_skip_validation (env_bool env.vars (codes "HTTP_SKIP_VALIDATION") false) (
        with_http2 (env_bool env.vars (codes "HTTP_OPEN_HTTP2") false) (
          with_pool_size (env_usize env.vars (codes "HTTP_BACKEND_POOL_SIZE") 2048) (
            HttpSettings.with_workers (env_usize env.vars (codes "HTTP_WORKERS") (env.cpus * 2))
              (with_port (env_u16 env.vars (codes "HTTP_PORT") 8080) (default env.cpus)))))) in
    record config {
      keepalive_timeout = env_u64 env.vars (codes "HTTP_KEEPALIVE_TIMEOUT") 60;
      fast_path = env_bool env.vars (codes "HTTP_FAST_PATH") true;
    }

unfoldable pub smtp_config : ProxyEnv → SmtpConfig
unfolding env_uint env_bool SmtpSettings.default
smtp_config env = record (SmtpSettings.default env.cpus) {
  port = env_u16 env.vars (codes "SMTP_PORT") 25;
  workers = env_usize env.vars (codes "SMTP_WORKERS") (env.cpus * 2);
  skip_validation = env_bool env.vars (codes "SMTP_SKIP_VALIDATION") false;
}

-- `run_tcp`, `run_http` and `run_smtp`.
unfoldable pub run_server : ProxyEnv → Resolver → Protocol → Result Bytes (Unit {0})
unfolding tcp_config http_config smtp_config
run_server env resolver Protocol.tcp = do
  config ← tcp_config env
  map_err (λ e. codes "TCP server exited: " ++ e) (env.start_tcp resolver config)
run_server env resolver Protocol.http =
    map_err (λ e. codes "HTTP server exited: " ++ e) (env.start_http resolver (http_config env))
run_server env resolver Protocol.smtp =
    map_err (λ e. codes "SMTP server exited: " ++ e) (env.start_smtp resolver (smtp_config env))

abbrev exit_code : Result Bytes (Unit {0}) → ℕ
exit_code (ok done) = 0
exit_code (err message) = 1

-- The exit code of the program.
unfoldable pub main : ProxyEnv → Option Command → ℕ
unfolding resolve_protocol build_resolver run_server
main env command = elim (resolve_protocol env.vars command) [
  | err message ↦ 1
  | ok protocol ↦ exit_code (run_server env (build_resolver env.vars protocol).0 protocol)
]
