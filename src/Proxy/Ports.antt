-- ===== src/Proxy/Ports.antt =====
-- The ports of the TCP server are ports, and there is one.
use protocol_proxy.Http.Config.{
  with_workers, with_skip_validation, with_timeout, with_connect_timeout,
}
use protocol_proxy.Text.Trim.{trim_text}
use protocol_proxy.TcpServer.Config.{TcpConfig, with_sockmap, with_tls}
use protocol_proxy.Adapter.Route.{new}
use protocol_proxy.Proxy.Run.{tcp_ports, tcp_config, ProxyEnv}
use protocol_proxy.Proxy.{env_uint, Vars, env_bool}
use protocol_proxy.Text.Decimal.{parse_digits, parse_uint, u16_max}
use protocol_proxy.Prelude.{
  [], ◌∷◌, none, some, true, false, ok, inl, inr, Option-cases, arith, codes, ◌&&◌, ◌≡◌, ◌∙◌, ap,
  ◌≤◌, Bool, ℕ, Bytes, leb, ◌*◌, is_empty, ◌+◌, all, ◌-◌,
}

parse_digits-le :
    (most acc : ℕ) (s : Bytes) (n : ℕ) → acc ≤ most → parse_digits most acc s ≡ some n → n ≤ most
unfolding parse_digits
parse_digits-le most acc [] n h e = ground arith
parse_digits-le most acc (c ∷ cs) n h e =
    ground (arith, parse_digits-le most (acc * 10 + (c - b'0')) cs n)

parse_uint-le : (most : ℕ) (s : Bytes) (n : ℕ) → parse_uint most s ≡ some n → n ≤ most
unfolding parse_uint
parse_uint-le most [] n e = absurd (ground arith)
parse_uint-le most (c ∷ cs) n e =
    ground (arith, parse_digits-le most 0 (c ∷ cs) n, parse_digits-le most 0 cs n)

env_uint-le :
    (most : ℕ) (vars : Vars) (key : Bytes) (default : ℕ)
    → default ≤ most
    → env_uint most vars key default ≤ most
unfolding env_uint
env_uint-le most vars key default h = elim (Option-cases (vars key)) [
  | inl unset ↦ rw (unset, env_uint) h
  | inr (value, set) ↦
      rw (set, env_uint)
        (elim (Option-cases (parse_uint most (trim_text value))) [
          | inl unread ↦ rw unread h
          | inr (n, read) ↦ rw read (parse_uint-le most (trim_text value) n read)
        ])
]

-- A port from 1 to 65535.
abbrev pub in_range : ℕ → Bool
in_range port = leb 1 port && leb port 65535

tcp_ports-in_range :
    (vars : Vars) → (is_empty (tcp_ports vars) ≡ false) × (all in_range (tcp_ports vars) ≡ true)
unfolding tcp_ports
tcp_ports-in_range vars = ground (
  arith,
  env_uint-le u16_max vars (codes "TCP_POSTGRES_PORT") 5432,
  env_uint-le u16_max vars (codes "TCP_MYSQL_PORT") 3306,
)

tcp_config-made :
    (env : ProxyEnv) (config : TcpConfig)
    → tcp_config env ≡ ok config
    → (config.ports ≡ tcp_ports env.vars)
      × (config.adapter_factory ≡ none)
      × (config.skip_validation ≡ env_bool env.vars (codes "TCP_SKIP_VALIDATION") false)
unfolding tcp_config new with_workers with_skip_validation with_timeout with_connect_timeout
    with_sockmap with_tls
tcp_config-made env config e = ground arith

-- Whatever the environment holds, the settings that are made of it have a port at least, and only ports from 1 to
-- 65535; they have no adapter factory, and validation is skipped only as TCP_SKIP_VALIDATION says.
pub tcp_config-in_range :
    (env : ProxyEnv) (config : TcpConfig)
    → tcp_config env ≡ ok config
    → (is_empty config.ports ≡ false)
      × (all in_range config.ports ≡ true)
      × (config.adapter_factory ≡ none)
      × (config.skip_validation ≡ env_bool env.vars (codes "TCP_SKIP_VALIDATION") false)
tcp_config-in_range env config e =
    let (ports, factory, skip) = tcp_config-made env config e in
    let (some_port, ranges) = tcp_ports-in_range env.vars in
    (ap is_empty ports ∙ some_port, ap (all in_range) ports ∙ ranges, factory, skip)
