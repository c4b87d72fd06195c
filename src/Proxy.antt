-- ===== src/Proxy.antt =====
-- The program, rust/bins/proxy/src/main.rs: what it reads of the environment, the protocol that it serves, the
-- resolver and the settings for TLS. The rest is in Run.
pub mod Run
pub mod Ports
pub mod Defaults
use protocol_proxy.Text.Ascii.{to_ascii_lowercase}
use protocol_proxy.Tls.{new, with_ca, with_client_cert_required, Tls}
use protocol_proxy.Resolver.{fixed_resolver, new_fixed, Resolver}
use protocol_proxy.Text.Decimal.{u16_max, parse_uint}
use protocol_proxy.Text.Trim.{trim_text}
use protocol_proxy.Prelude.{
  [], none, some, true, false, ok, err, if◌then◌else◌, codes, ◌++◌, ◌||◌, Bytes, ℕ, Option, Result,
  Bool, bytes_beq, ◌^◌, is_empty, unwrap_or, ◌-◌, ok_or, not,
}

-- `env::var`, where it gives a text.
abbrev pub Vars : Type 0
Vars = Bytes → Option Bytes

pub data Protocol : Type 0 where
  tcp http smtp : Protocol

-- The subcommand, if one is given.
pub data Command : Type 0 where
  tcp http smtp : Command

unfoldable pub from_command : Option Command → Option Protocol
from_command none = none
from_command (some Command.tcp) = some Protocol.tcp
from_command (some Command.http) = some Protocol.http
from_command (some Command.smtp) = some Protocol.smtp

unfoldable pub parse_name : Bytes → Option Protocol
unfolding bytes_beq
parse_name name =
    let lower = to_ascii_lowercase name in
    if bytes_beq lower (codes "tcp")
    then some Protocol.tcp
    else if bytes_beq lower (codes "http")
    then some Protocol.http
    else if bytes_beq lower (codes "smtp")
    then some Protocol.smtp
    else none

unfoldable pub endpoint_env : Protocol → Bytes
endpoint_env Protocol.tcp = codes "TCP_BACKEND_ENDPOINT"
endpoint_env Protocol.http = codes "HTTP_BACKEND_ENDPOINT"
endpoint_env Protocol.smtp = codes "SMTP_BACKEND_ENDPOINT"

abbrev pub default_tcp_endpoint : Bytes
default_tcp_endpoint = codes "127.0.0.1:5432"

abbrev pub default_http_endpoint : Bytes
default_http_endpoint = codes "127.0.0.1:5678"

abbrev pub default_smtp_endpoint : Bytes
default_smtp_endpoint = codes "127.0.0.1:1025"

unfoldable pub endpoint_default : Protocol → Bytes
endpoint_default Protocol.tcp = default_tcp_endpoint
endpoint_default Protocol.http = default_http_endpoint
endpoint_default Protocol.smtp = default_smtp_endpoint

unfoldable pub label : Protocol → Bytes
label Protocol.tcp = codes "TCP"
label Protocol.http = codes "HTTP"
label Protocol.smtp = codes "SMTP"

abbrev is_true_text : Bytes → Bool
is_true_text text =
    bytes_beq text (codes "1")
    || bytes_beq text (codes "true")
    || bytes_beq text (codes "yes")
    || bytes_beq text (codes "on")

abbrev is_false_text : Bytes → Bool
is_false_text text =
    bytes_beq text (codes "0")
    || bytes_beq text (codes "false")
    || bytes_beq text (codes "no")
    || bytes_beq text (codes "off")
    || is_empty text

unfoldable pub env_bool : Vars → Bytes → Bool → Bool
unfolding bytes_beq trim_text
env_bool vars key default = elim (vars key) [
  | none ↦ default
  | some value ↦
      let text = to_ascii_lowercase (trim_text value) in
      if is_true_text text then true else if is_false_text text then false else default
]

-- `env_usize`, `env_u16` and `env_u64`, by the largest number of the type.
unfoldable pub env_uint : ℕ → Vars → Bytes → ℕ → ℕ
unfolding trim_text
env_uint most vars key default = elim (vars key) [
  | none ↦ default
  | some value ↦ unwrap_or (parse_uint most (trim_text value)) default
]

abbrev pub env_u16 : Vars → Bytes → ℕ → ℕ
env_u16 = env_uint u16_max

abbrev pub u64_max : ℕ
u64_max = 2 ^ 64 - 1

abbrev pub env_usize : Vars → Bytes → ℕ → ℕ
env_usize = env_uint u64_max

abbrev pub env_u64 : Vars → Bytes → ℕ → ℕ
env_u64 = env_uint u64_max

unfoldable pub env_string : Vars → Bytes → Bytes → Bytes
env_string vars key default = elim (vars key) [
  | none ↦ default
  | some value ↦ if is_empty value then default else value
]

abbrev unknown_protocol : Bytes → Bytes
unknown_protocol name =
    codes "Unknown protocol in PROXY_PROTOCOL: " ++ (name ++ codes " (expected tcp, http, or smtp)")

-- Without a subcommand, the variable's protocol; TCP where that is not set or empty.
abbrev protocol_of_env : Option Bytes → Result Bytes Protocol
protocol_of_env none = ok Protocol.tcp
protocol_of_env (some name) =
    if is_empty name then ok Protocol.tcp else ok_or (parse_name name) (unknown_protocol name)

unfoldable pub resolve_protocol : Vars → Option Command → Result Bytes Protocol
unfolding from_command parse_name
resolve_protocol vars command = elim (from_command command) [
  | some protocol ↦ ok protocol
  | none ↦ protocol_of_env (vars (codes "PROXY_PROTOCOL"))
]

-- The resolver and its description; a PHP file as resolver is only warned about.
unfoldable pub build_resolver : Vars → Protocol → Resolver × Bytes
unfolding endpoint_env endpoint_default env_string fixed_resolver new_fixed
build_resolver vars protocol =
    let endpoint = env_string vars (endpoint_env protocol) (endpoint_default protocol) in
    (fixed_resolver (new_fixed endpoint), codes "fixed (" ++ (endpoint ++ codes ")"))

unfoldable pub build_tls : Vars → Result Bytes (Option Tls)
unfolding env_bool with_ca with_client_cert_required new
build_tls vars =
    let certificate = unwrap_or (vars (codes "PROXY_TLS_CERT")) [] in
    let key = unwrap_or (vars (codes "PROXY_TLS_KEY")) [] in
    let ca = unwrap_or (vars (codes "PROXY_TLS_CA")) [] in
    let tls = if is_empty ca then new certificate key else with_ca (new certificate key) ca in
    if not (env_bool vars (codes "PROXY_TLS_ENABLED") false)
    then ok none
    else if is_empty certificate || is_empty key
    then err (codes "PROXY_TLS_ENABLED=true but PROXY_TLS_CERT and PROXY_TLS_KEY are required")
    else ok (
        some (
          with_client_cert_required tls
            (env_bool vars (codes "PROXY_TLS_REQUIRE_CLIENT_CERT") false)))
