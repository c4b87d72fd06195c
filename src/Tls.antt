-- ===== src/Tls.antt =====
-- rust/crates/utopia-proxy/src/tls/mod.rs: the TLS settings, their validation, and the detection of requests
-- for TLS in the PostgreSQL and the MySQL protocol. Whether a path is a file is an argument.
-- Context is about tls/context.rs.
pub mod Detection
pub mod Context
use Prim.Native.Nat.{bit_and, bit_or}
use protocol_proxy.Prelude.{
  [], ◌∷◌, false, ok, err, if◌then◌else◌, codes, ◌++◌, ◌==◌, ◌&&◌, Bytes, ℕ, Result, Bool, is_empty,
  not, bytes_beq, ltb, length, ◌*◌, ◌^◌, ◌%◌,
}

abbrev pub pg_ssl_request : Bytes
pg_ssl_request = 0x00 ∷ 0x00 ∷ 0x00 ∷ 0x08 ∷ 0x04 ∷ 0xd2 ∷ 0x16 ∷ 0x2f ∷ []

abbrev pub mysql_client_ssl_flag : ℕ
mysql_client_ssl_flag = 0x0800

abbrev pub default_ciphers : Bytes
default_ciphers =
    codes
      "ECDHE-ECDSA-AES128-GCM-SHA256:ECDHE-RSA-AES128-GCM-SHA256:ECDHE-ECDSA-AES256-GCM-SHA384:ECDHE-RSA-AES256-GCM-SHA384:ECDHE-ECDSA-CHACHA20-POLY1305:ECDHE-RSA-CHACHA20-POLY1305:DHE-RSA-AES128-GCM-SHA256:DHE-RSA-AES256-GCM-SHA384"

abbrev pub min_tls_version : ℕ
min_tls_version = 32

pub record Tls : Type 0 where
  pub certificate : Bytes
  pub key : Bytes
  pub ca : Bytes
  pub require_client_cert : Bool
  pub ciphers : Bytes
  pub min_protocol : ℕ

unfoldable pub new : Bytes → Bytes → Tls
new certificate key = record {
  certificate = certificate;
  key = key;
  ca = [];
  require_client_cert = false;
  ciphers = default_ciphers;
  min_protocol = min_tls_version;
}

unfoldable pub with_ca : Tls → Bytes → Tls
with_ca t ca = record t { ca = ca }

unfoldable pub with_client_cert_required : Tls → Bool → Tls
with_client_cert_required t required = record t { require_client_cert = required }

unfoldable pub with_ciphers : Tls → Bytes → Tls
with_ciphers t ciphers = record t { ciphers = ciphers }

unfoldable pub with_min_protocol : Tls → ℕ → Tls
with_min_protocol t min_protocol = record t { min_protocol = min_protocol }

unfoldable pub validate : (Bytes → Bool) → Tls → Result Bytes (Unit {0})
validate is_file t =
    if is_empty t.certificate
    then err (codes "TLS certificate path is empty")
    else if not (is_file t.certificate)
    then err (codes "TLS certificate file not readable: " ++ t.certificate)
    else if is_empty t.key
    then err (codes "TLS key path is empty")
    else if not (is_file t.key)
    then err (codes "TLS private key file not readable: " ++ t.key)
    else if t.require_client_cert && is_empty t.ca
    then err
        (codes "CA certificate path is required when client certificate verification is enabled")
    else if not (is_empty t.ca) && not (is_file t.ca)
    then err (codes "TLS CA certificate file not readable: " ++ t.ca)
    else ok tt

unfoldable pub is_mutual : Tls → Bool
is_mutual t = t.require_client_cert && not (is_empty t.ca)

unfoldable pub is_postgresql_ssl_request : Bytes → Bool
unfolding bytes_beq
is_postgresql_ssl_request data' = length data' == 8 && bytes_beq data' pg_ssl_request

-- The test on the bytes at offsets 3, 4 and 5.
unfoldable pub asks_client_ssl : ℕ → ℕ → ℕ → Bool
asks_client_ssl sequence low high =
    if not (sequence == 1)
    then false
    else not (bit_and (bit_or low (high * 2 ^ 8 % 2 ^ 16)) mysql_client_ssl_flag == 0)

abbrev asks_at : Bytes → Bool
asks_at (a ∷ b ∷ c ∷ sequence ∷ low ∷ high ∷ rest) = asks_client_ssl sequence low high
asks_at data' = false

unfoldable pub is_mysql_ssl_request : Bytes → Bool
unfolding asks_client_ssl
is_mysql_ssl_request data' = if ltb (length data') 36 then false else asks_at data'
