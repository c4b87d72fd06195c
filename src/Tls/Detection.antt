-- ===== src/Tls/Detection.antt =====
-- Which settings `validate` accepts, and which packets ask for TLS.
use protocol_proxy.Bits.{mask_bit, bit_or-below}
use Prim.Native.Nat.{bit_or, bit_and}
use protocol_proxy.Prelude.{
  true, false, ok, arith, ◌==◌, ◌&&◌, ℕ, ◌≡◌, ◌↔◌, ◌<◌, Bytes, Bool, ◌/◌, ◌%◌, is_empty, ◌*◌, ◌^◌,
  ◌+◌, ◌∷◌, ◌≤◌, length, bytes_beq_iff,
}
use protocol_proxy.Tls.{
  validate, asks_client_ssl, Tls, is_mysql_ssl_request, is_postgresql_ssl_request, pg_ssl_request,
}

-- What `validate` asks of the settings: the certificate, the key and the CA, if there is one, are files, and
-- client certificates are required only with a CA.
pub record IsValid (is_file : Bytes → Bool) (t : Tls) : Type 0 where
  pub certificate : (is_empty t.certificate ≡ false) × (is_file t.certificate ≡ true)
  pub key : (is_empty t.key ≡ false) × (is_file t.key ≡ true)
  pub required : t.require_client_cert ≡ true → is_empty t.ca ≡ false
  pub ca : is_empty t.ca ≡ false → is_file t.ca ≡ true

validate-IsValid :
    (is_file : Bytes → Bool) (t : Tls) → validate is_file t ≡ ok tt → IsValid is_file t
unfolding validate
validate-IsValid is_file t e = record {
  certificate = (ground arith, ground arith);
  key = (ground arith, ground arith);
  required = λ r. ground arith;
  ca = λ given. ground arith;
}

IsValid-validate :
    (is_file : Bytes → Bool) (t : Tls) → IsValid is_file t → validate is_file t ≡ ok tt
unfolding validate
IsValid-validate is_file t v =
    let certificate = v.certificate in
    let key = v.key in let required = v.required in let ca = v.ca in ground arith

-- `validate` accepts exactly the settings whose certificate and key are files, whose CA is a file if it is
-- given, and which give a CA if client certificates are required.
validate_iff : (is_file : Bytes → Bool) (t : Tls) → (validate is_file t ≡ ok tt) ↔ IsValid is_file t
validate_iff is_file t = (validate-IsValid is_file t, IsValid-validate is_file t)

asks_client_ssl_lem :
    (sequence low high : ℕ)
    → low < 256
    → high < 256
    → asks_client_ssl sequence low high ≡ (sequence == 1 && high / 8 % 2 == 1)
unfolding asks_client_ssl
asks_client_ssl_lem sequence low high l h =
    let fits : high * 2 ^ 8 % 2 ^ 16 ≡ high * 256 = omega arith in
    let word : bit_or low (high * 2 ^ 8 % 2 ^ 16) ≡ high * 256 + low =
      rw fits (bit_or-below 8 high low l) in
    let mask : bit_and (bit_or low (high * 2 ^ 8 % 2 ^ 16)) 2048 ≡ high / 8 % 2 * 2048 =
      rw word (omega (arith, mask_bit (high * 256 + low) (omega arith))) in
    ground arith

-- A packet asks for TLS in the MySQL protocol exactly if it has at least 36 bytes, its sequence number is 1
-- and the fourth bit of its sixth byte, which is CLIENT_SSL, is set.
is_mysql_ssl_request_iff :
    (a b c sequence low high : ℕ) (rest : Bytes)
    → low < 256
    → high < 256
    → (is_mysql_ssl_request (a ∷ b ∷ c ∷ sequence ∷ low ∷ high ∷ rest) ≡ true)
      ↔ ((30 ≤ length rest) × (sequence ≡ 1) × (high / 8 % 2 ≡ 1))
unfolding is_mysql_ssl_request
is_mysql_ssl_request_iff a b c sequence low high rest l h =
    ground (arith, asks_client_ssl_lem sequence low high l h)

-- A packet is a PostgreSQL SSLRequest exactly if it is these eight bytes.
pub is_postgresql_ssl_request_iff :
    (data' : Bytes) → (is_postgresql_ssl_request data' ≡ true) ↔ (data' ≡ pg_ssl_request)
unfolding is_postgresql_ssl_request
is_postgresql_ssl_request_iff data' = ground (arith, bytes_beq_iff data' pg_ssl_request)
