-- ===== src/Examples/Web.antt =====
-- HTTP requests and requests for TLS.
use protocol_proxy.Http.Hosts.{is_valid_hostname-single}
use protocol_proxy.Tls.Detection.{is_postgresql_ssl_request_iff}
use protocol_proxy.Http.Names.{is_valid_hostname}
use protocol_proxy.Prelude.{true, refl, arith, codes, ◌≡◌, ◌↔◌, ℕ}
use protocol_proxy.Tls.{new, Tls, is_postgresql_ssl_request, pg_ssl_request}

is_valid_hostname-single_example : is_valid_hostname (codes "-bad-") ≡ true
is_valid_hostname-single_example = is_valid_hostname-single (codes "-bad-") refl (omega arith) refl

abbrev settings : Tls
settings = new (codes "cert.pem") (codes "key.pem")

abbrev sequence : ℕ
sequence = 1

abbrev high : ℕ
high = 8

is_postgresql_ssl_request_iff_example :
    (is_postgresql_ssl_request pg_ssl_request ≡ true) ↔ (pg_ssl_request ≡ pg_ssl_request)
is_postgresql_ssl_request_iff_example = is_postgresql_ssl_request_iff pg_ssl_request
