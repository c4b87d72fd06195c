-- ===== src/Tls/Context.antt =====
-- rust/crates/utopia-proxy/src/tls/context.rs: the server's configuration for TLS. Files and what rustls does with
-- their contents are arguments.
pub mod Verified
use protocol_proxy.Tls.{Tls}
use protocol_proxy.Prelude.{
  ◌>>=◌, [], ◌∷◌, none, some, ok, err, if◌then◌else◌, codes, ◌++◌, ◌&&◌, Bytes, Option, Result,
  List, map_err, not, is_empty, ok_or,
}

-- `File::open`, the readers of PEM files, the store of roots, the builder of a verifier of clients, and
-- `with_single_cert` after `with_client_cert_verifier`, where no verifier is `NoClientAuth`.
pub record TlsApi : Type 1 where
  pub Cert : Type 0
  pub Key : Type 0
  pub Roots : Type 0
  pub Verifier : Type 0
  pub ServerConfig : Type 0
  pub open_file : Bytes → Result Bytes Bytes
  pub certs : Bytes → Result Bytes (List Cert)
  pub private_key : Bytes → Result Bytes (Option Key)
  pub empty : Roots
  pub add : Cert → Roots → Result Bytes Roots
  pub client_verifier : Roots → Result Bytes Verifier
  pub with_single_cert : Option Verifier → List Cert → Key → Result Bytes ServerConfig

-- The message with the path and the error.
abbrev about : Bytes → Bytes → Bytes → Bytes
about what path e = what ++ (path ++ (codes ": " ++ e))

module _ (R : TlsApi) where
  unfoldable pub load_certs : Bytes → Result Bytes (List R.Cert)
  load_certs path = do
    file ← map_err (about (codes "open ") path) (R.open_file path)
    map_err (about (codes "parse certs from ") path) (R.certs file)

  unfoldable pub load_private_key : Bytes → Result Bytes R.Key
  load_private_key path = do
    file ← map_err (about (codes "open ") path) (R.open_file path)
    key ← map_err (about (codes "parse key from ") path) (R.private_key file)
    ok_or key (codes "no private key found in " ++ path)

  -- The loop that adds the certificates of the CA file.
  unfoldable pub add_roots : List R.Cert → R.Roots → Result Bytes R.Roots
  add_roots [] roots = ok roots
  add_roots (cert ∷ certs) roots =
      elim (map_err (λ e. codes "failed to add CA cert: " ++ e) (R.add cert roots)) [
        | err e ↦ err e
        | ok roots' ↦ add_roots certs roots'
      ]

  -- The verifier of clients, or none.
  unfoldable pub build_verifier : Tls → Result Bytes (Option R.Verifier)
  unfolding load_certs add_roots
  build_verifier tls =
      if tls.require_client_cert && not (is_empty tls.ca)
      then (do
        certs ← load_certs tls.ca
        roots ← add_roots certs R.empty
        verifier ←
            map_err (λ e. codes "failed to build client verifier: " ++ e) (R.client_verifier roots)
        ok (some verifier))
      else ok none

  unfoldable pub rustls_server_config : Tls → Result Bytes R.ServerConfig
  unfolding load_certs load_private_key build_verifier
  rustls_server_config tls = do
    certs ← load_certs tls.certificate
    key ← load_private_key tls.key
    verifier ← build_verifier tls
    map_err (λ e. codes "failed to install server cert: " ++ e)
        (R.with_single_cert verifier certs key)

  -- `build_tls_acceptor` of the TCP server, by whether it gives one.
  unfoldable pub build_tls_acceptor : Tls → Result Bytes (Unit {0})
  unfolding rustls_server_config
  build_tls_acceptor tls = do config ← rustls_server_config tls; ok tt
