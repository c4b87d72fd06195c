-- ===== src/Tls/Context/Verified.antt =====
-- Whom a server with a configuration for TLS accepts.
use protocol_proxy.Tls.Context.{
  TlsApi, load_certs, load_private_key, add_roots, build_verifier, rustls_server_config,
}
use protocol_proxy.Tls.{Tls, with_ciphers, with_min_protocol}
use protocol_proxy.Prelude.{
  [], ◌∷◌, some, true, false, ok, inl, inr, refl, Result-cases, arith, ℕ, ◌≡◌, subst, List,
  is_empty, Bytes,
}

module _ (R : TlsApi) where
  -- The roots are made of the certificates, all of them and in order.
  pub data Added : List R.Cert → R.Roots → R.Roots → Type 0 where
    all : (roots : R.Roots) → Added [] roots roots
    next :
        {cert : R.Cert} {certs : List R.Cert} {roots last : R.Roots} (added : R.Roots)
        → R.add cert roots ≡ ok added
        → Added certs added last
        → Added (cert ∷ certs) roots last

  add_roots-Added :
      (certs : List R.Cert) (roots last : R.Roots)
      → add_roots R certs roots ≡ ok last
      → Added certs roots last
  unfolding add_roots
  add_roots-Added [] roots last e = subst (Added [] roots) (ground arith) (all roots)
  add_roots-Added (cert ∷ certs) roots last e = elim (Result-cases (R.add cert roots)) [
    | inl (failure, failed) ↦ absurd (ground (arith, failed))
    | inr (added, worked) ↦
        next added worked (add_roots-Added certs added last (ground (arith, worked)))
  ]

  -- A configuration that verifies clients by the certificates of the CA file.
  pub record IsVerifying (tls : Tls) (config : R.ServerConfig) : Type 0 where
    pub certs : List R.Cert
    pub key : R.Key
    pub authorities : List R.Cert
    pub roots : R.Roots
    pub verifier : R.Verifier
    pub certs_of : load_certs R tls.certificate ≡ ok certs
    pub key_of : load_private_key R tls.key ≡ ok key
    pub authorities_of : load_certs R tls.ca ≡ ok authorities
    pub roots_of : Added authorities R.empty roots
    pub verifier_of : R.client_verifier roots ≡ ok verifier
    pub config_of : R.with_single_cert (some verifier) certs key ≡ ok config

  pub rustls_server_config-IsVerifying :
      (tls : Tls) (config : R.ServerConfig)
      → tls.require_client_cert ≡ true
      → is_empty tls.ca ≡ false
      → rustls_server_config R tls ≡ ok config
      → IsVerifying tls config
  unfolding rustls_server_config build_verifier
  rustls_server_config-IsVerifying tls config required given e =
      elim (Result-cases (load_certs R tls.certificate)) [
        | inl (x, failed) ↦ absurd (ground (arith, failed))
        | inr (certs, c) ↦ elim (Result-cases (load_private_key R tls.key)) [
          | inl (x, failed) ↦ absurd (ground (arith, c, failed))
          | inr (key, k) ↦ elim (Result-cases (load_certs R tls.ca)) [
            | inl (x, failed) ↦ absurd (ground (arith, c, k, required, given, failed))
            | inr (authorities, a) ↦ elim (Result-cases (add_roots R authorities R.empty)) [
              | inl (x, failed) ↦ absurd (ground (arith, c, k, required, given, a, failed))
              | inr (roots, r) ↦ elim (Result-cases (R.client_verifier roots)) [
                | inl (x, failed) ↦ absurd (ground (arith, c, k, required, given, a, r, failed))
                | inr (verifier, v) ↦ record {
                  certs = certs;
                  key = key;
                  authorities = authorities;
                  roots = roots;
                  verifier = verifier;
                  certs_of = c;
                  key_of = k;
                  authorities_of = a;
                  roots_of = add_roots-Added authorities R.empty roots r;
                  verifier_of = v;
                  config_of = ground (arith, c, k, required, given, a, r, v);
                }
              ]
            ]
          ]
        ]
      ]

  -- The ciphers and the minimum protocol of the settings change nothing in the configuration.
  rustls_server_config-ignores :
      (tls : Tls) (ciphers : Bytes) (min_protocol : ℕ)
      → rustls_server_config R (with_min_protocol (with_ciphers tls ciphers) min_protocol)
        ≡ rustls_server_config R tls
  unfolding rustls_server_config build_verifier with_ciphers with_min_protocol
  rustls_server_config-ignores tls ciphers min_protocol = refl
