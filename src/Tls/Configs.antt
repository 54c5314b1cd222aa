-- ===== src/Tls/Configs.antt =====
-- What a server configuration of src/tls.rs demands, and of whom.
use lane_switchboards.Base.{
  nat_eq, string_eq, String, ◌≡◌, refl, Bool, true, false, Option, none, some, if◌then◌else◌, List,
  List,
}
use lane_switchboards.Frames.{ErrorKind, invalid_data, done, error}
use lane_switchboards.Tls.{
  Rustls, PrivateKey, ServerConfig, with_single_cert, client_verifier, load_ca_store, load_certs,
  load_private_key, key_of, server_config_from_pem, for_clients, and_then,
}
use lane_switchboards.Tls.Laws.{same_done, and_then-done}

if_done :
    {A : Type 0}
    → (b : Bool) (kind : ErrorKind) (x y : A) → (if b then done x else error kind) ≡ done y
    → (b ≡ true) × (x ≡ y)
if_done true kind x y e = (refl, same_done x y e)
if_done false kind x y e = cc

module _ (lib : Rustls) where
  open lib use {Cert, Key, Roots, has_verifier, accepts_pair}

  -- The configuration that with_single_cert makes is of what it was given, which fits together.
  with_single_cert-done :
      (roots : Option Roots) (chain : List Cert) (key : PrivateKey Key) (config : ServerConfig lib)
      → with_single_cert lib roots chain key ≡ done config
      → (config.client_roots ≡ roots)
        × (config.cert_chain ≡ chain)
        × (config.key ≡ key)
        × (accepts_pair chain (key_of lib key) ≡ true)
  unfolding with_single_cert
  with_single_cert-done roots chain key config e =
      let (fits, same) =
        if_done (accepts_pair chain (key_of lib key)) invalid_data
          (record { client_roots = roots; cert_chain = chain; key = key }) config e in
      (cc, cc, cc, fits)

  client_verifier-done :
      (roots r : Roots)
      → client_verifier lib roots ≡ done r
      → (has_verifier roots ≡ true) × (roots ≡ r)
  unfolding client_verifier
  client_verifier-done roots r e = if_done (has_verifier roots) invalid_data roots r e

  -- Whom the configuration makes prove themselves, by whether there was a file of authorities.
  abbrev pub IsDemanded : Option String → Option Roots → Type 0
  IsDemanded none demanded = demanded ≡ none
  IsDemanded (some ca_path) demanded =
      (roots : Roots) × (load_ca_store lib ca_path ≡ done roots)
      × (has_verifier roots ≡ true)
      × (demanded ≡ some roots)

  for_clients-IsDemanded :
      (client_ca_path : Option String) (chain : List Cert) (key : PrivateKey Key)
      (config : ServerConfig lib)
      → for_clients lib client_ca_path chain key ≡ done config
      → IsDemanded client_ca_path config.client_roots
        × (config.cert_chain ≡ chain)
        × (config.key ≡ key)
        × (accepts_pair chain (key_of lib key) ≡ true)
  unfolding for_clients
  for_clients-IsDemanded none chain key config e = with_single_cert-done none chain key config e
  for_clients-IsDemanded (some ca_path) chain key config e =
      let (roots, e1, e2) =
        and_then-done (load_ca_store lib ca_path)
          (λ roots.
            and_then (client_verifier lib roots) (λ r. with_single_cert lib (some r) chain key))
          config e in
      let (r, e3, e4) =
        and_then-done (client_verifier lib roots) (λ r. with_single_cert lib (some r) chain key)
          config e2 in
      let (has, same) = client_verifier-done roots r e3 in
      let (demanded, of_chain, of_key, fits) = with_single_cert-done (some r) chain key config e4 in
      ((roots, e1, has, cc), of_chain, of_key, fits)

  -- A server configuration that is made from files demands a certificate of its clients exactly when
  -- a file of authorities was given, by those authorities and no other; it has the chain and the key
  -- of the two other files, and rustls takes that key for that chain.
  pub server_config-IsDemanded :
      (cert_path key_path : String) (client_ca_path : Option String) (config : ServerConfig lib)
      → server_config_from_pem lib cert_path key_path client_ca_path ≡ done config
      → IsDemanded client_ca_path config.client_roots
        × (load_certs lib cert_path ≡ done config.cert_chain)
        × (load_private_key lib key_path ≡ done config.key)
        × (accepts_pair config.cert_chain (key_of lib config.key) ≡ true)
  unfolding server_config_from_pem
  server_config-IsDemanded cert_path key_path client_ca_path config e =
      let (chain, e1, e2) =
        and_then-done (load_certs lib cert_path)
          (λ chain. and_then (load_private_key lib key_path) (for_clients lib client_ca_path chain))
          config e in
      let (key, e3, e4) =
        and_then-done (load_private_key lib key_path) (for_clients lib client_ca_path chain) config
          e2 in
      let (demanded, of_chain, of_key, fits) =
        for_clients-IsDemanded client_ca_path chain key config e4 in
      (demanded, cc, cc, cc)
