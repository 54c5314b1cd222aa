-- ===== src/Tls.antt =====
-- src/tls.rs: connecting and accepting with or without TLS, and the configurations made from PEM
-- files. rustls, its PEM reader and webpki's roots are a parameter, and so are the network and the
-- file system.
pub mod Configs
pub mod Laws
use lane_switchboards.Base.{
  nat_eq, string_eq, ℕ, String, Bool, true, false, Option, none, some, List, [], ◌∷◌, if◌then◌else◌,
}
use lane_switchboards.HashRing.Address.{host_from_addr}
use lane_switchboards.Frames.{ErrorKind, invalid_data, invalid_input, Io, done, error}

unfoldable pub and_then : {A B : Type 0} → Io A → (A → Io B) → Io B
and_then (error kind) f = error kind
and_then (done a) f = f a

-- `ok_or_else` and `map_err` with a kind of error.
unfoldable pub or_error : {A : Type 0} → ErrorKind → Option A → Io A
or_error kind none = error kind
or_error kind (some a) = done a

-- What the code uses of rustls and of the PEM reader. `none` is an error of theirs; a PEM file may
-- have no key of a kind.
pub record Rustls : Type 1 where
  pub Cert : Type 0
  pub Key : Type 0
  pub Roots : Type 0
  pub Name : Type 0
  pub open_file : String → Io (List ℕ)
  pub certs : List ℕ → Option (List Cert)
  pub pkcs8_private_key : List ℕ → Option (Option Key)
  pub rsa_private_key : List ℕ → Option (Option Key)
  pub empty_roots : Roots
  pub add_root : Cert → Roots → Option Roots
  pub webpki_roots : Roots
  pub has_verifier : Roots → Bool
  pub accepts_pair : List Cert → Key → Bool
  pub server_name : String → Option Name
  pub tcp_connect : String → Io Unit
  pub client_handshake : Name → Io Unit
  pub server_handshake : Io Unit

-- The private key, by the format in which it was found.
pub data PrivateKey (Key : Type 0) : Type 0 where
  pkcs8 pkcs1 : Key → PrivateKey Key

module _ (lib : Rustls) where
  open lib use {
    Cert, Key, Roots, Name, open_file, certs, pkcs8_private_key, rsa_private_key, empty_roots,
    add_root, webpki_roots, has_verifier, accepts_pair, server_name, tcp_connect, client_handshake,
    server_handshake,
  }

  -- A TLS stream of a client has the name that its handshake was for.
  pub data MaybeTlsStream : Type 0 where
    plain tls_server : MaybeTlsStream
    tls_client : Name → MaybeTlsStream

  -- The handshake for a host, and what is done with the TCP stream once there is one.
  unfoldable pub handshake : Name → Io MaybeTlsStream
  unfolding and_then
  handshake name = and_then (client_handshake name) (λ v. done (tls_client name))

  unfoldable pub for_host : String → Io MaybeTlsStream
  unfolding and_then or_error handshake
  for_host host = and_then (or_error invalid_input (server_name host)) handshake

  unfoldable pub over_tcp : String → Bool → Io MaybeTlsStream
  unfolding and_then or_error for_host
  over_tcp addr false = done plain
  over_tcp addr true = and_then (or_error invalid_input (host_from_addr addr)) for_host

  unfoldable pub connect : String → Bool → Io MaybeTlsStream
  unfolding and_then over_tcp
  connect addr connector = and_then (tcp_connect addr) (λ u. over_tcp addr connector)

  unfoldable pub accept : Bool → Io MaybeTlsStream
  unfolding and_then
  accept false = done plain
  accept true = and_then server_handshake (λ u. done tls_server)

  unfoldable pub load_certs : String → Io (List Cert)
  unfolding and_then or_error
  load_certs path = and_then (open_file path) (λ bytes. or_error invalid_data (certs bytes))

  -- The RSA key of the file, which is opened again.
  unfoldable pub load_rsa_key : String → Io (PrivateKey Key)
  unfolding and_then or_error
  load_rsa_key path = and_then (open_file path) (λ bytes.
      and_then (or_error invalid_data (rsa_private_key bytes))
        (λ found. elim found [ none ↦ error invalid_data | some key ↦ done (pkcs1 key) ]))

  -- The first PKCS#8 key, or else the first RSA key.
  unfoldable pub load_private_key : String → Io (PrivateKey Key)
  unfolding and_then or_error load_rsa_key
  load_private_key path = and_then (open_file path) (λ bytes.
      and_then (or_error invalid_data (pkcs8_private_key bytes))
        (λ found. elim found [ none ↦ load_rsa_key path | some key ↦ done (pkcs8 key) ]))

  unfoldable pub add_each : List Cert → Roots → Io Roots
  unfolding and_then or_error
  add_each [] roots = done roots
  add_each (cert ∷ rest) roots =
      and_then (or_error invalid_data (add_root cert roots)) (add_each rest)

  unfoldable pub load_ca_store : String → Io Roots
  unfolding and_then load_certs add_each
  load_ca_store path = and_then (load_certs path) (λ chain. add_each chain empty_roots)

  unfoldable pub root_store_from_optional_ca : Option String → Io Roots
  unfolding load_ca_store
  root_store_from_optional_ca none = done webpki_roots
  root_store_from_optional_ca (some path) = load_ca_store path

  -- `client_roots` are those by which a client must prove itself, if it must.
  pub record ServerConfig : Type 0 where
    pub client_roots : Option Roots
    pub cert_chain : List Cert
    pub key : PrivateKey Key

  -- `identity` is what the client proves itself by, if it does.
  pub record ClientConfig : Type 0 where
    pub root_store : Roots
    pub identity : Option (List Cert × PrivateKey Key)

  abbrev pub key_of : PrivateKey Key → Key
  key_of (pkcs8 key) = key
  key_of (pkcs1 key) = key

  unfoldable pub with_single_cert : Option Roots → List Cert → PrivateKey Key → Io ServerConfig
  with_single_cert roots chain key =
      if accepts_pair chain (key_of key)
      then done (record { client_roots = roots; cert_chain = chain; key = key })
      else error invalid_data

  unfoldable pub client_verifier : Roots → Io Roots
  client_verifier roots = if has_verifier roots then done roots else error invalid_data

  -- The configuration for a chain and its key, by whether clients must prove themselves.
  unfoldable pub for_clients : Option String → List Cert → PrivateKey Key → Io ServerConfig
  unfolding and_then load_ca_store client_verifier with_single_cert
  for_clients none chain key = with_single_cert none chain key
  for_clients (some ca_path) chain key =
      and_then (load_ca_store ca_path)
        (λ roots. and_then (client_verifier roots) (λ r. with_single_cert (some r) chain key))

  unfoldable pub server_config_from_pem : String → String → Option String → Io ServerConfig
  unfolding and_then load_certs load_private_key for_clients
  server_config_from_pem cert_path key_path client_ca_path =
      and_then (load_certs cert_path)
        (λ chain. and_then (load_private_key key_path) (for_clients client_ca_path chain))

  -- The identity from the two paths, where both are given.
  unfoldable pub with_identity : Roots → Option String → Option String → Io ClientConfig
  unfolding and_then load_certs load_private_key
  with_identity roots (some cert_path) (some key_path) = and_then (load_certs cert_path) (λ chain.
      and_then (load_private_key key_path) (λ key.
        if accepts_pair chain (key_of key)
        then done (record { root_store = roots; identity = some (chain, key) })
        else error invalid_data))
  with_identity roots none key_path = done (record { root_store = roots; identity = none })
  with_identity roots (some cert_path) none = done (record { root_store = roots; identity = none })

  unfoldable pub client_config_from_pem :
      Option String → Option String → Option String → Io ClientConfig
  unfolding and_then root_store_from_optional_ca with_identity
  client_config_from_pem ca_path client_cert_path client_key_path =
      and_then (root_store_from_optional_ca ca_path)
        (λ roots. with_identity roots client_cert_path client_key_path)
