-- ===== src/Tls/Laws.antt =====
-- What a connection of src/tls.rs is when there is a connector, and what a configuration demands.
use lane_switchboards.Base.{
  nat_eq, string_eq, String, ◌≡◌, refl, Bool, true, false, Option, none, some, sym,
}
use lane_switchboards.HashRing.Address.{host_from_addr}
use lane_switchboards.Frames.{ErrorKind, invalid_input, Io, done, error}
use lane_switchboards.Tls.{
  Rustls, MaybeTlsStream, connect, and_then, or_error, plain, tls_client, handshake, for_host,
  over_tcp,
}

pub same_done : {A : Type 0} (a b : A) → done a ≡ done b → a ≡ b
same_done a b e = cc

pub and_then-done :
    {A B : Type 0}
    → (r : Io A) (f : A → Io B) (b : B) → and_then r f ≡ done b
    → (a : A) × (r ≡ done a) × (f a ≡ done b)
unfolding and_then
and_then-done (error kind) f b e = cc
and_then-done (done a) f b e = (a, refl, e)

pub or_error-done :
    {A : Type 0} → (kind : ErrorKind) (o : Option A) (a : A) → or_error kind o ≡ done a → o ≡ some a
unfolding or_error
or_error-done kind none a e = cc
or_error-done kind (some x) a e = cc

module _ (lib : Rustls) where
  open lib use {Name, Roots, server_name, client_handshake, tcp_connect}

  -- What the stream is, by whether there was a connector.
  abbrev pub IsSecured : String → Bool → MaybeTlsStream lib → Type 0
  IsSecured addr false s = s ≡ plain
  IsSecured addr true s =
      (host : String) × (name : Name) × (host_from_addr addr ≡ some host)
      × (server_name host ≡ some name)
      × (client_handshake name ≡ done tt)
      × (s ≡ tls_client name)

  over_tcp-IsSecured :
      (addr : String) (connector : Bool) (s : MaybeTlsStream lib)
      → over_tcp lib addr connector ≡ done s
      → IsSecured addr connector s
  unfolding over_tcp for_host handshake
  over_tcp-IsSecured addr false s e = sym (same_done plain s e)
  over_tcp-IsSecured addr true s e =
      let (host, e1, e2) =
        and_then-done (or_error invalid_input (host_from_addr addr)) (for_host lib) s e in
      let (name, e3, e4) =
        and_then-done (or_error invalid_input (server_name host)) (handshake lib) s e2 in
      let (v, e5, e6) =
        and_then-done (client_handshake name) (λ (v : Unit {0}). done (tls_client name)) s e4 in
      (
        host,
        name,
        or_error-done invalid_input (host_from_addr addr) host e1,
        or_error-done invalid_input (server_name host) name e3,
        e5,
        sym (same_done (tls_client name) s e6),
      )

  -- A connection that is made with a connector is never plain: it is a TLS stream whose handshake
  -- succeeded, for the server name of the host part of the address. Without a connector it is plain.
  -- In both cases the TCP connection was made first.
  pub connect-IsSecured :
      (addr : String) (connector : Bool) (s : MaybeTlsStream lib)
      → connect lib addr connector ≡ done s
      → (tcp_connect addr ≡ done tt) × IsSecured addr connector s
  unfolding connect
  connect-IsSecured addr connector s e =
      let (u, e1, e2) =
        and_then-done (tcp_connect addr) (λ (u : Unit {0}). over_tcp lib addr connector) s e in
      (e1, over_tcp-IsSecured addr connector s e2)
