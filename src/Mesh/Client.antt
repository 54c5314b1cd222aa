-- ===== src/Mesh/Client.antt =====
-- The client of the control plane in src/mesh.rs: `MeshRegistryClient`. What the network does to
-- one request is an argument of it.
use lane_switchboards.Base.{
  nat_eq, string_eq, pair_eq, ℕ, String, Bool, true, false, Option, none, some, List, [], ◌++◌,
}
use lane_switchboards.Frames.{
  invalid_data, unexpected_eof, Tail, Read, got, ended, failed, Io, done, error,
}
use lane_switchboards.Mesh.{ServiceRecord}
use lane_switchboards.Mesh.Registry.{
  MeshControlMsg, register_msg, deregister_msg, list_msg, list_reply, ping, pong,
}
use lane_switchboards.Mesh.Control.{ControlJson, write_control, read_control}

-- What the network does during a request: whether it connects and takes the bytes, and what the
-- peer sends after the bytes that were written.
pub record Exchange : Type 0 where
  pub connect : Io Unit
  pub write : Io Unit
  pub peer : List ℕ → List ℕ × Tail

-- A connection is the bytes that have arrived on it and are not read yet; `tls` says whether there
-- is a connector.
pub record MeshRegistryClient : Type 0 where
  pub registry_addr : String
  pub stream : Option (List ℕ)
  pub tls : Bool

unfoldable pub new_client : String → MeshRegistryClient
new_client registry_addr = record { registry_addr = registry_addr; stream = none; tls = false }

unfoldable pub client_with_tls : String → MeshRegistryClient
client_with_tls registry_addr = record { registry_addr = registry_addr; stream = none; tls = true }

unfoldable pub invalidate : MeshRegistryClient → MeshRegistryClient
invalidate client = record client { stream = none }

-- The connection there is, or else a new one.
unfoldable pub conn : Exchange → MeshRegistryClient → MeshRegistryClient × Io (List ℕ)
conn net client = elim client.stream [
  | some unread ↦ (client, done unread)
  | none ↦ elim net.connect [
    | done u ↦ (record client { stream = some [] }, done [])
    | error kind ↦ (client, error kind)
  ]
]

-- The reply that was read; `Ok(None)` is the error that the registry closed.
unfoldable pub reply_of :
    MeshRegistryClient → Read MeshControlMsg × List ℕ → MeshRegistryClient × Io MeshControlMsg
reply_of client (got msg, rest) = (record client { stream = some rest }, done msg)
reply_of client (ended, rest) = (record client { stream = some rest }, error unexpected_eof)
reply_of client (failed kind, rest) = (record client { stream = some rest }, error kind)

-- `result.is_err()` invalidates the connection.
unfoldable pub settle :
    MeshRegistryClient × Io MeshControlMsg → MeshRegistryClient × Io MeshControlMsg
unfolding invalidate
settle (client, done msg) = (client, done msg)
settle (client, error kind) = (invalidate client, error kind)

module _ (json : ControlJson) where
  -- The request over a connection.
  unfoldable pub ask :
      MeshControlMsg
      → Exchange
      → MeshRegistryClient × Io (List ℕ)
      → MeshRegistryClient × Io MeshControlMsg
  unfolding write_control read_control reply_of
  ask msg net (client, error kind) = (client, error kind)
  ask msg net (client, done unread) = elim (write_control json msg) [
    | error kind ↦ (client, error kind)
    | done bytes ↦ elim net.write [
      | error kind ↦ (client, error kind)
      | done u ↦
          let (incoming, tail) = net.peer bytes in
          reply_of client (read_control json (unread ++ incoming) tail)
    ]
  ]

  unfoldable pub request :
      MeshControlMsg → Exchange → MeshRegistryClient → MeshRegistryClient × Io MeshControlMsg
  unfolding conn ask settle
  request msg net client = settle (ask msg net (conn net client))

-- The replies that `register` and `list` accept.
unfoldable pub as_pong : Io MeshControlMsg → Io Unit
as_pong (error kind) = error kind
as_pong (done pong) = done tt
as_pong (done (register_msg r)) = error invalid_data
as_pong (done (deregister_msg service instance_id)) = error invalid_data
as_pong (done list_msg) = error invalid_data
as_pong (done (list_reply rs)) = error invalid_data
as_pong (done ping) = error invalid_data

unfoldable pub as_list : Io MeshControlMsg → Io (List ServiceRecord)
as_list (error kind) = error kind
as_list (done (list_reply rs)) = done rs
as_list (done pong) = error invalid_data
as_list (done (register_msg r)) = error invalid_data
as_list (done (deregister_msg service instance_id)) = error invalid_data
as_list (done list_msg) = error invalid_data
as_list (done ping) = error invalid_data

module _ (json : ControlJson) where
  unfoldable pub register_with :
      ServiceRecord → Exchange → MeshRegistryClient → MeshRegistryClient × Io Unit
  unfolding request as_pong
  register_with r net client =
      let (client', reply) = request json (register_msg r) net client in (client', as_pong reply)

  -- Registering again renews the lease.
  unfoldable pub renew :
      ServiceRecord → Exchange → MeshRegistryClient → MeshRegistryClient × Io Unit
  unfolding register_with
  renew r net client = register_with r net client

  unfoldable pub list_from :
      Exchange → MeshRegistryClient → MeshRegistryClient × Io (List ServiceRecord)
  unfolding request as_list
  list_from net client =
      let (client', reply) = request json list_msg net client in (client', as_list reply)
