-- ===== src/Mesh/Router.antt =====
-- The mesh of src/mesh.rs in step with a registry: `apply_to_mesh`, `sync_mesh`, `MeshRouter` and
-- `join_mesh`.
use lane_switchboards.Frames.{Io, done, error}
use lane_switchboards.Base.{nat_eq, string_eq, pair_eq, ℕ, String, Option, none, some, List}
use lane_switchboards.HashRing.{Hashing}
use lane_switchboards.Cluster.{PeerWriter, Call, panics, returns, Sent}
use lane_switchboards.Mesh.{
  ServiceRecord, ServiceMesh, new_mesh, register_instance, apply_snapshot_diff, invoke,
}
use lane_switchboards.Mesh.Registry.{MeshRegistry, list}
use lane_switchboards.Mesh.Control.{ControlJson}
use lane_switchboards.Mesh.Client.{
  Exchange, MeshRegistryClient, new_client, client_with_tls, register_with, list_from,
}

pub record MeshRouter : Type 0 where
  pub mesh : ServiceMesh
  pub client : Option MeshRegistryClient

unfoldable pub local : MeshRouter
unfolding new_mesh
local = record { mesh = new_mesh; client = none }

unfoldable pub with_registry : String → MeshRouter
unfolding new_mesh new_client
with_registry registry_addr = record { mesh = new_mesh; client = some (new_client registry_addr) }

unfoldable pub with_registry_tls : String → MeshRouter
unfolding new_mesh client_with_tls
with_registry_tls registry_addr = record {
  mesh = new_mesh;
  client = some (client_with_tls registry_addr);
}

module _ {M : Type 0} (hs : Hashing) where
  -- `MeshRegistry::apply_to_mesh`, the mesh being in the registry's own process.
  unfoldable pub apply_to_mesh :
      ℕ
      → MeshRegistry
      → ServiceMesh
      → List (PeerWriter M)
      → Call (ServiceMesh × List (PeerWriter M))
  unfolding list apply_snapshot_diff
  apply_to_mesh now reg mesh writers = apply_snapshot_diff hs (list now reg) mesh writers

  -- What the result of listing does to the mesh; an error leaves it.
  unfoldable pub apply_listed :
      MeshRegistryClient × Io (List ServiceRecord)
      → ServiceMesh
      → List (PeerWriter M)
      → Call (MeshRegistryClient × ServiceMesh × List (PeerWriter M) × Io Unit)
  unfolding apply_snapshot_diff
  apply_listed (client, error kind) mesh writers = returns (client, mesh, writers, error kind)
  apply_listed (client, done rs) mesh writers = elim (apply_snapshot_diff hs rs mesh writers) [
    | panics ↦ panics
    | returns (mesh', writers') ↦ returns (client, mesh', writers', done tt)
  ]

module _ {M : Type 0} (json : ControlJson) (hs : Hashing) where
  unfoldable pub sync_mesh :
      Exchange
      → ServiceMesh
      → List (PeerWriter M)
      → MeshRegistryClient
      → Call (MeshRegistryClient × ServiceMesh × List (PeerWriter M) × Io Unit)
  unfolding list_from apply_listed
  sync_mesh net mesh writers client = apply_listed hs (list_from json net client) mesh writers

  -- `MeshRouter::sync`: without a client there is nothing to do.
  unfoldable pub sync :
      Exchange
      → List (PeerWriter M)
      → MeshRouter
      → Call (MeshRouter × List (PeerWriter M) × Io Unit)
  unfolding sync_mesh
  sync net writers router = elim router.client [
    | none ↦ returns (router, writers, done tt)
    | some client ↦ elim (sync_mesh net router.mesh writers client) [
      | panics ↦ panics
      | returns (client', mesh', writers', result) ↦
          returns (record { mesh = mesh'; client = some client' }, writers', result)
    ]
  ]

  -- `MeshRouter::invoke`.
  unfoldable pub route_invoke :
      String
      → List ℕ
      → M
      → MeshRouter
      → List (PeerWriter M)
      → Option (Call (Sent × List (PeerWriter M)))
  unfolding invoke
  route_invoke service key msg router writers = invoke hs service key msg router.mesh writers

  -- `join_mesh`: into the local mesh first, then over a new connection into the registry, if there
  -- is one.
  unfoldable pub join_mesh :
      ServiceRecord
      → Option String
      → Exchange
      → ServiceMesh
      → List (PeerWriter M)
      → Call (ServiceMesh × List (PeerWriter M) × Io Unit)
  unfolding register_instance register_with new_client
  join_mesh r registry_addr net mesh writers = elim (register_instance hs r mesh writers) [
    | panics ↦ panics
    | returns (mesh', displaced, writers') ↦ returns (
      mesh',
      writers',
      elim registry_addr [
        | none ↦ done tt
        | some addr ↦ (register_with json r net (new_client addr)).1
      ],
    )
  ]
