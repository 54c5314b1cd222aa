-- ===== src/Mesh/Synced.antt =====
-- The router of src/mesh.rs and its registry: what a sync and a join come to, end to end, and what
-- a failed request leaves of the connection.
use mathlib.Core.Option
use lane_switchboards.Frames.{Io, done}
use lane_switchboards.Base.{
  nat_eq, string_eq, pair_eq, ℕ, String, ◌≡◌, refl, ap, ◌∙◌, inl, inr, some, List, [],
  if◌then◌else◌, All,
}
use lane_switchboards.HashRing.{Hashing}
use lane_switchboards.HashRing.Address.{ok, parse_host_port}
use lane_switchboards.Cluster.{PeerWriter, returns}
use lane_switchboards.Mesh.{ServiceRecord, member, ServiceMesh}
use lane_switchboards.Mesh.View.{instance_at}
use lane_switchboards.Mesh.Sound.{IsMesh}
use lane_switchboards.Mesh.Routes.{is_at, register_instance-IsMesh}
use lane_switchboards.Mesh.Snapshot.{IsAddressed, apply_snapshot_diff-IsMesh}
use lane_switchboards.Mesh.Registry.{
  MeshRegistry, register, list, register_msg, list_msg, list_reply, pong, answer, MeshControlMsg,
}
use lane_switchboards.Mesh.Keyed.{IsRegistry, live_record, list-live_record}
use lane_switchboards.Mesh.Control.{ControlJson, write_control, registry_turn}
use lane_switchboards.Mesh.Client.{
  MeshRegistryClient, new_client, as_pong, as_list, register_with, list_from,
}
use lane_switchboards.Mesh.Router.{sync_mesh, apply_listed, join_mesh}
use lane_switchboards.Mesh.Wire.{
  IsControlCodec, served, IsIdle, registry_turn-answer, request-answer,
}

list_from-served :
    (json : ControlJson) (now : ℕ) (reg : MeshRegistry) (client : MeshRegistryClient)
    (asked listed : List ℕ)
    → IsControlCodec json
    → IsIdle client
    → write_control json list_msg ≡ done asked
    → write_control json (list_reply (list now reg)) ≡ done listed
    → list_from json (served json now reg) client
      ≡ (record client { stream = some [] }, done (list now reg))
unfolding list_from as_list answer
list_from-served json now reg client asked listed c idle w w' =
    ap (λ (q : MeshRegistryClient × Io MeshControlMsg). (q.0, as_list q.1))
      (request-answer json now list_msg (list_reply (list now reg)) reg reg asked listed client c
        refl w w' idle)

module _ {M : Type 0} (json : ControlJson) (hs : Hashing) where
  -- A sync of a router with a registry that is there, over a connection without unread replies or
  -- over a new one, succeeds and leaves the connection so. The mesh is sound afterwards, and it has
  -- exactly the instances whose leases run at that time, each with the member of its record. The
  -- mesh is sound before, the registry's records stand under their own keys, the addresses of the
  -- listed records parse, and the request and the reply can be written.
  pub sync_mesh-served :
      (now : ℕ) (reg : MeshRegistry) (mesh : ServiceMesh) (writers : List (PeerWriter M))
      (client : MeshRegistryClient) (asked listed : List ℕ)
      → IsControlCodec json
      → IsRegistry reg
      → IsMesh mesh
      → All IsAddressed (list now reg)
      → IsIdle client
      → write_control json list_msg ≡ done asked
      → write_control json (list_reply (list now reg)) ≡ done listed
      → (client' : MeshRegistryClient) × (mesh' : ServiceMesh) × (writers' : List (PeerWriter M))
        × (sync_mesh json hs (served json now reg) mesh writers client
            ≡ returns (client', mesh', writers', done tt))
        × IsIdle client'
        × IsMesh mesh'
        × ((s i : String) → instance_at s i mesh' ≡ Option.map member (live_record now s i reg))
  unfolding sync_mesh apply_listed
  sync_mesh-served now reg mesh writers client asked listed c r h p idle w w' =
      let listing = list_from-served json now reg client asked listed c idle w w' in
      let (mesh', writers', e, h', v) =
        apply_snapshot_diff-IsMesh hs (list now reg) mesh writers h p in
      (
        record client { stream = some [] },
        mesh',
        writers',
        ap (λ q. apply_listed hs q mesh writers) listing ∙ rw (e, apply_listed) refl,
        inr refl,
        h',
        λ s i. v s i ∙ ap (Option.map member) (list-live_record now s i reg r),
      )

  -- `join_mesh` with a registry that is there puts the instance into both: the call succeeds, the
  -- local mesh is sound and has the record's member, all else as before, and what is written to the
  -- registry registers the record there at the registry's own time.
  pub join_mesh-served :
      (now : ℕ) (r : ServiceRecord) (addr : String) (reg : MeshRegistry) (mesh : ServiceMesh)
      (writers : List (PeerWriter M)) (a : String × ℕ) (asked out : List ℕ)
      → IsControlCodec json
      → IsMesh mesh
      → parse_host_port r.address ≡ ok a
      → write_control json (register_msg r) ≡ done asked
      → write_control json pong ≡ done out
      → (mesh' : ServiceMesh) × (writers' : List (PeerWriter M)) × (join_mesh json hs r
            (some addr)
            (served json now reg)
            mesh
            writers
          ≡ returns (mesh', writers', done tt))
        × IsMesh mesh'
        × ((s i : String)
            → instance_at s i mesh' ≡ (
                if is_at r.service r.instance_id s i
                then some (member r)
                else instance_at s i mesh))
        × ((registry_turn json now asked reg).0 ≡ register now r reg)
  unfolding join_mesh register_with as_pong answer new_client
  join_mesh-served now r addr reg mesh writers a asked out c h e w w' =
      let reg' = register now r reg in
      let reply =
        request-answer json now (register_msg r) pong reg reg' asked out (new_client addr) c refl w
          w' (inl refl) in
      let turn =
        registry_turn-answer json now (register_msg r) pong reg reg' asked out c refl w w' in
      let (mesh', displaced, writers', e1, h', v, gone) =
        register_instance-IsMesh hs r mesh writers a h e in
      (
        mesh',
        writers',
        rw (e1, reply, join_mesh, register_with, as_pong) refl,
        h',
        v,
        ap (λ t. t.0) turn,
      )
