-- ===== src/Tests/OnMeshes.antt =====
-- The theorems on what the parts of the mesh do together, at concrete inputs.
use mathlib.Core.Option
use lane_switchboards.Base.{
  nat_eq, string_eq, pair_eq, ℕ, String, ◌≡◌, refl, ◌⊎◌, inl, true, false, none, some, List, [],
  ◌∷◌, if◌then◌else◌,
}
use lane_switchboards.HashRing.Address.{parse_host_port}
use lane_switchboards.Cluster.{PeerWriter, returns}
use lane_switchboards.Mesh.{ServiceMesh, apply_snapshot_diff, member}
use lane_switchboards.Mesh.View.{instance_at}
use lane_switchboards.Mesh.Routes.{is_at}
use lane_switchboards.Mesh.Sound.{IsMesh}
use lane_switchboards.Mesh.Latest.{last_record}
use lane_switchboards.Frames.{ErrorKind, done, error, le_bytes}
use lane_switchboards.Mesh.Snapshot.{apply_snapshot_diff-IsMesh}
use lane_switchboards.Mesh.Registry.{
  MeshControlMsg, closed, list, list_msg, message, record_expired, register, register_msg, ping,
}
use lane_switchboards.Mesh.Keyed.{IsRegistry, live_record}
use lane_switchboards.Mesh.Control.{registry_turn, write_control}
use lane_switchboards.Mesh.Client.{MeshRegistryClient, request}
use lane_switchboards.Mesh.Router.{join_mesh, sync_mesh}
use lane_switchboards.Mesh.Wire.{IsIdle, served}
use lane_switchboards.Mesh.Server.{
  MeshRegistryServer, ServerEvent, accept_failed, accepted, arrived, run, ticked, bound,
}
use lane_switchboards.Mesh.Synced.{join_mesh-served, sync_mesh-served}
use lane_switchboards.Mesh.Request.{request-settled, IsAnswered}
use lane_switchboards.Mesh.Server.Turns.{run-IsRegistry}
use lane_switchboards.Tests.Meshes.{
  small_json, encode_control, small_json-IsControlCodec, registry_b-IsRegistry,
  record_b-IsAddressed, new_one,
}
use lane_switchboards.Tests.Rings.{adding}
use lane_switchboards.Tests.Clusters.{writers, mesh_a, mesh_a-IsMesh, record_b, registry_b}

abbrev server_b : MeshRegistryServer
server_b = record bound { registry = registry_b; connections = 1 ∷ [] }

abbrev interleaved : List ServerEvent
interleaved =
    accepted 2 true
    ∷ arrived 1 (message (register_msg record_b), 5, true)
    ∷ arrived 2 (message list_msg, 6, true)
    ∷ ticked 900
    ∷ arrived 1 (closed, 901, true)
    ∷ accept_failed
    ∷ arrived 2 (message ping, 902, false)
    ∷ []

apply_snapshot_diff-IsMesh_example :
    (mesh' : ServiceMesh) × (writers' : List (PeerWriter ℕ)) × (apply_snapshot_diff adding
        (record_b ∷ [])
        mesh_a
        writers
      ≡ returns (mesh', writers'))
    × IsMesh mesh'
    × ((s i : String) → instance_at s i mesh' ≡ Option.map member (last_record s i (record_b ∷ [])))
apply_snapshot_diff-IsMesh_example =
    apply_snapshot_diff-IsMesh adding (record_b ∷ []) mesh_a writers mesh_a-IsMesh
      (record_b-IsAddressed, tt)

sync_mesh-served_example :
    (client' : MeshRegistryClient) × (mesh' : ServiceMesh) × (writers' : List (PeerWriter ℕ))
    × (sync_mesh small_json adding (served small_json 10 registry_b) mesh_a writers new_one
        ≡ returns (client', mesh', writers', done tt))
    × IsIdle client'
    × IsMesh mesh'
    × ((s i : String) → instance_at s i mesh' ≡ Option.map member (live_record 10 s i registry_b))
unfolding write_control encode_control le_bytes list record_expired
sync_mesh-served_example =
    sync_mesh-served small_json adding 10 registry_b mesh_a writers new_one (1 ∷ 0 ∷ 0 ∷ 0 ∷ 1 ∷ [])
      (2 ∷ 0 ∷ 0 ∷ 0 ∷ 5 ∷ 0 ∷ []) small_json-IsControlCodec registry_b-IsRegistry mesh_a-IsMesh
      (record_b-IsAddressed, tt) (inl refl) refl refl

join_mesh-served_example :
    (mesh' : ServiceMesh) × (writers' : List (PeerWriter ℕ)) × (join_mesh small_json adding record_b
        (some "10.0.0.9:7000")
        (served small_json 10 registry_b)
        mesh_a
        writers
      ≡ returns (mesh', writers', done tt))
    × IsMesh mesh'
    × ((s i : String)
        → instance_at s i mesh' ≡ (
            if is_at record_b.service record_b.instance_id s i
            then some (member record_b)
            else instance_at s i mesh_a))
    × ((registry_turn small_json 10 (2 ∷ 0 ∷ 0 ∷ 0 ∷ 6 ∷ 0 ∷ []) registry_b).0
        ≡ register 10 record_b registry_b)
unfolding write_control encode_control le_bytes parse_host_port
join_mesh-served_example =
    join_mesh-served small_json adding 10 record_b "10.0.0.9:7000" registry_b mesh_a writers
      ("10.0.0.2", 9002) (2 ∷ 0 ∷ 0 ∷ 0 ∷ 6 ∷ 0 ∷ []) (1 ∷ 0 ∷ 0 ∷ 0 ∷ 2 ∷ [])
      small_json-IsControlCodec mesh_a-IsMesh refl refl refl

request-settled_example :
    ((kind : ErrorKind) × ((request small_json list_msg (served small_json 10 registry_b) new_one).1
        ≡ error kind)
      × ((request small_json list_msg (served small_json 10 registry_b) new_one).0.stream ≡ none))
    ⊎ ((reply : MeshControlMsg) × (unread : List ℕ) × ((request small_json list_msg
            (served small_json 10 registry_b)
            new_one).1
          ≡ done reply)
        × ((new_one.stream ≡ some unread) ⊎ ((new_one.stream ≡ none) × (unread ≡ [])))
        × IsAnswered small_json list_msg
            (served small_json 10 registry_b)
            unread
            reply
            (request small_json list_msg (served small_json 10 registry_b) new_one).0)
request-settled_example =
    request-settled small_json list_msg (served small_json 10 registry_b) new_one

run-IsRegistry_example : IsRegistry (run interleaved server_b).registry
run-IsRegistry_example = run-IsRegistry interleaved server_b registry_b-IsRegistry
