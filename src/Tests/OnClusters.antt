-- ===== src/Tests/OnClusters.antt =====
-- The theorems on the roster and the mesh, at concrete inputs.
use lane_switchboards.Base.{
  nat_eq, string_eq, pair_eq, ℕ, ◌+◌, ◌≤◌, String, ◌≡◌, refl, ◌↔◌, false, Option, none, some, List,
  [], ◌∷◌, map, arith, if◌then◌else◌, ◌==◌, All, is_some, lookup, as_secs,
}
use lane_switchboards.HashRing.{clockwise, get_node, hash_key, write, finish}
use lane_switchboards.HashRing.Address.{parse_host_port}
use lane_switchboards.Cluster.Find.{find_member}
use lane_switchboards.Cluster.{
  Cluster, ClusterMember, PeerWriter, RemoteActorRef, leave, member_for_key, ref_for_key, returns,
  sent,
}
use lane_switchboards.Cluster.Roster.{IsRoster, leave-IsRoster}
use lane_switchboards.Cluster.Send.{Results, broadcast, send_all}
use lane_switchboards.Mesh.View.{instance_at}
use lane_switchboards.Mesh.{
  ServiceMesh, ServiceRecord, deregister_instance, member, register_instance,
}
use lane_switchboards.Mesh.Sound.{IsMesh}
use lane_switchboards.Mesh.Registry.{evict_expired, list, register}
use lane_switchboards.Cluster.Dispatch.{broadcast-results, ref_for_key-member}
use lane_switchboards.Mesh.Routes.{
  deregister_instance-IsMesh, register_instance-IsMesh, gone_record, is_at,
}
use lane_switchboards.Mesh.Lease.{list-evict_expired, register-lease, IsListed}
use lane_switchboards.Tests.Clusters.{
  cluster_a, writers, cluster_a-IsRoster, cluster_a-IsKeyed, mesh_a, mesh_a-IsMesh, record_b,
  registry_b,
}
use lane_switchboards.Tests.Rings.{adding, total, add_up, node_a}

leave-IsRoster_example :
    (c' : Cluster) × (left : Option ClusterMember) × (leave adding "a" cluster_a
      ≡ returns (c', left))
    × IsRoster c'
    × ((n : String)
        → is_some (lookup n c'.refs_by_id)
          ≡ (if "a" == n then false else is_some (lookup n cluster_a.refs_by_id)))
    × (left ≡ find_member "a" cluster_a.members)
    × ((n : String)
        → find_member n c'.members ≡ (if "a" == n then none else find_member n cluster_a.members))
leave-IsRoster_example = leave-IsRoster adding "a" cluster_a cluster_a-IsRoster

ref_for_key-member_example :
    (m : ClusterMember) × (r : RemoteActorRef) × (member_for_key adding (5 ∷ []) cluster_a ≡ some m)
    × (ref_for_key adding (5 ∷ []) cluster_a ≡ returns (some r))
    × (m.name ≡ node_a.id)
    × (r.node_addr ≡ m.node_addr)
    × (r.target ≡ m.target)
unfolding get_node clockwise hash_key finish write lookup total add_up
ref_for_key-member_example =
    ref_for_key-member adding (5 ∷ []) cluster_a node_a cluster_a-IsRoster cluster_a-IsKeyed refl

register_instance-IsMesh_example :
    (mesh' : ServiceMesh) × (displaced : Option ServiceRecord) × (writers' : List (PeerWriter ℕ))
    × (register_instance adding record_b mesh_a writers ≡ returns (mesh', displaced, writers'))
    × IsMesh mesh'
    × ((s i : String)
        → instance_at s i mesh' ≡ (
            if is_at record_b.service record_b.instance_id s i
            then some (member record_b)
            else instance_at s i mesh_a))
    × (displaced
        ≡ gone_record record_b.service (instance_at record_b.service record_b.instance_id mesh_a))
unfolding parse_host_port
register_instance-IsMesh_example =
    register_instance-IsMesh adding record_b mesh_a writers ("10.0.0.2", 9002) mesh_a-IsMesh refl

deregister_instance-IsMesh_example :
    (mesh' : ServiceMesh) × (gone : Option ServiceRecord) × (deregister_instance adding "orders" "a"
        mesh_a
      ≡ returns (mesh', gone))
    × IsMesh mesh'
    × ((s i : String)
        → instance_at s i mesh' ≡ (if is_at "orders" "a" s i then none else instance_at s i mesh_a))
    × (gone ≡ gone_record "orders" (instance_at "orders" "a" mesh_a))
deregister_instance-IsMesh_example =
    deregister_instance-IsMesh adding "orders" "a" mesh_a mesh_a-IsMesh

register-lease_example :
    IsListed
      (record record_b { registered_at = 1000 })
      (list 1020 (register 1000 record_b registry_b))
    ↔ (1020 ≤ 1000 + as_secs registry_b.ttl)
register-lease_example = register-lease 1000 1020 record_b registry_b

list-evict_expired_example : list 1020 (evict_expired 1000 registry_b) ≡ list 1020 registry_b
list-evict_expired_example = list-evict_expired 1000 1020 registry_b (omega arith)

broadcast-results_example :
    (results : Results) × (send_all 5 cluster_a writers
      ≡ (results, (broadcast 5 cluster_a writers).1))
    × (map (λ e. e.0) results ≡ map (λ m. m.name) cluster_a.members)
    × (((broadcast 5 cluster_a writers).0 ≡ sent) ↔ All (λ e. e.1 ≡ sent) results)
broadcast-results_example = broadcast-results 5 cluster_a writers cluster_a-IsRoster
