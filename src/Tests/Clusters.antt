-- ===== src/Tests/Clusters.antt =====
-- A roster of one member and a mesh with one service, for the theorems on clusters and meshes.
use mathlib.Core.Path.{subst}
use lane_switchboards.Base.{
  nat_eq, string_eq, pair_eq, ℕ, zero, suc, ◌<◌, String, ◌≡◌, refl, false, some, List, [], ◌∷◌,
  arith, ==_iff, ==_refl, length, get_elem?, lookup, from_secs,
}
use lane_switchboards.Config.{default_distributed_config}
use lane_switchboards.Cluster.{Cluster, ClusterMember, RemoteActorRef, PeerWriter}
use lane_switchboards.Cluster.Roster.{IsRoster, IsPaired, IsNamed}
use lane_switchboards.HashRing.Replicas.{IsKeyed}
use lane_switchboards.Mesh.{ServiceRecord, ServiceMesh}
use lane_switchboards.Mesh.Sound.{IsMesh}
use lane_switchboards.Mesh.Registry.{MeshRegistry}
use lane_switchboards.Tests.Rings.{node_a}

abbrev pub member_a : ClusterMember
member_a = record { name = "a"; node_addr = "10.0.0.1:9001"; target = "worker" }

abbrev pub member_b : ClusterMember
member_b = record { name = "bb"; node_addr = "10.0.0.2:9002"; target = "worker" }

abbrev pub ref_a : RemoteActorRef
ref_a = record { node_addr = "10.0.0.1:9001"; target = "worker"; writer = 0 }

abbrev pub writers : List (PeerWriter ℕ)
writers = record { taken = []; gone = false } ∷ []

abbrev pub cluster_a : Cluster
cluster_a = record {
  members = member_a ∷ [];
  refs = ref_a ∷ [];
  refs_by_id = ("a", 0) ∷ [];
  ring = record { nodes = ("a", node_a) ∷ []; ring = (10, "a") ∷ []; virtual_nodes = 1 };
  next = 0;
  distributed_config = default_distributed_config;
}

member_a-at :
    (i : ℕ) (m : ClusterMember)
    → get_elem? (member_a ∷ []) i ≡ some m
    → lookup m.name (("a", 0) ∷ []) ≡ some i
unfolding lookup
member_a-at zero m e = ground (arith, ==_refl m.name)
member_a-at (suc i) m e = cc

member_a-named :
    (name : String) (i : ℕ)
    → lookup name (("a", 0) ∷ []) ≡ some i
    → (m : ClusterMember) × (get_elem? (member_a ∷ []) i ≡ some m) × (m.name ≡ name)
unfolding lookup
member_a-named name zero e = (member_a, refl, ground (arith, ==_iff "a" name))
member_a-named name (suc i) e = absurd (ground arith)

member_a-IsPaired : IsPaired (member_a ∷ []) (ref_a ∷ [])
member_a-IsPaired zero m r e e' = ground arith
member_a-IsPaired (suc i) m r e e' = cc

cluster_a-IsNamed : IsNamed cluster_a.ring cluster_a.refs_by_id
unfolding lookup
cluster_a-IsNamed name = ground arith

pub cluster_a-IsRoster : IsRoster cluster_a
cluster_a-IsRoster = (refl, (member_a-at, member_a-named), member_a-IsPaired, cluster_a-IsNamed)

pub cluster_a-IsKeyed : IsKeyed cluster_a.ring.nodes
unfolding lookup
cluster_a-IsKeyed id node e = ground (arith, ==_iff "a" id)

abbrev pub mesh_a : ServiceMesh
mesh_a = record { routes = ("orders", cluster_a) ∷ [] }

pub mesh_a-IsMesh : IsMesh mesh_a
unfolding lookup
mesh_a-IsMesh service c e =
    let same : cluster_a ≡ c = ground arith in
    subst (λ (x : Cluster). IsRoster x × (0 < length x.members)) same
      (cluster_a-IsRoster, omega arith)

abbrev pub record_b : ServiceRecord
record_b = record {
  service = "orders";
  instance_id = "bb";
  address = "10.0.0.2:9002";
  target = "worker";
  registered_at = 0;
}

abbrev pub registry_b : MeshRegistry
registry_b = record { records = (("orders", "bb"), record_b) ∷ []; ttl = from_secs 30 }
