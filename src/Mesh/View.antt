-- ===== src/Mesh/View.antt =====
-- The mesh of src/mesh.rs as a map from a service and an identifier to the instance.
use lane_switchboards.Base.{
  nat_eq, string_eq, String, ◌≡◌, refl, ap, inl, inr, Option, none, some, List, [], ◌∷◌, arith,
  if◌then◌else◌, Bool-cases, Option-cases, ◌==◌, ==_iff, length, lookup, insert, remove,
  lookup-insert, lookup-remove,
}
use lane_switchboards.HashRing.{new}
use lane_switchboards.Cluster.{Cluster, ClusterMember, new_cluster, with_virtual_nodes, is_empty}
use lane_switchboards.Cluster.Find.{find_member}
use lane_switchboards.Mesh.{ServiceMesh, route_or_new}

-- The instance of an identifier that a service has.
abbrev pub instance_at : String → String → ServiceMesh → Option ClusterMember
instance_at service id mesh = elim (lookup service mesh.routes) [
  | none ↦ none
  | some c ↦ find_member id c.members
]

pub instance_at-some :
    (s i : String) (mesh : ServiceMesh) (c : Cluster)
    → lookup s mesh.routes ≡ some c
    → instance_at s i mesh ≡ find_member i c.members
instance_at-some s i mesh c e = rw (e, instance_at) refl

pub instance_at-none :
    (s i : String) (mesh : ServiceMesh) → lookup s mesh.routes ≡ none → instance_at s i mesh ≡ none
instance_at-none s i mesh e = rw (e, instance_at) refl

pub instance_at-insert :
    (service s i : String) (c : Cluster) (mesh : ServiceMesh)
    → instance_at s i (record { routes = insert service c mesh.routes })
      ≡ (if service == s then find_member i c.members else instance_at s i mesh)
instance_at-insert service s i c mesh = elim (Bool-cases (service == s)) [
  | inl t ↦
      let there : lookup s (insert service c mesh.routes) ≡ some c =
        ground (arith, lookup-insert service s c mesh.routes) in
      rw t (instance_at-some s i (record { routes = insert service c mesh.routes }) c there)
  | inr t ↦
      let same : lookup s (insert service c mesh.routes) ≡ lookup s mesh.routes =
        ground (arith, lookup-insert service s c mesh.routes) in
      rw t (ap (λ o. elim o [ none ↦ none | some k ↦ find_member i k.members ]) same)
]

pub instance_at-remove :
    (service s i : String) (mesh : ServiceMesh)
    → instance_at s i (record { routes = remove service mesh.routes })
      ≡ (if service == s then none else instance_at s i mesh)
instance_at-remove service s i mesh = elim (Bool-cases (service == s)) [
  | inl t ↦
      let there : lookup s (remove service mesh.routes) ≡ none =
        ground (arith, lookup-remove service s mesh.routes) in
      rw t (instance_at-none s i (record { routes = remove service mesh.routes }) there)
  | inr t ↦
      let same : lookup s (remove service mesh.routes) ≡ lookup s mesh.routes =
        ground (arith, lookup-remove service s mesh.routes) in
      rw t (ap (λ o. elim o [ none ↦ none | some k ↦ find_member i k.members ]) same)
]

find_member-empty :
    (i : String) (members : List ClusterMember) → length members ≡ 0 → find_member i members ≡ none
find_member-empty i [] h = refl
find_member-empty i (m ∷ members) h = absurd (omega (arith, h))

-- A roster without instances may go from the routes.
pub instance_at-swept :
    (service s i : String) (c : Cluster) (mesh : ServiceMesh)
    → length c.refs ≡ length c.members
    → instance_at s i (record {
      routes = if is_empty c then remove service mesh.routes else insert service c mesh.routes;
    })
      ≡ (if service == s then find_member i c.members else instance_at s i mesh)
unfolding is_empty
instance_at-swept service s i c mesh l = elim (Bool-cases (length c.refs == 0)) [
  | inl t ↦
      let gone = find_member-empty i c.members (ground (arith, l, ==_iff (length c.refs) 0)) in
      rw (t, gone, is_empty) (instance_at-remove service s i mesh)
  | inr t ↦ rw (t, is_empty) (instance_at-insert service s i c mesh)
]

pub find_member-route_or_new :
    (s i : String) (mesh : ServiceMesh)
    → find_member i (route_or_new s mesh).members ≡ instance_at s i mesh
unfolding route_or_new new_cluster with_virtual_nodes new
find_member-route_or_new s i mesh = elim (Option-cases (lookup s mesh.routes)) [
  | inl e ↦ rw (e, route_or_new, instance_at) refl
  | inr (c, e) ↦ rw (e, route_or_new, instance_at) refl
]
