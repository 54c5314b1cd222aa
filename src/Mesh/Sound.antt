-- ===== src/Mesh/Sound.antt =====
-- When the routes of the mesh in src/mesh.rs are sound, and the steps that keep them so.
use mathlib.Core.Path.{subst}
use lane_switchboards.Base.{
  nat_eq, string_eq, pair_eq, ℕ, zero, suc, ◌<◌, String, ◌≡◌, refl, ◌≢◌, ◌⊎◌, inl, inr, true, false,
  Option, none, some, List, [], ◌∷◌, arith, Bool-cases, Option-cases, ◌==◌, ==_iff, ==_refl, length,
  get_elem?, any, Map, is_some, lookup, insert, if◌then◌else◌, remove, lookup-insert, lookup-remove,
  sym,
}
use lane_switchboards.HashRing.{Hashing, new}
use lane_switchboards.Cluster.{
  Cluster, ClusterMember, returns, new_cluster, with_virtual_nodes, is_empty,
}
use lane_switchboards.Cluster.Find.{find_member, find_member-absent}
use lane_switchboards.Cluster.Index.{IsIndex}
use lane_switchboards.Cluster.Roster.{IsRoster, leave-IsRoster}
use lane_switchboards.Mesh.{ServiceMesh, route_or_new, displace}

-- The tables of each service's roster agree, and no service is without instances.
abbrev pub IsMesh : ServiceMesh → Type 0
IsMesh mesh =
    (service : String) (c : Cluster)
    → lookup service mesh.routes ≡ some c
    → IsRoster c × (0 < length c.members)

any-name :
    (id : String) (members : List ClusterMember)
    → ((i : ℕ) × (m : ClusterMember) × (get_elem? members i ≡ some m)
        × (m.name ≡ id)
        × (any (λ n. n.name == id) members ≡ true))
      ⊎ ((any (λ n. n.name == id) members ≡ false)
          × ((i : ℕ) (m : ClusterMember) → get_elem? members i ≡ some m → m.name ≢ id))
any-name id [] = inr (refl, λ i m e. cc)
any-name id (n ∷ members) = elim (Bool-cases (n.name == id)) [
  | inl t ↦ inl (zero, n, refl, ground (arith, ==_iff n.name id), rw t refl)
  | inr t ↦ elim (any-name id members) [
    | inl (i, m, e, e', e'') ↦ inl (suc i, m, e, e', rw t e'')
    | inr (e, none_) ↦ inr (
      rw t e,
      λ i m q.
          elim i as (λ k. get_elem? (n ∷ members) k ≡ some m → m.name ≢ id) [
            | zero ↦ λ w. ground (arith, ==_iff n.name id)
            | suc k ↦ λ w. none_ k m w
          ]
            q,
    )
  ]
]

any-index :
    (id : String) (members : List ClusterMember) (ids : Map String ℕ)
    → IsIndex members ids
    → any (λ n. n.name == id) members ≡ is_some (lookup id ids)
any-index id members ids (at, named) = elim (any-name id members) [
  | inl (i, m, e, e', e'') ↦ ground (arith, at i m e)
  | inr (e, none_) ↦ elim (Option-cases (lookup id ids)) [
    | inl q ↦ rw (e, q) refl
    | inr (i, q) ↦ let (m, w, w') = named id i q in absurd (none_ i m w w')
  ]
]

new_cluster-IsRoster : IsRoster new_cluster
unfolding new_cluster with_virtual_nodes new lookup
new_cluster-IsRoster = (refl, (λ i m e. cc, λ n i e. cc), λ i m r e. cc, λ n. refl)

pub route_or_new-IsRoster :
    (service : String) (mesh : ServiceMesh) → IsMesh mesh → IsRoster (route_or_new service mesh)
unfolding route_or_new
route_or_new-IsRoster service mesh h = elim (Option-cases (lookup service mesh.routes)) [
  | inl e ↦ rw (e, route_or_new) new_cluster-IsRoster
  | inr (c, e) ↦ rw (e, route_or_new) (h service c e).0
]

module _ (hs : Hashing) where
  pub displace-IsRoster :
      (id : String) (c : Cluster)
      → IsRoster c
      → (c' : Cluster) × (left : Option ClusterMember) × (displace hs id c ≡ returns (c', left))
        × IsRoster c'
        × (lookup id c'.refs_by_id ≡ none)
        × (left ≡ find_member id c.members)
        × ((n : String)
            → find_member n c'.members ≡ (if id == n then none else find_member n c.members))
  unfolding displace
  displace-IsRoster id c h =
      let there = any-index id c.members c.refs_by_id h.1 in
      elim (Option-cases (lookup id c.refs_by_id)) [
        | inl e ↦
            let no : any (λ n. n.name == id) c.members ≡ false = ground arith in
            let gone = find_member-absent c.members c.refs_by_id id h.1 e in
            (
              c,
              none,
              rw (no, displace) refl,
              h,
              e,
              sym gone,
              λ n. ground (arith, gone, ==_iff id n),
            )
        | inr (i, e) ↦
            let yes : any (λ n. n.name == id) c.members ≡ true = ground arith in
            let (c', left, e1, r, kept, e2, e3) = leave-IsRoster hs id c h in
            (c', left, rw (yes, displace) e1, r, ground (arith, kept id, ==_refl id), e2, e3)
      ]

pub insert-IsMesh :
    (service : String) (c : Cluster) (mesh : ServiceMesh)
    → IsRoster c
    → 0 < length c.members
    → IsMesh mesh
    → IsMesh (record { routes = insert service c mesh.routes })
insert-IsMesh service c mesh r l h s k q = elim (Bool-cases (service == s)) [
  | inl t ↦
      let same : c ≡ k = ground (arith, lookup-insert service s c mesh.routes) in
      subst (λ (x : Cluster). IsRoster x × (0 < length x.members)) same (r, l)
  | inr t ↦
      let old : lookup s mesh.routes ≡ some k =
        ground (arith, lookup-insert service s c mesh.routes) in
      h s k old
]

pub remove-IsMesh :
    (service : String) (mesh : ServiceMesh)
    → IsMesh mesh
    → IsMesh (record { routes = remove service mesh.routes })
remove-IsMesh service mesh h s k q =
    let old : lookup s mesh.routes ≡ some k = ground (arith, lookup-remove service s mesh.routes) in
    h s k old

module _ (hs : Hashing) where
  pub swept-IsMesh :
      (service : String) (c : Cluster) (mesh : ServiceMesh)
      → IsRoster c
      → IsMesh mesh
      → IsMesh (record {
        routes = if is_empty c then remove service mesh.routes else insert service c mesh.routes;
      })
  unfolding is_empty
  swept-IsMesh service c mesh r h = elim (Bool-cases (length c.refs == 0)) [
    | inl t ↦ rw (t, is_empty) (remove-IsMesh service mesh h)
    | inr t ↦
        rw (t, is_empty)
          (insert-IsMesh service c mesh r (ground (arith, ==_iff (length c.refs) 0)) h)
  ]
