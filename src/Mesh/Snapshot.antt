-- ===== src/Mesh/Snapshot.antt =====
-- `apply_snapshot_diff` of src/mesh.rs against its specification: the mesh becomes the snapshot.
use mathlib.Core.Option
use lane_switchboards.Base.{
  nat_eq, string_eq, pair_eq, String, ◌≡◌, refl, ap, ◌∙◌, inl, inr, Option, none, some, List, [],
  ◌∷◌, if◌then◌else◌, Bool-cases, ◌==◌, All, Map, values, lookup, insert, ℕ, Bool, true, false, not,
  ◌&&◌, is_some, arith, keys, or_else,
}
use lane_switchboards.HashRing.{Hashing}
use lane_switchboards.HashRing.Address.{ok, parse_host_port}
use lane_switchboards.Cluster.{returns, PeerWriter, ClusterMember, Cluster}
use lane_switchboards.Mesh.{
  ServiceRecord, incoming_of, member, ServiceMesh, register_each, apply_snapshot_diff,
}
use lane_switchboards.Mesh.View.{instance_at, instance_at-none}
use lane_switchboards.Mesh.Routes.{is_at, register_instance-IsMesh}
use lane_switchboards.Mesh.Sound.{IsMesh}
use lane_switchboards.Mesh.Stale.{has_name, drop_stale-IsMesh}
use lane_switchboards.Mesh.Latest.{
  last_record, incoming_of-IsKeyed, last_record-values, lookup_fresh,
}

module _ (P : ServiceRecord → Type 0) where
  All-insert :
      (k : String × String) (r : ServiceRecord) (m : Map (String × String) ServiceRecord)
      → P r
      → All P (values m)
      → All P (values (insert k r m))
  unfolding insert
  All-insert k r [] p h = (p, tt)
  All-insert k r ((j, r') ∷ m) p h = elim (Bool-cases (j == k)) [
    | inl t ↦ rw t (p, h.1)
    | inr t ↦ rw t (h.0, All-insert k r m p h.1)
  ]

  All-incoming_of :
      (rs : List ServiceRecord) (m : Map (String × String) ServiceRecord)
      → All P rs
      → All P (values m)
      → All P (values (incoming_of rs m))
  unfolding incoming_of
  All-incoming_of [] m h h' = h'
  All-incoming_of (r ∷ rs) m h h' =
      All-incoming_of rs (insert (r.service, r.instance_id) r m) h.1
        (All-insert (r.service, r.instance_id) r m h.0 h')

-- The record's address has a port, and a host before it.
abbrev pub IsAddressed : ServiceRecord → Type 0
IsAddressed r = (a : String × ℕ) × (parse_host_port r.address ≡ ok a)

one_more :
    (r : ServiceRecord) (s i : String) (rest : Option ServiceRecord)
    (after before : Option ClusterMember)
    → after ≡ (if is_at r.service r.instance_id s i then some (member r) else before)
    → or_else (Option.map member rest) after
      ≡ or_else
          (Option.map member (elim rest [
            | none ↦ if is_at r.service r.instance_id s i then some r else none
            | some later ↦ some later
          ]))
          before
one_more r s i none after before e = elim (Bool-cases (is_at r.service r.instance_id s i)) [
  | inl t ↦ rw t (e ∙ rw t refl)
  | inr t ↦ rw t (e ∙ rw t refl)
]
one_more r s i (some later) after before e = refl

module _ {M : Type 0} (hs : Hashing) where
  register_each-IsMesh :
      (rs : List ServiceRecord) (mesh : ServiceMesh) (writers : List (PeerWriter M))
      → IsMesh mesh
      → All IsAddressed rs
      → (mesh' : ServiceMesh) × (writers' : List (PeerWriter M)) × (register_each hs rs mesh writers
          ≡ returns (mesh', writers'))
        × IsMesh mesh'
        × ((s i : String)
            → instance_at s i mesh'
              ≡ or_else (Option.map member (last_record s i rs)) (instance_at s i mesh))
  unfolding register_each
  register_each-IsMesh [] mesh writers h p = (mesh, writers, refl, h, λ s i. refl)
  register_each-IsMesh (r ∷ rs) mesh writers h p =
      let (a, e) = p.0 in
      let (mesh₁, displaced, writers₁, e1, h₁, v, gone) =
        register_instance-IsMesh hs r mesh writers a h e in
      let (mesh', writers', e2, h', v') = register_each-IsMesh rs mesh₁ writers₁ h₁ p.1 in
      (
        mesh',
        writers',
        rw (e1, register_each) e2,
        h',
        λ s i.
            v' s i
            ∙ one_more r s i (last_record s i rs) (instance_at s i mesh₁) (instance_at s i mesh)
                (v s i),
      )

-- The mesh after the snapshot: each key has the snapshot's last record of it.
snapshot_view :
    (s i : String) (last : Option ServiceRecord) (kept before after : Option ClusterMember)
    (services : Bool)
    → (services ≡ false → before ≡ none)
    → kept ≡ (if services && not (is_some last) then none else before)
    → after ≡ or_else (Option.map member last) kept
    → after ≡ Option.map member last
snapshot_view s i none kept before after true h e e' = e' ∙ e
snapshot_view s i none kept before after false h e e' = e' ∙ e ∙ h refl
snapshot_view s i (some r) kept before after services h e e' = e'

lookup-keys :
    (s : String) (routes : Map String Cluster)
    → has_name s (keys routes) ≡ false
    → lookup s routes ≡ none
unfolding lookup
lookup-keys s [] h = refl
lookup-keys s ((k, c) ∷ routes) h = elim (Bool-cases (k == s)) [
  | inl t ↦ absurd (ground arith)
  | inr t ↦ rw t (lookup-keys s routes (ground arith))
]

module _ {M : Type 0} (hs : Hashing) where
  -- `apply_snapshot_diff` makes the mesh the snapshot: it never panics on a sound mesh, where the
  -- address of each record parses, the mesh is sound afterwards, and a service has an instance
  -- exactly where the snapshot has a record of it, with that record's member; of two records of one
  -- instance the later counts. Nothing of the mesh before is left over.
  pub apply_snapshot_diff-IsMesh :
      (rs : List ServiceRecord) (mesh : ServiceMesh) (writers : List (PeerWriter M))
      → IsMesh mesh
      → All IsAddressed rs
      → (mesh' : ServiceMesh) × (writers' : List (PeerWriter M)) × (apply_snapshot_diff hs rs mesh
            writers
          ≡ returns (mesh', writers'))
        × IsMesh mesh'
        × ((s i : String) → instance_at s i mesh' ≡ Option.map member (last_record s i rs))
  unfolding apply_snapshot_diff
  apply_snapshot_diff-IsMesh rs mesh writers h p =
      let incoming = incoming_of rs [] in
      let (mesh₁, e1, h₁, v) = drop_stale-IsMesh hs incoming (keys mesh.routes) mesh h in
      let (mesh', writers', e2, h', v') =
        register_each-IsMesh hs (values incoming) mesh₁ writers h₁
          (All-incoming_of IsAddressed rs [] p tt) in
      let (unique, keyed) = incoming_of-IsKeyed rs [] tt tt in
      (
        mesh',
        writers',
        rw (e1, apply_snapshot_diff) e2,
        h',
        λ s i.
            let last : lookup (s, i) incoming ≡ last_record s i rs = lookup_fresh s i rs in
            let all : last_record s i (values incoming) ≡ last_record s i rs =
              last_record-values s i incoming unique keyed ∙ last in
            snapshot_view s i (last_record s i rs) (instance_at s i mesh₁) (instance_at s i mesh)
              (instance_at s i mesh') (has_name s (keys mesh.routes))
              (λ q. instance_at-none s i mesh (lookup-keys s mesh.routes q))
              (v s i
                ∙ ap
                    (λ o.
                      if has_name s (keys mesh.routes) && not (is_some o)
                      then none
                      else instance_at s i mesh)
                    last)
              (v' s i ∙ ap (λ o. or_else (Option.map member o) (instance_at s i mesh₁)) all),
      )
