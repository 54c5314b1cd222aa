-- ===== src/Mesh/Stale.antt =====
-- What the first half of `apply_snapshot_diff` in src/mesh.rs leaves on the mesh.
use lane_switchboards.Base.{
  nat_eq, string_eq, pair_eq, String, ◌≡◌, refl, inl, inr, Bool, true, false, not, none, List, [],
  ◌∷◌, map, arith, if◌then◌else◌, Bool-cases, ◌==◌, ==_iff, filter_by, any, Map, contains_key, sym,
  ap, ◌∙◌, ◌&&◌, Option, Option-cases, lookup, insert, remove,
}
use lane_switchboards.HashRing.{Hashing}
use lane_switchboards.Cluster.{returns, ClusterMember, Cluster, is_empty}
use lane_switchboards.Cluster.Find.{find_member}
use lane_switchboards.Cluster.Roster.{IsRoster, leave-IsRoster}
use lane_switchboards.Mesh.{ServiceRecord, leave_each, ServiceMesh, drop_stale}
use lane_switchboards.Mesh.View.{instance_at, instance_at-some, instance_at-none, instance_at-swept}
use lane_switchboards.Mesh.Sound.{IsMesh, swept-IsMesh}

-- Is the name on the list?
abbrev pub has_name : String → List String → Bool
has_name n = any (λ x. x == n)

module _ (hs : Hashing) where
  leave_each-IsRoster :
      (ids : List String) (c : Cluster)
      → IsRoster c
      → (c' : Cluster) × (leave_each hs ids c ≡ returns c')
        × IsRoster c'
        × ((n : String)
            → find_member n c'.members ≡ (if has_name n ids then none else find_member n c.members))
  unfolding leave_each
  leave_each-IsRoster [] c h = (c, refl, h, λ n. refl)
  leave_each-IsRoster (id ∷ ids) c h =
      let (c₁, left, e1, h₁, kept, e2, v) = leave-IsRoster hs id c h in
      let (c', e3, h', v') = leave_each-IsRoster ids c₁ h₁ in
      (c', rw (e1, leave_each) e3, h', λ n. ground (arith, v n, v' n))

module _ (service : String) (incoming : Map (String × String) ServiceRecord) where
  -- The names that the loop takes out of a service's roster.
  abbrev stale_ids : List ClusterMember → List String
  stale_ids members =
      map (λ m. m.name) (filter_by (λ m. not (contains_key (service, m.name) incoming)) members)

  stale_ids-wanted :
      (n : String) (members : List ClusterMember)
      → contains_key (service, n) incoming ≡ true
      → has_name n (stale_ids members) ≡ false
  stale_ids-wanted n [] h = refl
  stale_ids-wanted n (m ∷ members) h = elim (Bool-cases (contains_key (service, m.name) incoming)) [
    | inl t ↦ rw t (stale_ids-wanted n members h)
    | inr t ↦ elim (Bool-cases (m.name == n)) [
      | inl q ↦
          let same : contains_key (service, m.name) incoming ≡ true =
            rw ((==_iff m.name n).0 q) h in
          absurd (ground arith)
      | inr q ↦ rw (t, q) (stale_ids-wanted n members h)
    ]
  ]

  stale_ids-unwanted :
      (n : String) (members : List ClusterMember)
      → contains_key (service, n) incoming ≡ false
      → has_name n (stale_ids members) ≡ false
      → find_member n members ≡ none
  stale_ids-unwanted n [] h e = refl
  stale_ids-unwanted n (m ∷ members) h e = elim (Bool-cases (m.name == n)) [
    | inl q ↦
        let same : contains_key (service, m.name) incoming ≡ false = rw ((==_iff m.name n).0 q) h in
        absurd (ground arith)
    | inr q ↦ rw q (stale_ids-unwanted n members h (ground arith))
  ]

  -- The roster keeps those that the snapshot has.
  stale_ids_lem :
      (n : String) (members : List ClusterMember)
      → (if has_name n (stale_ids members) then none else find_member n members)
        ≡ (if contains_key (service, n) incoming then find_member n members else none)
  stale_ids_lem n members = elim (Bool-cases (contains_key (service, n) incoming)) [
    | inl t ↦ rw (t, stale_ids-wanted n members t) refl
    | inr t ↦ elim (Bool-cases (has_name n (stale_ids members))) [
      | inl q ↦ rw (t, q) refl
      | inr q ↦ rw (t, q) (stale_ids-unwanted n members t q)
    ]
  ]

stale_at :
    (incoming : Map (String × String) ServiceRecord) (service s i : String) (services : List String)
    (after before last : Option ClusterMember) (found : Option ClusterMember)
    → (service ≡ s → found ≡ before)
    → after ≡ (
        if service == s
        then (if contains_key (service, i) incoming then found else none)
        else before)
    → last ≡ (if has_name s services && not (contains_key (s, i) incoming) then none else after)
    → last ≡ (
        if has_name s (service ∷ services) && not (contains_key (s, i) incoming)
        then none
        else before)
stale_at incoming service s i services after before last found same e e' =
    elim (Bool-cases (service == s)) [
      | inr t ↦ rw t (
          e'
          ∙ ap (λ o. if has_name s services && not (contains_key (s, i) incoming) then none else o)
              (e ∙ rw t refl))
      | inl t ↦
          let eq : service ≡ s = (==_iff service s).0 t in
          let here : contains_key (service, i) incoming ≡ contains_key (s, i) incoming =
            rw eq refl in
          let old = same eq in
          elim (Bool-cases (contains_key (s, i) incoming)) [
            | inl q ↦ ground arith
            | inr q ↦ ground arith
          ]
    ]

no_route :
    (incoming : Map (String × String) ServiceRecord) (service s i : String) (services : List String)
    (before last : Option ClusterMember)
    → (service ≡ s → before ≡ none)
    → last ≡ (if has_name s services && not (contains_key (s, i) incoming) then none else before)
    → last ≡ (
        if has_name s (service ∷ services) && not (contains_key (s, i) incoming)
        then none
        else before)
no_route incoming service s i services before last gone e = elim (Bool-cases (service == s)) [
  | inr t ↦ rw t e
  | inl t ↦
      let old = gone ((==_iff service s).0 t) in
      elim (Bool-cases (contains_key (s, i) incoming)) [
        | inl q ↦ ground arith
        | inr q ↦ ground arith
      ]
]

module _ (hs : Hashing) (incoming : Map (String × String) ServiceRecord) where
  -- The loop over the services never panics on a sound mesh. Of each service on the list it keeps
  -- the instances that the snapshot has and no other.
  pub drop_stale-IsMesh :
      (services : List String) (mesh : ServiceMesh)
      → IsMesh mesh
      → (mesh' : ServiceMesh) × (drop_stale hs incoming services mesh ≡ returns mesh')
        × IsMesh mesh'
        × ((s i : String)
            → instance_at s i mesh' ≡ (
                if has_name s services && not (contains_key (s, i) incoming)
                then none
                else instance_at s i mesh))
  unfolding drop_stale
  drop_stale-IsMesh [] mesh h = (mesh, refl, h, λ s i. refl)
  drop_stale-IsMesh (service ∷ services) mesh h = elim (Option-cases (lookup service mesh.routes)) [
    | inl e ↦
        let (mesh', e1, h', v) = drop_stale-IsMesh services mesh h in
        (
          mesh',
          rw (e, drop_stale) e1,
          h',
          λ s i.
              no_route incoming service s i services (instance_at s i mesh) (instance_at s i mesh')
                (λ q. instance_at-none s i mesh (rw (sym q) e)) (v s i),
        )
    | inr (c, e) ↦
        let (c', e1, r, v) =
          leave_each-IsRoster hs (stale_ids service incoming c.members) c (h service c e).0 in
        let mesh₁ : ServiceMesh = record {
          routes =
              if is_empty c' then remove service mesh.routes else insert service c' mesh.routes;
        } in
        let (mesh', e2, h', v') =
          drop_stale-IsMesh services mesh₁ (swept-IsMesh hs service c' mesh r h) in
        (
          mesh',
          rw (e, e1, drop_stale) e2,
          h',
          λ s i.
              stale_at incoming service s i services (instance_at s i mesh₁) (instance_at s i mesh)
                (instance_at s i mesh') (find_member i c.members)
                (λ q. sym (instance_at-some s i mesh c (rw (sym q) e)))
                (instance_at-swept service s i c' mesh r.0
                  ∙ ap (λ o. if service == s then o else instance_at s i mesh)
                      (v i ∙ stale_ids_lem service incoming i c.members))
                (v' s i),
        )
  ]
