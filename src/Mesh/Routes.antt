-- ===== src/Mesh/Routes.antt =====
-- The routes of the mesh in src/mesh.rs stay sound as instances come and go.
use mathlib.Core.Path.{subst}
use lane_switchboards.Base.{
  nat_eq, string_eq, ◌&&◌, ap, Bool, pair_eq, ℕ, ◌<◌, String, ◌≡◌, refl, inl, inr, false, Option,
  none, some, List, [], ◌∷◌, ◌++◌, arith, Bool-cases, Option-cases, ◌==◌, ==_iff, length, is_some,
  lookup, insert, ◌∙◌, if◌then◌else◌, length-append, remove, sym, get_elem?-lt, get_elem?-some,
}
use lane_switchboards.HashRing.{Hashing}
use lane_switchboards.HashRing.Address.{ok, parse_host_port}
use lane_switchboards.Cluster.{Cluster, ClusterMember, PeerWriter, returns, is_empty}
use lane_switchboards.Cluster.Find.{
  find_member, find_member-absent, find_member-none, find_member-append,
}
use lane_switchboards.Mesh.View.{
  instance_at, instance_at-some, instance_at-none, instance_at-insert, instance_at-swept,
  find_member-route_or_new,
}
use lane_switchboards.Cluster.Roster.{IsRoster, join-IsRoster, leave-IsRoster}
use lane_switchboards.Mesh.{
  ServiceRecord, ServiceMesh, member, record_of, route_or_new, register_instance,
  deregister_instance,
}
use lane_switchboards.Mesh.Sound.{
  IsMesh, route_or_new-IsRoster, insert-IsMesh, displace-IsRoster, swept-IsMesh,
}

-- What a registration or a deregistration gives back: the record of the instance that went.
abbrev pub gone_record : String → Option ClusterMember → Option ServiceRecord
gone_record service none = none
gone_record service (some m) = some (record_of service m)

gone_record_lem :
    (service : String) (left : Option ClusterMember)
    → elim left [ none ↦ none | some m ↦ some (record_of service m) ] ≡ gone_record service left
gone_record_lem service none = refl
gone_record_lem service (some m) = refl

-- Is it this instance of this service?
abbrev pub is_at : String → String → String → String → Bool
is_at service id s i = service == s && id == i

registered :
    (r : ServiceRecord) (mesh : ServiceMesh) (before after : List ClusterMember) (s i : String)
    → find_member r.instance_id before ≡ none
    → after ≡ before ++ member r ∷ []
    → find_member i before
      ≡ (if r.instance_id == i then none else find_member i (route_or_new r.service mesh).members)
    → (if r.service == s then find_member i after else instance_at s i mesh)
      ≡ (if is_at r.service r.instance_id s i then some (member r) else instance_at s i mesh)
unfolding member
registered r mesh before after s i fresh e v = elim (Bool-cases (r.service == s)) [
  | inr t ↦ rw t refl
  | inl t ↦
      let same : r.service ≡ s = (==_iff r.service s).0 t in
      let put = find_member-append before (member r) i fresh in
      elim (Bool-cases (r.instance_id == i)) [
        | inl q ↦ rw (t, q, e) (put ∙ rw q refl)
        | inr q ↦
            rw (t, q, e)
              (put
                ∙ rw q (
                    v
                    ∙ rw q (
                        find_member-route_or_new r.service i mesh
                        ∙ ap (λ x. instance_at x i mesh) same)))
      ]
]

module _ {M : Type 0} (hs : Hashing) where
  -- `register` of a record whose address parses never panics on a sound mesh, and the mesh is sound
  -- afterwards. It puts the record's member under its service and identifier and leaves every other
  -- instance as it is; what it gives back is the record of the instance that it displaces, if any.
  pub register_instance-IsMesh :
      (r : ServiceRecord) (mesh : ServiceMesh) (writers : List (PeerWriter M)) (a : String × ℕ)
      → IsMesh mesh
      → parse_host_port r.address ≡ ok a
      → (mesh' : ServiceMesh) × (displaced : Option ServiceRecord) × (writers' : List
          (PeerWriter M))
        × (register_instance hs r mesh writers ≡ returns (mesh', displaced, writers'))
        × IsMesh mesh'
        × ((s i : String)
            → instance_at s i mesh' ≡ (
                if is_at r.service r.instance_id s i
                then some (member r)
                else instance_at s i mesh))
        × (displaced ≡ gone_record r.service (instance_at r.service r.instance_id mesh))
  unfolding register_instance member
  register_instance-IsMesh r mesh writers a h e =
      let c₀ = route_or_new r.service mesh in
      let (c, left, e1, ok1, fresh, e2, v) =
        displace-IsRoster hs r.instance_id c₀ (route_or_new-IsRoster r.service mesh h) in
      let (c', writers', e3, ok2, e4) = join-IsRoster hs (member r) c writers a ok1 fresh e in
      (
        record { routes = insert r.service c' mesh.routes },
        elim left [ none ↦ none | some m ↦ some (record_of r.service m) ],
        writers',
        rw (e1, e3, register_instance) refl,
        insert-IsMesh r.service c' mesh ok2
            (rw e4 (omega (arith, length-append c.members (member r ∷ [])))) h,
        λ s i.
            instance_at-insert r.service s i c' mesh
            ∙ registered r mesh c.members c'.members s i
                (find_member-absent c.members c.refs_by_id r.instance_id ok1.1 fresh) e4 (v i),
        gone_record_lem r.service left
            ∙ ap (gone_record r.service)
                (e2 ∙ find_member-route_or_new r.service r.instance_id mesh),
      )

-- A roster keeps a member when a name that it does not have leaves.
kept-nonempty :
    (id : String) (c c' : Cluster)
    → IsRoster c
    → IsRoster c'
    → ((n : String)
        → is_some (lookup n c'.refs_by_id)
          ≡ (if id == n then false else is_some (lookup n c.refs_by_id)))
    → lookup id c.refs_by_id ≡ none
    → 0 < length c.members
    → 0 < length c'.members
kept-nonempty id c c' (l, (at, named), p, n) (l', (at', named'), p', n') kept absent h =
    let (m, e) = get_elem?-some c.members 0 h in
    let mine : lookup m.name c.refs_by_id ≡ some 0 = at 0 m e in
    elim (Option-cases (lookup m.name c'.refs_by_id)) [
      | inl q ↦ absurd (ground (arith, kept m.name, ==_iff id m.name))
      | inr (i, q) ↦
          let (m', e', e'') = named' m.name i q in omega (arith, get_elem?-lt c'.members i e')
    ]

no_service :
    (service id s i : String) (mesh : ServiceMesh)
    → instance_at service i mesh ≡ none
    → instance_at s i mesh ≡ (if is_at service id s i then none else instance_at s i mesh)
no_service service id s i mesh gone = elim (Bool-cases (service == s)) [
  | inr t ↦ rw t refl
  | inl t ↦
      let here : instance_at s i mesh ≡ none =
        subst (λ (x : String). instance_at x i mesh ≡ none) ((==_iff service s).0 t) gone in
      rw (t, here) (ground arith)
]

deregistered :
    (service id s i : String) (mesh : ServiceMesh) (after : Option ClusterMember)
    → after ≡ (if id == i then none else instance_at service i mesh)
    → (if service == s then after else instance_at s i mesh)
      ≡ (if is_at service id s i then none else instance_at s i mesh)
deregistered service id s i mesh after e = elim (Bool-cases (service == s)) [
  | inr t ↦ rw t refl
  | inl t ↦
      rw t (e ∙ ap (λ x. if id == i then none else instance_at x i mesh) ((==_iff service s).0 t))
]

module _ (hs : Hashing) where
  -- `deregister` never panics on a sound mesh, and the mesh is sound afterwards: a service whose
  -- last instance went has no route. It takes out that one instance, if it is there, and gives its
  -- record back.
  pub deregister_instance-IsMesh :
      (service id : String) (mesh : ServiceMesh)
      → IsMesh mesh
      → (mesh' : ServiceMesh) × (gone : Option ServiceRecord) × (deregister_instance hs service id
            mesh
          ≡ returns (mesh', gone))
        × IsMesh mesh'
        × ((s i : String)
            → instance_at s i mesh' ≡ (if is_at service id s i then none else instance_at s i mesh))
        × (gone ≡ gone_record service (instance_at service id mesh))
  unfolding deregister_instance
  deregister_instance-IsMesh service id mesh h = elim (Option-cases (lookup service mesh.routes)) [
    | inl e ↦ (
      mesh,
      none,
      rw (e, deregister_instance) refl,
      h,
      λ s i. no_service service id s i mesh (instance_at-none service i mesh e),
      sym (ap (gone_record service) (instance_at-none service id mesh e)),
    )
    | inr (c, e) ↦
        let (c', left, e1, r, kept, e2, v) = leave-IsRoster hs id c (h service c e).0 in
        let here = instance_at-some service id mesh c e in
        let after : (i : String)
            → find_member i c'.members ≡ (if id == i then none else instance_at service i mesh) =
          λ i.
            v i
            ∙ ap (λ x. if id == i then none else x) (sym (instance_at-some service i mesh c e)) in
        let found : left ≡ instance_at service id mesh = e2 ∙ sym here in
        elim (Option-cases left) [
          | inl q ↦
              let absent : lookup id c.refs_by_id ≡ none =
                find_member-none c.members c.refs_by_id id (h service c e).0.1 (sym e2 ∙ q) in
              (
                record { routes = insert service c' mesh.routes },
                none,
                rw (e, e1, q, deregister_instance) refl,
                insert-IsMesh service c' mesh r
                    (kept-nonempty id c c' (h service c e).0 r kept absent (h service c e).1) h,
                λ s i.
                    instance_at-insert service s i c' mesh
                    ∙ deregistered service id s i mesh (find_member i c'.members) (after i),
                sym (ap (gone_record service) (sym found ∙ q)),
              )
          | inr (m, q) ↦ (
            record {
              routes =
                  if is_empty c' then remove service mesh.routes else insert service c' mesh.routes;
            },
            some (record_of service m),
            rw (e, e1, q, deregister_instance) refl,
            swept-IsMesh hs service c' mesh r h,
            λ s i.
                instance_at-swept service s i c' mesh r.0
                ∙ deregistered service id s i mesh (find_member i c'.members) (after i),
            sym (ap (gone_record service) (sym found ∙ q)),
          )
        ]
  ]
