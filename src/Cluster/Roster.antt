-- ===== src/Cluster/Roster.antt =====
-- The tables of the roster in src/distributed.rs agree with each other.
use mathlib.Core.Path.{subst}
use lane_switchboards.Base.{
  nat_eq, string_eq, ℕ, String, ◌≡◌, refl, sym, inl, inr, none, some, List, [], ◌∷◌, ◌++◌, arith,
  if◌then◌else◌, ◌==◌, ==_iff, length, get_elem?, length-append, get_elem?-lt, Map, is_some, lookup,
  insert, lookup-insert, ◌-◌, ◌<◌, Option-cases, remove, lookup-remove, false, Option, ap,
}
use lane_switchboards.HashRing.{Hashing, RingNode, HashRing, add_node, remove_node}
use lane_switchboards.HashRing.Address.{ok, parse_host_port}
use lane_switchboards.Cluster.Index.{
  IsIndex, IsSwapped, get_elem?-append, append-IsIndex, reindex-at, reindex-named, reindex-keeps,
}
use lane_switchboards.Cluster.Find.{
  find_member, find_member-at, find_member-absent, find_member-swapped,
}
use lane_switchboards.Cluster.Swap.{swap_remove_lem}
use lane_switchboards.Cluster.{
  Cluster, ClusterMember, RemoteActorRef, PeerWriter, returns, enrol, join, leave, reindex,
  ring_node, remote_ref_with,
}

-- Each reference leads to the address and target of its member.
abbrev pub IsPaired : List ClusterMember → List RemoteActorRef → Type 0
IsPaired members refs =
    (i : ℕ) (m : ClusterMember) (r : RemoteActorRef)
    → get_elem? members i ≡ some m
    → get_elem? refs i ≡ some r
    → (r.node_addr ≡ m.node_addr) × (r.target ≡ m.target)

-- The ring has the names that the index has.
abbrev pub IsNamed : HashRing → Map String ℕ → Type 0
IsNamed ring refs_by_id =
    (name : String) → is_some (lookup name ring.nodes) ≡ is_some (lookup name refs_by_id)

abbrev pub IsRoster : Cluster → Type 0
IsRoster c =
    (length c.refs ≡ length c.members)
    × IsIndex c.members c.refs_by_id
    × IsPaired c.members c.refs
    × IsNamed c.ring c.refs_by_id

append-IsPaired :
    (members : List ClusterMember) (refs : List RemoteActorRef) (m : ClusterMember)
    (r : RemoteActorRef)
    → length refs ≡ length members
    → r.node_addr ≡ m.node_addr
    → r.target ≡ m.target
    → IsPaired members refs
    → IsPaired (members ++ m ∷ []) (refs ++ r ∷ [])
append-IsPaired members refs m r l a t p i m' r' e e' =
    ground (arith, get_elem?-append members m i, get_elem?-append refs r i, p i m' r')

swapped-IsPaired :
    (members rest : List ClusterMember) (refs refs' : List RemoteActorRef) (idx : ℕ)
    → length refs ≡ length members
    → IsSwapped idx members rest
    → IsSwapped idx refs refs'
    → IsPaired members refs
    → IsPaired rest refs'
swapped-IsPaired members rest refs refs' idx l (_, s) (_, s') p i m r e e' =
    ground (arith, s i, s' i, p i m r, p (length members - 1) m r)

module _ {M : Type 0} (hs : Hashing) where
  -- A member whose address parses and whose name is not on the roster joins without a panic; the
  -- tables of the roster agree as before, and the new member stands last in it.
  pub join-IsRoster :
      (m : ClusterMember) (c : Cluster) (writers : List (PeerWriter M)) (a : String × ℕ)
      → IsRoster c
      → lookup m.name c.refs_by_id ≡ none
      → parse_host_port m.node_addr ≡ ok a
      → (c' : Cluster) × (writers' : List (PeerWriter M)) × (join hs m c writers
          ≡ returns (c', writers'))
        × IsRoster c'
        × (c'.members ≡ c.members ++ m ∷ [])
  unfolding join enrol ring_node remote_ref_with add_node
  join-IsRoster m c writers (host, port) (l, ix, p, n) fresh e = (
    enrol hs (record { id = m.name; host = host; port = port }) m (remote_ref_with m writers).0 c,
    (remote_ref_with m writers).1,
    rw (e, ring_node, join) refl,
    (
      omega (arith, l, length-append c.refs _, length-append c.members _),
      subst (λ k. IsIndex (c.members ++ m ∷ []) (insert m.name k c.refs_by_id)) (sym l)
          (append-IsIndex c.members c.refs_by_id m fresh ix),
      append-IsPaired c.members c.refs m _ l refl refl p,
      λ name. ground (
        arith,
        n name,
        lookup-insert m.name name (length c.refs) c.refs_by_id,
        lookup-insert m.name name (record { id = m.name; host = host; port = port }) c.ring.nodes,
      ),
    ),
    refl,
  )

same_member :
    (c : Cluster) (name : String) (idx : ℕ) (gone : ClusterMember)
    → IsIndex c.members c.refs_by_id
    → lookup name c.refs_by_id ≡ some idx
    → get_elem? c.members idx ≡ some gone
    → some gone ≡ find_member name c.members
same_member c name idx gone ix found e =
    let (m, e1, e2) = ix.1 name idx found in
    let same : m ≡ gone = ground arith in
    let called : gone.name ≡ name = ground arith in
    sym (
      subst (λ (n : String). find_member n c.members ≡ some gone) called
        (find_member-at c.members c.refs_by_id idx gone ix e))

module _ (hs : Hashing) where
  remove_node_absent :
      (name : String) (r : HashRing)
      → lookup name r.nodes ≡ none
      → remove_node hs name r ≡ (r, none)
  unfolding remove_node
  remove_node_absent name r e = rw (e, remove_node) refl

  remove_node_present :
      (name : String) (r : HashRing) (node : RingNode)
      → lookup name r.nodes ≡ some node
      → ((remove_node hs name r).1 ≡ some node)
        × ((remove_node hs name r).0.nodes ≡ remove name r.nodes)
  unfolding remove_node
  remove_node_present name r node e = (rw (e, remove_node) refl, rw (e, remove_node) refl)

  -- `leave` never panics on a roster whose tables agree, and they agree afterwards. The name is
  -- gone from the index and no other name is lost. The member that is given back is the one of the
  -- name, if there is one, and each other name keeps its member.
  pub leave-IsRoster :
      (name : String) (c : Cluster)
      → IsRoster c
      → (c' : Cluster) × (left : Option ClusterMember) × (leave hs name c ≡ returns (c', left))
        × IsRoster c'
        × ((n : String)
            → is_some (lookup n c'.refs_by_id)
              ≡ (if name == n then false else is_some (lookup n c.refs_by_id)))
        × (left ≡ find_member name c.members)
        × ((n : String)
            → find_member n c'.members ≡ (if name == n then none else find_member n c.members))
  unfolding leave
  leave-IsRoster name c (l, ix, p, n) = elim (Option-cases (lookup name c.refs_by_id)) [
    | inl absent ↦
        let gone : lookup name c.ring.nodes ≡ none = ground (arith, n name) in
        let same = remove_node_absent name c.ring gone in
        (
          c,
          none,
          rw (same, leave)
              (ap (λ (z : HashRing × Option RingNode). returns (record c { ring = z.0 }, none))
                same),
          (l, ix, p, n),
          λ m. ground (arith, ==_iff name m),
          sym (find_member-absent c.members c.refs_by_id name ix absent),
          λ m.
              ground
                (arith, ==_iff name m, find_member-absent c.members c.refs_by_id name ix absent),
        )
    | inr (idx, found) ↦
        let (node, at) : (node : RingNode) × (lookup name c.ring.nodes ≡ some node) =
          elim (Option-cases (lookup name c.ring.nodes)) [
            | inl e ↦ absurd (ground (arith, n name))
            | inr e ↦ e
          ] in
        let (e1, e2) = remove_node_present name c.ring node at in
        let (m, e3, e4) = ix.1 name idx found in
        let lt : idx < length c.members = get_elem?-lt c.members idx e3 in
        let (gone, members, e5, e6, e7, e8) = swap_remove_lem idx c.members lt in
        let (r, refs, e9, e10, e11, e12) = swap_remove_lem idx c.refs (omega (arith, l, lt)) in
        let ids = reindex idx members (remove name c.refs_by_id) in
        let kept : (k : String)
            → is_some (lookup k ids)
              ≡ (if name == k then false else is_some (lookup k c.refs_by_id)) =
          λ k. reindex-keeps c.members members c.refs_by_id name idx ix found (e7, e8) k in
        (
          record c {
            ring = (remove_node hs name c.ring).0;
            refs = refs;
            members = members;
            refs_by_id = ids;
          },
          some gone,
          rw (e1, found, e9, e5, leave) refl,
          (
            omega (arith, l, e7, e11),
            (
              reindex-at c.members members c.refs_by_id name idx ix found (e7, e8),
              reindex-named c.members members c.refs_by_id name idx ix found (e7, e8),
            ),
            swapped-IsPaired c.members members c.refs refs idx l (e7, e8) (e11, e12) p,
            λ k. ground (arith, kept k, n k, e2, lookup-remove name k c.ring.nodes),
          ),
          kept,
          same_member c name idx gone ix found e6,
          find_member-swapped c.members members c.refs_by_id name idx ix found (e7, e8),
        )
  ]
