-- ===== src/Cluster/Dispatch.antt =====
-- Whom src/distributed.rs sends to.
use lane_switchboards.Base.{
  nat_eq, string_eq, ℕ, zero, suc, String, ◌≡◌, refl, sym, ap, ◌∙◌, ◌↔◌, inl, inr, Option, some,
  List, [], ◌∷◌, map, arith, Bool-cases, Option-cases, ◌==◌, ==_iff, ==_refl, length, get_elem?,
  find, All, get_elem?-lt, get_elem?-some, lookup, ◌+◌, ◌%◌, ◌^◌, ◌<◌, false, true, none, filter_by,
  is_some, contains_key,
}
use lane_switchboards.HashRing.{Hashing, RingNode, clockwise, hash_key, get_node}
use lane_switchboards.HashRing.Replicas.{IsKeyed}
use lane_switchboards.Cluster.{
  Cluster, ClusterMember, RemoteActorRef, PeerWriter, Call, panics, returns, sent, not_connected,
  index, send, ref_by_name, ref_for_key, member_for_key, next_ref,
}
use lane_switchboards.Cluster.Roster.{IsRoster}
use lane_switchboards.Cluster.Send.{Results, send_each, send_all, first_error, broadcast, send_to}

first_error_lem : (results : Results) → (first_error results ≡ sent) ↔ All (λ e. e.1 ≡ sent) results
unfolding first_error
first_error_lem [] = (λ h. tt, λ h. refl)
first_error_lem ((name, sent) ∷ results) =
    (λ h. (refl, (first_error_lem results).0 h), λ h. (first_error_lem results).1 h.1)
first_error_lem ((name, not_connected) ∷ results) = (λ h. absurd (ground arith), λ h. h.0)

module _ {M : Type 0} where
  -- The names of the results are those of the members, in order.
  pub send_each-names :
      (msg : M) (members : List ClusterMember) (refs : List RemoteActorRef)
      (writers : List (PeerWriter M))
      → length refs ≡ length members
      → map (λ e. e.0) (send_each msg members refs writers).0 ≡ map (λ m. m.name) members
  unfolding send_each
  send_each-names msg [] refs writers h = refl
  send_each-names msg (m ∷ members) [] writers h = absurd (omega arith)
  send_each-names msg (m ∷ members) (r ∷ refs) writers h =
      ap (λ l. m.name ∷ l)
        (send_each-names msg members refs (send r msg writers).1 (omega (arith, h)))

  -- `broadcast` tries every member of the roster, in order and whatever the others came to, and it
  -- succeeds exactly when each of its sends did.
  pub broadcast-results :
      (msg : M) (c : Cluster) (writers : List (PeerWriter M))
      → IsRoster c
      → (results : Results) × (send_all msg c writers ≡ (results, (broadcast msg c writers).1))
        × (map (λ e. e.0) results ≡ map (λ m. m.name) c.members)
        × (((broadcast msg c writers).0 ≡ sent) ↔ All (λ e. e.1 ≡ sent) results)
  unfolding broadcast send_all
  broadcast-results msg c writers h = (
    (send_all msg c writers).0,
    refl,
    send_each-names msg c.members c.refs writers h.0,
    first_error_lem (send_all msg c writers).0,
  )

find-name :
    (members : List ClusterMember) (i : ℕ) (m : ClusterMember)
    → get_elem? members i ≡ some m
    → (k : ℕ) × (m' : ClusterMember) × (find (λ n. n.name == m.name) members ≡ some m')
      × (get_elem? members k ≡ some m')
      × (m'.name ≡ m.name)
find-name [] i m e = cc
find-name (n ∷ members) zero m e = (zero, n, ground (arith, ==_refl m.name), refl, ground arith)
find-name (n ∷ members) (suc i) m e = elim (Bool-cases (n.name == m.name)) [
  | inl t ↦ (zero, n, rw t refl, refl, ground (arith, ==_iff n.name m.name))
  | inr t ↦ let (k, m', e1, e2, e3) = find-name members i m e in (suc k, m', rw t e1, e2, e3)
]

module _ (hs : Hashing) where
  ref_for_key-some :
      (key : List ℕ) (c : Cluster) (node : RingNode) (i : ℕ) (r : RemoteActorRef)
      → get_node hs key c.ring ≡ some node
      → lookup node.id c.refs_by_id ≡ some i
      → get_elem? c.refs i ≡ some r
      → ref_for_key hs key c ≡ returns (some r)
  unfolding ref_for_key ref_by_name index
  ref_for_key-some key c node i r e e' e'' = rw (e, e', e'', ref_for_key, ref_by_name, index) refl

  -- On a roster whose tables agree, a key that the ring gives a node has a member and a reference,
  -- neither look-up panics, and the reference leads to that member's address and target.
  pub ref_for_key-member :
      (key : List ℕ) (c : Cluster) (node : RingNode)
      → IsRoster c
      → IsKeyed c.ring.nodes
      → get_node hs key c.ring ≡ some node
      → (m : ClusterMember) × (r : RemoteActorRef) × (member_for_key hs key c ≡ some m)
        × (ref_for_key hs key c ≡ returns (some r))
        × (m.name ≡ node.id)
        × (r.node_addr ≡ m.node_addr)
        × (r.target ≡ m.target)
  unfolding get_node member_for_key ref_for_key ref_by_name index
  ref_for_key-member key c node (l, (at, named), paired, n) keyed got =
      let known : lookup node.id c.ring.nodes ≡ some node =
        elim (Option-cases (clockwise (hash_key hs key) c.ring.ring)) [
          | inl q ↦ absurd (ground arith)
          | inr (q, at_q) ↦ ground (arith, keyed q.1 node)
        ] in
      let (i, e) : (i : ℕ) × (lookup node.id c.refs_by_id ≡ some i) =
        elim (Option-cases (lookup node.id c.refs_by_id)) [
          | inl gone ↦ absurd (ground (arith, n node.id))
          | inr found ↦ found
        ] in
      let (m, e1, e2) = named node.id i e in
      let (k, m', e3, e4, e5) = find-name c.members i m e1 in
      let same : k ≡ i = ground (arith, at k m' e4, at i m e1) in
      let (r, e6) = get_elem?-some c.refs i (omega (arith, l, get_elem?-lt c.members i e1)) in
      let pair = paired i m' r (rw (sym same) e4) e6 in
      (
        m',
        r,
        rw (got, member_for_key) (rw (sym e2) e3),
        ref_for_key-some key c node i r got e e6,
        e5 ∙ e2,
        pair.0,
        pair.1,
      )

ref_by_name-found :
    (name : String) (c : Cluster)
    → IsRoster c
    → (o : Option RemoteActorRef) × (ref_by_name name c ≡ returns o)
      × (is_some o ≡ contains_key name c.refs_by_id)
unfolding ref_by_name index
ref_by_name-found name c (l, (at, named), p, n) = elim (Option-cases (lookup name c.refs_by_id)) [
  | inl e ↦ (none, rw (e, ref_by_name) refl, rw e refl)
  | inr (i, e) ↦
      let (m, e1, e2) = named name i e in
      let (r, e3) = get_elem?-some c.refs i (omega (arith, l, get_elem?-lt c.members i e1)) in
      (some r, rw (e, e3, ref_by_name, index) refl, rw e refl)
]

module _ {M : Type 0} where
  -- On a roster whose tables agree, `send_to` never panics, and it has a result for each name that
  -- is on the roster, in the order of the names, and for no other.
  pub send_to-names :
      (msg : M) (names : List String) (c : Cluster) (writers : List (PeerWriter M))
      → IsRoster c
      → (results : Results) × (last : List (PeerWriter M)) × (send_to msg names c writers
          ≡ returns (results, last))
        × (map (λ e. e.0) results ≡ filter_by (λ n. contains_key n c.refs_by_id) names)
  unfolding send_to
  send_to-names msg [] c writers h = ([], writers, refl, refl)
  send_to-names msg (name ∷ names) c writers h =
      let (o, e, e') = ref_by_name-found name c h in
      elim (Option-cases o) [
        | inl q ↦
            let (results, last, e1, e2) = send_to-names msg names c writers h in
            let off : contains_key name c.refs_by_id ≡ false = ground arith in
            (results, last, rw (e, q, send_to) e1, rw off e2)
        | inr (r, q) ↦
            let (results, last, e1, e2) = send_to-names msg names c (send r msg writers).1 h in
            let on : contains_key name c.refs_by_id ≡ true = ground arith in
            (
              (name, (send r msg writers).0) ∷ results,
              last,
              rw (e, q, e1, send_to) refl,
              rw on (ap (λ l. name ∷ l) e2),
            )
      ]

-- The references that `n` calls of `next` in a row give.
abbrev pub turns : ℕ → Cluster → List (Call (Option RemoteActorRef))
turns zero c = []
turns (suc n) c = elim (next_ref c) [
  | panics ↦ panics ∷ []
  | returns (c', r) ↦ returns r ∷ turns n c'
]

next_ref-some :
    (c : Cluster)
    → 0 < length c.refs
    → (r : RemoteActorRef) × (get_elem? c.refs (c.next % length c.refs) ≡ some r)
      × (next_ref c ≡ returns (record c { next = (c.next + 1) % 2 ^ 64 }, some r))
unfolding next_ref index
next_ref-some c h =
    let (r, e) = get_elem?-some c.refs (c.next % length c.refs) (omega (arith, h)) in
    let some_ : (length c.refs == 0) ≡ false = ground (arith, ==_iff (length c.refs) 0) in
    (r, e, rw (some_, e, next_ref, index) refl)

-- Calls of `next` in a row on a roster that is not empty take the references in turn and
-- start again behind the last one, as long as the counter does not wrap around.
pub turns-cyclic :
    (n j : ℕ) (c : Cluster)
    → 0 < length c.refs
    → c.next + n < 2 ^ 64
    → j < n
    → (r : RemoteActorRef) × (get_elem? c.refs ((c.next + j) % length c.refs) ≡ some r)
      × (get_elem? (turns n c) j ≡ some (returns (some r)))
turns-cyclic zero j c h w k = absurd (omega arith)
turns-cyclic (suc n) zero c h w k =
    let (r, e1, e2) = next_ref-some c h in
    let here : c.next + 0 ≡ c.next = omega arith in (r, rw here e1, rw (e2, turns) refl)
turns-cyclic (suc n) (suc j) c h w k =
    let (r, e1, e2) = next_ref-some c h in
    let same : (c.next + 1) % 2 ^ 64 ≡ c.next + 1 = omega (arith, w) in
    let (r', e3, e4) =
      turns-cyclic n j (record c { next = (c.next + 1) % 2 ^ 64 }) h (omega (arith, same))
        (omega arith) in
    let there : (c.next + 1) % 2 ^ 64 + j ≡ c.next + suc j = omega (arith, same) in
    (r', rw (sym there) e3, rw (e2, turns) e4)
