-- ===== src/HashRing/Primary.antt =====
-- The key's own node is the first of the replicas that `get_nodes` of src/hash_ring.rs gives.
use lane_switchboards.Base.{
  nat_eq, string_eq, ℕ, suc, String, ◌≡◌, refl, ap, inl, inr, true, none, some, List, [], ◌∷◌, ◌++◌,
  map, arith, ltb, leb, Bool-cases, if-holds, Option-cases, ◌==◌, length, filter_by, any, find, Map,
  lookup,
}
use lane_switchboards.HashRing.{
  Hashing, RingNode, HashRing, clockwise, collect_nodes, hash_key, get_node, get_nodes,
}

-- The node comes first in the list.
abbrev IsLed : RingNode → List RingNode → Type 0
IsLed n out = (rest : List RingNode) × (out ≡ n ∷ rest)

-- What was found first stays first.
collect_nodes-head :
    (nodes : Map String RingNode) (count : ℕ) (ids seen : List String) (n : RingNode)
    (ns : List RingNode)
    → (rest : List RingNode) × (collect_nodes nodes count ids seen (n ∷ ns) ≡ n ∷ rest)
unfolding collect_nodes
collect_nodes-head nodes count [] seen n ns = (ns, refl)
collect_nodes-head nodes count (id ∷ ids) seen n ns =
    if-holds (IsLed n) (any (λ x. x == id) seen) _ _
      (λ e. collect_nodes-head nodes count ids seen n ns)
      (λ e. elim (Option-cases (lookup id nodes)) [
        | inl gone ↦ rw gone (
            if-holds (IsLed n) (leb (length nodes) (suc (length seen))) _ _ (λ q. (ns, refl))
              (λ q. collect_nodes-head nodes count ids (id ∷ seen) n ns))
        | inr (node, there) ↦ rw there (
            if-holds (IsLed n) (leb count (length (n ∷ ns ++ node ∷ []))) _ _
              (λ q. (ns ++ node ∷ [], refl))
              (λ q.
                if-holds (IsLed n) (leb (length nodes) (suc (length seen))) _ _
                  (λ q'. (ns ++ node ∷ [], refl))
                  (λ q'. collect_nodes-head nodes count ids (id ∷ seen) n (ns ++ node ∷ []))))
      ])

-- Where the search around the ring begins, the order of `get_nodes` begins, too.
from_hash : ℕ → Map ℕ String → Map ℕ String
from_hash hash ring = filter_by (λ e. leb hash e.0) ring ++ filter_by (λ e. ltb e.0 hash) ring

find-from :
    (hash : ℕ) (ring : Map ℕ String) (e : ℕ × String)
    → find (λ x. leb hash x.0) ring ≡ some e
    → (rest : Map ℕ String) × (filter_by (λ x. leb hash x.0) ring ≡ e ∷ rest)
find-from hash [] e h = cc
find-from hash (x ∷ ring) e h = elim (Bool-cases (leb hash x.0)) [
  | inl t ↦
      let same : x ≡ e = ground arith in (filter_by (λ y. leb hash y.0) ring, rw (t, same) refl)
  | inr t ↦ let (rest, q) = find-from hash ring e (ground arith) in (rest, rw t q)
]

none-from :
    (hash : ℕ) (ring : Map ℕ String)
    → find (λ x. leb hash x.0) ring ≡ none
    → (filter_by (λ x. leb hash x.0) ring ≡ []) × (filter_by (λ x. ltb x.0 hash) ring ≡ ring)
none-from hash [] h = (refl, refl)
none-from hash (x ∷ ring) h = elim (Bool-cases (leb hash x.0)) [
  | inl t ↦ absurd (ground arith)
  | inr t ↦
      let (a, b) = none-from hash ring (ground arith) in
      let lt : ltb x.0 hash ≡ true = ground arith in (rw t a, rw lt (ap (λ l. x ∷ l) b))
]

clockwise-from :
    (hash : ℕ) (ring : Map ℕ String) (e : ℕ × String)
    → clockwise hash ring ≡ some e
    → (rest : Map ℕ String) × (from_hash hash ring ≡ e ∷ rest)
unfolding clockwise from_hash
clockwise-from hash [] e h = cc
clockwise-from hash (x ∷ ring) e h = elim (Option-cases (find (λ y. leb hash y.0) (x ∷ ring))) [
  | inl gone ↦
      let same : x ≡ e = ground arith in
      let (a, b) = none-from hash (x ∷ ring) gone in (ring, rw (a, b, same) refl)
  | inr (y, found) ↦
      let same : y ≡ e = ground arith in
      let (rest, q) = find-from hash (x ∷ ring) y found in
      (rest ++ filter_by (λ z. ltb z.0 hash) (x ∷ ring), rw (q, same) refl)
]

module _ (hs : Hashing) where
  first_collected :
      (nodes : Map String RingNode) (n : ℕ) (id : String) (ids : List String) (node : RingNode)
      → lookup id nodes ≡ some node
      → IsLed node (collect_nodes nodes (suc n) (id ∷ ids) [] [])
  unfolding collect_nodes
  first_collected nodes n id ids node there = rw there (
      if-holds (IsLed node) (leb (suc n) 1) _ _ (λ q. ([], refl))
        (λ q.
          if-holds (IsLed node) (leb (length nodes) 1) _ _ (λ q'. ([], refl))
            (λ q'. collect_nodes-head nodes (suc n) ids (id ∷ []) node [])))

  -- The first of the nodes that `get_nodes` gives is the key's own node, the one of `get_node`.
  pub get_nodes-get_node :
      (key : List ℕ) (n : ℕ) (r : HashRing) (node : RingNode)
      → get_node hs key r ≡ some node
      → (rest : List RingNode) × (get_nodes hs key (suc n) r ≡ node ∷ rest)
  unfolding get_nodes get_node from_hash
  get_nodes-get_node key n r node got = elim (Option-cases (clockwise (hash_key hs key) r.ring)) [
    | inl gone ↦ absurd (ground arith)
    | inr (e, found) ↦
        let (rest, q) = clockwise-from (hash_key hs key) r.ring e found in
        let there : lookup e.1 r.nodes ≡ some node = ground arith in
        rw (q, get_nodes) (first_collected r.nodes n e.1 (map (λ x. x.1) rest) node there)
  ]
