-- ===== src/HashRing/Placement.antt =====
-- Which node src/hash_ring.rs gives a key to, and how little changes when a node joins.
use lane_switchboards.Base.{
  nat_eq, string_eq, ℕ, String, ◌≡◌, refl, ◌⊎◌, inl, Bool, Option, none, some, [], ◌∷◌, arith, leb,
  find, Map, zero, suc, sym, ◌∙◌, inr, List, Bool-cases, Option-cases, ◌==◌, lookup, lookup-insert,
  lookup-insert_self,
}
use lane_switchboards.HashRing.{
  Hashing, RingNode, HashRing, insert_sorted, clockwise, place, add_places, add_node, hash_key,
  get_node,
}

-- The identifier that owns a place on the ring.
abbrev pub owner : ℕ → Map ℕ String → Option String
owner hash ring = elim (clockwise hash ring) [ none ↦ none | some e ↦ some e.1 ]

abbrev at_or_after : ℕ → ℕ × String → Bool
at_or_after hash e = leb hash e.0

-- An entry put on the ring is found before what was found, or nothing changes.
find-insert_sorted :
    (hash k : ℕ) (v : String) (ring : Map ℕ String)
    → (find (at_or_after hash) (insert_sorted k v ring) ≡ some (k, v))
      ⊎ (find (at_or_after hash) (insert_sorted k v ring) ≡ find (at_or_after hash) ring)
unfolding insert_sorted
find-insert_sorted hash k v [] = ground arith
find-insert_sorted hash k v ((j, w) ∷ ring) = ground (arith, find-insert_sorted hash k v ring)

find-insert_sorted-none :
    (hash k : ℕ) (v : String) (ring : Map ℕ String)
    → find (at_or_after hash) (insert_sorted k v ring) ≡ none
    → find (at_or_after hash) ring ≡ none
unfolding insert_sorted
find-insert_sorted-none hash k v [] h = refl
find-insert_sorted-none hash k v ((j, w) ∷ ring) h =
    ground (arith, find-insert_sorted-none hash k v ring)

-- The first entry of all.
first : Map ℕ String → Option (ℕ × String)
first [] = none
first (e ∷ ring) = some e

first-insert_sorted :
    (k : ℕ) (v : String) (ring : Map ℕ String)
    → (first (insert_sorted k v ring) ≡ some (k, v)) ⊎ (first (insert_sorted k v ring) ≡ first ring)
unfolding insert_sorted first
first-insert_sorted k v [] = inl refl
first-insert_sorted k v ((j, w) ∷ ring) = ground arith

or_first : Option (ℕ × String) → Map ℕ String → Option (ℕ × String)
unfolding first
or_first (some e) ring = some e
or_first none ring = first ring

clockwise_lem :
    (hash : ℕ) (ring : Map ℕ String)
    → clockwise hash ring ≡ or_first (find (at_or_after hash) ring) ring
unfolding clockwise or_first
clockwise_lem hash [] = refl
clockwise_lem hash (e ∷ ring) = ground arith

clockwise-insert_sorted :
    (hash k : ℕ) (v : String) (ring : Map ℕ String)
    → (clockwise hash (insert_sorted k v ring) ≡ some (k, v))
      ⊎ (clockwise hash (insert_sorted k v ring) ≡ clockwise hash ring)
unfolding or_first
clockwise-insert_sorted hash k v ring = ground (
  arith,
  clockwise_lem hash ring,
  clockwise_lem hash (insert_sorted k v ring),
  find-insert_sorted hash k v ring,
  find-insert_sorted-none hash k v ring,
  first-insert_sorted k v ring,
)

module _ (hs : Hashing) where
  owner-add_places :
      (hash : ℕ) (id : String) (i n : ℕ) (ring : Map ℕ String)
      → (owner hash (add_places hs id i n ring) ≡ some id)
        ⊎ (owner hash (add_places hs id i n ring) ≡ owner hash ring)
  unfolding add_places
  owner-add_places hash id i zero ring = inr refl
  owner-add_places hash id i (suc n) ring = ground (
    arith,
    owner-add_places hash id (suc i) n (insert_sorted (place hs id i) id ring),
    clockwise-insert_sorted hash (place hs id i) id ring,
  )

  get_node-owner :
      (key : List ℕ) (r : HashRing)
      → get_node hs key r
        ≡ elim (owner (hash_key hs key) r.ring) [ none ↦ none | some id ↦ lookup id r.nodes ]
  unfolding get_node
  get_node-owner key r = ground arith

  -- When a node joins, every key either goes to the new node or stays with the node that had it:
  -- no key moves between two nodes that were there before. This holds of any ring and any hash
  -- function, also where virtual nodes collide.
  pub get_node-add_node :
      (key : List ℕ) (node : RingNode) (r : HashRing)
      → (get_node hs key (add_node hs node r) ≡ some node)
        ⊎ (get_node hs key (add_node hs node r) ≡ get_node hs key r)
  unfolding add_node
  get_node-add_node key node r =
      let hash = hash_key hs key in
      let after = add_node hs node r in
      elim (owner-add_places hash node.id 0 r.virtual_nodes r.ring) [
        | inl e ↦ inl (get_node-owner key after ∙ rw e (lookup-insert_self node.id node r.nodes))
        | inr e ↦ elim (Option-cases (owner hash r.ring)) [
          | inl gone ↦
              inr (get_node-owner key after ∙ rw (e, gone) (sym (get_node-owner key r ∙ rw gone)))
          | inr (id, had) ↦ elim (Bool-cases (node.id == id)) [
            | inl same ↦ inl (
                get_node-owner key after
                ∙ rw (e, had, lookup-insert node.id id node r.nodes, same) refl)
            | inr other ↦ inr (
                get_node-owner key after
                ∙ rw (e, had, lookup-insert node.id id node r.nodes, other)
                    (sym (get_node-owner key r ∙ rw had)))
          ]
        ]
      ]
