-- ===== src/HashRing/Removal.antt =====
-- What is left on the ring of src/hash_ring.rs when a node goes.
use lane_switchboards.Base.{
  nat_eq, string_eq, ℕ, zero, suc, String, ◌≡◌, refl, Bool, true, false, none, some, [], ◌∷◌, arith,
  if◌then◌else◌, ◌==◌, Map, lookup, insert, remove, lookup-insert, lookup-remove,
  lookup-insert_self,
}
use lane_switchboards.HashRing.{
  Hashing, RingNode, HashRing, insert_sorted, place, add_places, remove_places, add_node,
  remove_node,
}

-- Is the hash one of the places of virtual nodes `i` to `i + n - 1` of a node?
abbrev pub is_place : Hashing → String → ℕ → ℕ → ℕ → Bool
is_place hs id i zero h = false
is_place hs id i (suc n) h =
    let rest = is_place hs id (suc i) n h in if place hs id i == h then true else rest

pub lookup-insert_sorted :
    (k j : ℕ) (v : String) (m : Map ℕ String)
    → lookup j (insert_sorted k v m) ≡ (if k == j then some v else lookup j m)
unfolding lookup insert_sorted
lookup-insert_sorted k j v [] = refl
lookup-insert_sorted k j v ((i, w) ∷ m) = ground (arith, lookup-insert_sorted k j v m)

module _ (hs : Hashing) where
  lookup-add_places :
      (h : ℕ) (id : String) (i n : ℕ) (m : Map ℕ String)
      → lookup h (add_places hs id i n m) ≡ (if is_place hs id i n h then some id else lookup h m)
  unfolding add_places
  lookup-add_places h id i zero m = refl
  lookup-add_places h id i (suc n) m = ground (
    arith,
    lookup-add_places h id (suc i) n (insert_sorted (place hs id i) id m),
    lookup-insert_sorted (place hs id i) h id m,
  )

  lookup-remove_places :
      (h : ℕ) (id : String) (i n : ℕ) (m : Map ℕ String)
      → lookup h (remove_places hs id i n m) ≡ (if is_place hs id i n h then none else lookup h m)
  unfolding remove_places
  lookup-remove_places h id i zero m = refl
  lookup-remove_places h id i (suc n) m = ground (
    arith,
    lookup-remove_places h id (suc i) n (remove (place hs id i) m),
    lookup-remove (place hs id i) h m,
  )

  -- When a node joins and leaves again, the ring has nothing at the node's places and is as it was
  -- everywhere else: an entry that another node had at one of these places does not come back. The
  -- roster of nodes is as it was, but for an earlier node of the same identifier.
  pub remove_node-add_node :
      (h : ℕ) (id : String) (node : RingNode) (r : HashRing)
      → let after = (remove_node hs node.id (add_node hs node r)).0 in
        (lookup h after.ring
          ≡ (if is_place hs node.id 0 r.virtual_nodes h then none else lookup h r.ring))
        × (lookup id after.nodes ≡ (if node.id == id then none else lookup id r.nodes))
  unfolding add_node remove_node
  remove_node-add_node h id node r =
      rw (lookup-insert_self node.id node r.nodes, remove_node)
        (
          ground (
            arith,
            lookup-remove_places h node.id 0 r.virtual_nodes
                (add_places hs node.id 0 r.virtual_nodes r.ring),
            lookup-add_places h node.id 0 r.virtual_nodes r.ring,
          ),
          ground (
            arith,
            lookup-remove node.id id (insert node.id node r.nodes),
            lookup-insert node.id id node r.nodes,
          ),
        )
