-- ===== src/Tests/OnRings.antt =====
-- The theorems on the ring, at concrete inputs.
use lane_switchboards.Base.{
  nat_eq, string_eq, pair_eq, ℕ, ◌≤◌, String, ◌≡◌, refl, ◌⊎◌, none, some, [], ◌∷◌, arith,
  if◌then◌else◌, ◌==◌, ==_iff, length, lookup,
}
use lane_switchboards.HashRing.{
  add_node, clockwise, get_node, get_nodes, hash_key, remove_node, write, finish,
}
use lane_switchboards.HashRing.Removal.{is_place, remove_node-add_node}
use lane_switchboards.HashRing.Placement.{get_node-add_node}
use lane_switchboards.HashRing.Nearest.{get_node-Nearest, Nearest, IsEntry}
use lane_switchboards.HashRing.Integrity.{nodes-IsSound, IsSound}
use lane_switchboards.HashRing.Replicas.{get_nodes-IsDistinct, IsKeyed, IsDistinct}
use lane_switchboards.Tests.Rings.{
  adding, total, add_up, node_b, ring_a, ring_a-IsSound, small_ring,
}

small_ring-IsKeyed : IsKeyed small_ring.nodes
unfolding lookup
small_ring-IsKeyed id node e = ground (arith, ==_iff "a" id, ==_iff "bb" id)

get_node-add_node_example :
    (get_node adding (5 ∷ []) (add_node adding node_b ring_a) ≡ some node_b)
    ⊎ (get_node adding (5 ∷ []) (add_node adding node_b ring_a) ≡ get_node adding (5 ∷ []) ring_a)
get_node-add_node_example = get_node-add_node adding (5 ∷ []) node_b ring_a

get_node-Nearest_example :
    (e : ℕ × String) × IsEntry e small_ring.ring
    × (lookup e.1 small_ring.nodes ≡ some node_b)
    × Nearest (hash_key adding (50 ∷ [])) e.0 small_ring.ring
unfolding get_node clockwise hash_key finish write lookup total add_up
get_node-Nearest_example =
    get_node-Nearest adding (50 ∷ []) small_ring node_b
      (omega arith, omega arith, (omega arith, omega arith, tt)) refl

nodes-IsSound_example :
    IsSound adding (add_node adding node_b ring_a)
    × IsSound adding (remove_node adding "a" ring_a).0
nodes-IsSound_example = nodes-IsSound adding node_b "a" ring_a ring_a-IsSound

remove_node-add_node_example :
    let after = (remove_node adding node_b.id (add_node adding node_b small_ring)).0 in
    (lookup 10 after.ring ≡ (
      if is_place adding node_b.id 0 small_ring.virtual_nodes 10
      then none
      else lookup 10 small_ring.ring))
    × (lookup "a" after.nodes ≡ (if node_b.id == "a" then none else lookup "a" small_ring.nodes))
remove_node-add_node_example = remove_node-add_node adding 10 "a" node_b small_ring

get_nodes-IsDistinct_example :
    IsDistinct (get_nodes adding (50 ∷ []) 3 small_ring)
    × (length (get_nodes adding (50 ∷ []) 3 small_ring) ≤ 3)
get_nodes-IsDistinct_example = get_nodes-IsDistinct adding (50 ∷ []) 3 small_ring small_ring-IsKeyed
