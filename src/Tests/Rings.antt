-- ===== src/Tests/Rings.antt =====
-- A hash that adds up the characters of a text, and rings of two nodes under it.
use Prim.Native.Char.{code}
use lane_switchboards.Base.{nat_eq, string_eq, ℕ, ◌+◌, String, Option, some, List, [], ◌∷◌, Map}
use lane_switchboards.HashRing.{Hashing, RingNode, HashRing, new, add_node}
use lane_switchboards.HashRing.Integrity.{IsSound, nodes-IsSound}

unfoldable pub total : List ℕ → ℕ
total [] = 0
total (b ∷ bytes) = b + total bytes

unfoldable pub bytes_of : String → List ℕ
bytes_of String.[] = []
bytes_of (String.◌∷◌ c s) = code c ∷ bytes_of s

unfoldable pub add_up : List ℕ → ℕ → Option ℕ
unfolding total
add_up bytes seed = some (total bytes + seed)

abbrev pub adding : Hashing
adding = record { murmur3_x64_128 = add_up; hash_str = bytes_of }

abbrev pub node_a : RingNode
node_a = record { id = "a"; host = "10.0.0.1"; port = 9001 }

abbrev pub node_b : RingNode
node_b = record { id = "bb"; host = "10.0.0.2"; port = 9002 }

abbrev pub ring_a : HashRing
ring_a = add_node adding node_a (new 2)

abbrev pub ring_ab : HashRing
ring_ab = add_node adding node_b ring_a

new-IsSound : IsSound adding (new 2)
unfolding new
new-IsSound = tt

pub ring_a-IsSound : IsSound adding ring_a
ring_a-IsSound = (nodes-IsSound adding node_a "a" (new 2) new-IsSound).0

abbrev pub two_entries : Map ℕ String
two_entries = (10, "a") ∷ (90, "bb") ∷ []

-- A ring with one place for each node.
abbrev pub small_ring : HashRing
small_ring = record {
  nodes = ("a", node_a) ∷ ("bb", node_b) ∷ [];
  ring = two_entries;
  virtual_nodes = 1;
}
