-- ===== src/HashRing.antt =====
-- src/hash_ring.rs: the consistent-hash ring. The `murmur3` crate and the `Hash` implementation of
-- `str` are parameters: the one takes bytes and a seed to 128 bits, the other is what a text writes
-- into a hasher. A key of any other type enters as the bytes that it writes. The `BTreeMap` is its
-- list of entries in the order of the keys.
pub mod Decimal
pub mod Address
pub mod Placement
pub mod Nearest
pub mod Integrity
pub mod Removal
pub mod Replicas
pub mod Primary
use lane_switchboards.Base.{
  nat_eq, string_eq, ℕ, zero, suc, ◌%◌, ◌^◌, String, Bool, Option, none, some, List, [], ◌∷◌, ◌++◌,
  map, ltb, leb, if◌then◌else◌, ◌==◌, length, filter_by, any, find, Map, values, lookup, insert,
  remove, contains_key,
}
use Prim.Native.String.{◌++◌ as str_append}
use lane_switchboards.HashRing.Decimal.{to_decimal}

-- The code of other packages that the ring calls.
pub record Hashing : Type 0 where
  pub murmur3_x64_128 : List ℕ → ℕ → Option ℕ
  pub hash_str : String → List ℕ

abbrev pub ring_hash_seed : ℕ
ring_hash_seed = 0

pub record RingNode : Type 0 where
  pub id : String
  pub host : String
  pub port : ℕ

pub record HashRing : Type 0 where
  pub nodes : Map String RingNode
  pub ring : Map ℕ String
  pub virtual_nodes : ℕ

unfoldable pub new : ℕ → HashRing
new virtual_nodes = record { nodes = []; ring = []; virtual_nodes = virtual_nodes }

-- `Murmur3Hasher::write`.
unfoldable pub write : List ℕ → List ℕ → List ℕ
write buf bytes = buf ++ bytes

-- `BTreeMap::insert`: in the order of the keys, over the entry of the same key.
unfoldable pub insert_sorted {ℓ} : {V : Type ℓ} → ℕ → V → Map ℕ V → Map ℕ V
insert_sorted k v [] = (k, v) ∷ []
insert_sorted k v ((j, w) ∷ m) =
    let rest = insert_sorted k v m in
    if k == j then (k, v) ∷ m else if ltb k j then (k, v) ∷ (j, w) ∷ m else (j, w) ∷ rest

-- The identifier at the first entry from `hash` on, or else at the first entry of all.
unfoldable pub clockwise : ℕ → Map ℕ String → Option (ℕ × String)
clockwise hash ring = elim (find (λ e. leb hash e.0) ring) [
  | some e ↦ some e
  | none ↦ elim ring [ [] ↦ none | e ∷ rest ↦ some e ]
]

module _ (hs : Hashing) where
  open hs use {murmur3_x64_128, hash_str}

  -- `Murmur3Hasher::finish`: the lower 64 bits.
  unfoldable pub finish : List ℕ → ℕ
  finish buf = elim (murmur3_x64_128 buf ring_hash_seed) [ some hash ↦ hash % 2 ^ 64 | none ↦ 0 ]

  unfoldable pub hash_key : List ℕ → ℕ
  unfolding finish write
  hash_key key = finish (write [] key)

  -- The place of a node's virtual node: the hash of `format!("{}:vnode:{}", node_id, i)`.
  unfoldable pub place : String → ℕ → ℕ
  unfolding hash_key
  place node_id i = hash_key (hash_str (str_append node_id (str_append ":vnode:" (to_decimal i))))

  -- `for i in i..i + n`.
  unfoldable pub add_places : String → ℕ → ℕ → Map ℕ String → Map ℕ String
  unfolding insert_sorted
  add_places node_id i zero ring = ring
  add_places node_id i (suc n) ring =
      add_places node_id (suc i) n (insert_sorted (place node_id i) node_id ring)

  unfoldable pub remove_places : String → ℕ → ℕ → Map ℕ String → Map ℕ String
  remove_places node_id i zero ring = ring
  remove_places node_id i (suc n) ring =
      remove_places node_id (suc i) n (remove (place node_id i) ring)

  unfoldable pub add_node : RingNode → HashRing → HashRing
  unfolding add_places
  add_node node r = record r {
    ring = add_places node.id 0 r.virtual_nodes r.ring;
    nodes = insert node.id node r.nodes;
  }

  unfoldable pub remove_node : String → HashRing → HashRing × Option RingNode
  unfolding remove_places
  remove_node node_id r = elim (lookup node_id r.nodes) [
    | none ↦ (r, none)
    | some node ↦ (
      record r {
        nodes = remove node_id r.nodes;
        ring = remove_places node_id 0 r.virtual_nodes r.ring;
      },
      some node,
    )
  ]

  unfoldable pub get_node : List ℕ → HashRing → Option RingNode
  unfolding clockwise hash_key
  get_node key r = elim (clockwise (hash_key key) r.ring) [
    | none ↦ none
    | some e ↦ lookup e.1 r.nodes
  ]

-- The loop of `get_nodes` over the identifiers in clockwise order: what it has seen, what it has
-- found, and how many of each it wants.
unfoldable pub collect_nodes :
    Map String RingNode → ℕ → List String → List String → List RingNode → List RingNode
collect_nodes nodes count [] seen result = result
collect_nodes nodes count (id ∷ ids) seen result =
    let skip = collect_nodes nodes count ids seen result in
    let found = λ (node : RingNode). result ++ node ∷ [] in
    let next = λ (more : List RingNode). collect_nodes nodes count ids (id ∷ seen) more in
    if any (λ s. s == id) seen then skip else elim (lookup id nodes) [
      | none ↦ if leb (length nodes) (suc (length seen)) then result else next result
      | some node ↦
          if leb count (length (found node))
          then found node
          else if leb (length nodes) (suc (length seen))
          then found node
          else next (found node)
    ]

module _ (hs : Hashing) where
  unfoldable pub get_nodes : List ℕ → ℕ → HashRing → List RingNode
  unfolding collect_nodes hash_key
  get_nodes key count r =
      let hash = hash_key hs key in
      let ids =
        map (λ e. e.1)
          (filter_by (λ e. leb hash e.0) r.ring ++ filter_by (λ e. ltb e.0 hash) r.ring) in
      elim count [ zero ↦ [] | suc n ↦ collect_nodes r.nodes (suc n) ids [] [] ]

unfoldable pub node_count : HashRing → ℕ
node_count r = length r.nodes

unfoldable pub virtual_node_count : HashRing → ℕ
virtual_node_count r = length r.ring

unfoldable pub contains : String → HashRing → Bool
contains node_id r = contains_key node_id r.nodes

unfoldable pub get_all_nodes : HashRing → List RingNode
get_all_nodes r = values r.nodes
