-- ===== src/HashRing/Nearest.antt =====
-- The node that src/hash_ring.rs finds is the nearest one clockwise.
use mathlib.Core.Path.{subst}
use lane_switchboards.Base.{
  nat_eq, string_eq, ℕ, zero, suc, ◌+◌, ◌-◌, ◌%◌, ◌^◌, ◌≤◌, ◌<◌, String, ◌≡◌, inl, inr, Bool, none,
  some, List, [], ◌∷◌, arith, leb, Bool-cases, Option-cases, find, All, Map, lookup, remove,
  get_elem?, Option,
}
use lane_switchboards.HashRing.{
  Hashing, RingNode, HashRing, insert_sorted, clockwise, place, add_places, remove_places, add_node,
  remove_node, hash_key, get_node,
}

-- The keys rise, from `low` on; they are hashes of 64 bits.
abbrev pub Rising {ℓ} : {V : Type ℓ} → ℕ → Map ℕ V → Type 0
Rising low [] = Unit {0}
Rising low ((k, v) ∷ m) = (low ≤ k) × (k < 2 ^ 64) × Rising (k + 1) m

module _ {ℓ} {V : Type ℓ} where
  pub Rising-mono : (low low' : ℕ) (m : Map ℕ V) → low ≤ low' → Rising low' m → Rising low m
  Rising-mono low low' [] h r = tt
  Rising-mono low low' ((k, v) ∷ m) h r = (omega arith, r.1, r.2)

  pub insert_sorted-Rising :
      (low k : ℕ) (v : V) (m : Map ℕ V)
      → low ≤ k
      → k < 2 ^ 64
      → Rising low m
      → Rising low (insert_sorted k v m)
  unfolding insert_sorted
  insert_sorted-Rising low k v [] h w r = (h, w, tt)
  insert_sorted-Rising low k v ((j, u) ∷ m) h w r =
      ground (arith, insert_sorted-Rising (j + 1) k v m)

  pub remove-Rising : (low k : ℕ) (m : Map ℕ V) → Rising low m → Rising low (remove k m)
  unfolding remove
  remove-Rising low k [] r = tt
  remove-Rising low k ((j, u) ∷ m) r =
      ground (arith, remove-Rising (j + 1) k m r.2, Rising-mono low (j + 1) (remove k m))

-- How far it is from one place on the ring to another, clockwise.
abbrev pub distance : ℕ → ℕ → ℕ
distance hash k = (k + 2 ^ 64 - hash) % 2 ^ 64

-- No entry is nearer to the place than `k`.
abbrev pub Nearest : ℕ → ℕ → Map ℕ String → Type 0
Nearest hash k = All (λ e. distance hash k ≤ distance hash e.0)

abbrev at_or_after : ℕ → ℕ × String → Bool
at_or_after hash e = leb hash e.0

Rising-Nearest :
    (hash low k : ℕ) (m : Map ℕ String)
    → hash < 2 ^ 64
    → hash ≤ k
    → k ≤ low
    → k < 2 ^ 64
    → Rising low m
    → Nearest hash k m
Rising-Nearest hash low k [] w a b c r = tt
Rising-Nearest hash low k ((j, v) ∷ m) w a b c r =
    (omega arith, Rising-Nearest hash (j + 1) k m w a (omega arith) c r.2)

find-Nearest :
    (hash low : ℕ) (m : Map ℕ String) (e : ℕ × String)
    → hash < 2 ^ 64
    → Rising low m
    → find (at_or_after hash) m ≡ some e
    → (hash ≤ e.0) × (e.0 < 2 ^ 64) × Nearest hash e.0 m
find-Nearest hash low [] e w r h = cc
find-Nearest hash low ((j, v) ∷ m) e w r h = elim (Bool-cases (leb hash j)) [
  | inl hit ↦
      let same : j ≡ e.0 = ground arith in
      let le : hash ≤ j = ground arith in
      (
        omega arith,
        omega arith,
        (
          omega arith,
          Rising-Nearest hash (j + 1) e.0 m w (omega arith) (omega arith) (omega arith) r.2,
        ),
      )
  | inr miss ↦
      let found : find (at_or_after hash) m ≡ some e = ground arith in
      let lt : j < hash = ground arith in
      let (a, b, near) = find-Nearest hash (j + 1) m e w r.2 found in (a, b, (omega arith, near))
]

all_before :
    (hash low k : ℕ) (m : Map ℕ String)
    → hash < 2 ^ 64
    → k ≤ low
    → k < hash
    → Rising low m
    → find (at_or_after hash) m ≡ none
    → Nearest hash k m
all_before hash low k [] w a b r h = tt
all_before hash low k ((j, v) ∷ m) w a b r h =
    let lt : j < hash = ground arith in
    (omega arith, all_before hash (j + 1) k m w (omega arith) b r.2 (ground arith))

-- On a ring whose keys rise, as `add_node` and `remove_node` keep them, the entry found for a hash
-- of 64 bits is the one at the least clockwise distance, around the end of the ring too.
pub clockwise-Nearest :
    (hash low : ℕ) (ring : Map ℕ String) (e : ℕ × String)
    → hash < 2 ^ 64
    → Rising low ring
    → clockwise hash ring ≡ some e
    → Nearest hash e.0 ring
unfolding clockwise
clockwise-Nearest hash low [] e w r h = cc
clockwise-Nearest hash low ((j, v) ∷ m) e w r h =
    elim (Option-cases (find (at_or_after hash) ((j, v) ∷ m))) [
      | inl missing ↦
          let same : j ≡ e.0 = ground arith in
          let lt : j < hash = ground arith in
          let rest : find (at_or_after hash) m ≡ none = ground arith in
          (omega arith, all_before hash (j + 1) e.0 m w (omega arith) (omega arith) r.2 rest)
      | inr (e', found) ↦
          let same : e' ≡ e = ground arith in
          subst (λ (x : ℕ × String). Nearest hash x.0 ((j, v) ∷ m)) same
            (find-Nearest hash low ((j, v) ∷ m) e' w r found).2
    ]

-- The entry stands somewhere in the list.
abbrev pub IsEntry : ℕ × String → Map ℕ String → Type 0
IsEntry e ring = (i : ℕ) × (get_elem? ring i ≡ some e)

find-IsEntry :
    (p : ℕ × String → Bool) (ring : Map ℕ String) (e : ℕ × String)
    → find p ring ≡ some e
    → IsEntry e ring
find-IsEntry p [] e h = cc
find-IsEntry p (x ∷ ring) e h = elim (Bool-cases (p x)) [
  | inl t ↦ (zero, ground (arith, t, h))
  | inr t ↦ let (i, g) = find-IsEntry p ring e (ground (arith, t, h)) in (suc i, g)
]

first-IsEntry :
    (ring : Map ℕ String) (e : ℕ × String)
    → (elim ring as (λ x. Option (ℕ × String)) [ [] ↦ none | x ∷ rest ↦ some x ]) ≡ some e
    → IsEntry e ring
first-IsEntry [] e h = cc
first-IsEntry (x ∷ ring) e h = (zero, h)

clockwise-IsEntry :
    (hash : ℕ) (ring : Map ℕ String) (e : ℕ × String)
    → clockwise hash ring ≡ some e
    → IsEntry e ring
unfolding clockwise
clockwise-IsEntry hash ring e h = elim (Option-cases (find (at_or_after hash) ring)) [
  | inl missing ↦ first-IsEntry ring e (ground (arith, missing, h))
  | inr (e', found) ↦
      subst (λ (x : ℕ × String). IsEntry x ring) (ground (arith, found, h))
        (find-IsEntry (at_or_after hash) ring e' found)
]

module _ (hs : Hashing) where
  hash_key-lt : (key : List ℕ) → hash_key hs key < 2 ^ 64
  unfolding hash_key
  hash_key-lt key = ground arith

  place-lt : (id : String) (i : ℕ) → place hs id i < 2 ^ 64
  unfolding place
  place-lt id i = hash_key-lt _

  add_places-Rising :
      (id : String) (i n : ℕ) (ring : Map ℕ String)
      → Rising 0 ring
      → Rising 0 (add_places hs id i n ring)
  unfolding add_places
  add_places-Rising id i zero ring r = r
  add_places-Rising id i (suc n) ring r =
      add_places-Rising id (suc i) n _
        (insert_sorted-Rising 0 (place hs id i) id ring (omega arith) (place-lt id i) r)

  remove_places-Rising :
      (id : String) (i n : ℕ) (ring : Map ℕ String)
      → Rising 0 ring
      → Rising 0 (remove_places hs id i n ring)
  unfolding remove_places
  remove_places-Rising id i zero ring r = r
  remove_places-Rising id i (suc n) ring r =
      remove_places-Rising id (suc i) n _ (remove-Rising 0 (place hs id i) ring r)

  -- Adding and removing a node keep the keys of the ring in rising order.
  pub nodes-Rising :
      (node : RingNode) (id : String) (r : HashRing)
      → Rising 0 r.ring
      → Rising 0 (add_node hs node r).ring × Rising 0 (remove_node hs id r).0.ring
  unfolding add_node remove_node
  nodes-Rising node id r h = (
    add_places-Rising node.id 0 r.virtual_nodes r.ring h,
    elim (Option-cases (lookup id r.nodes)) [
      | inl e ↦ rw (e, remove_node) h
      | inr (n, e) ↦ rw (e, remove_node) (remove_places-Rising id 0 r.virtual_nodes r.ring h)
    ],
  )

  -- On a ring whose keys rise, a key that is given a node is given the node of an entry of the ring,
  -- and no entry of the ring is nearer clockwise to the key's hash than that one.
  pub get_node-Nearest :
      (key : List ℕ) (r : HashRing) (node : RingNode)
      → Rising 0 r.ring
      → get_node hs key r ≡ some node
      → (e : ℕ × String) × IsEntry e r.ring
        × (lookup e.1 r.nodes ≡ some node)
        × Nearest (hash_key hs key) e.0 r.ring
  unfolding get_node
  get_node-Nearest key r node h g = elim (Option-cases (clockwise (hash_key hs key) r.ring)) [
    | inl none_ ↦ absurd (ground arith)
    | inr (e, found) ↦ (
      e,
      clockwise-IsEntry (hash_key hs key) r.ring e found,
      ground arith,
      clockwise-Nearest (hash_key hs key) 0 r.ring e (hash_key-lt key) h found,
    )
  ]
