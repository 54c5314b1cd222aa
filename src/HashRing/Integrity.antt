-- ===== src/HashRing/Integrity.antt =====
-- The ring of src/hash_ring.rs and its roster of nodes agree.
use mathlib.Core.Path.{subst}
use lane_switchboards.Base.{
  nat_eq, string_eq, ℕ, ◌≢◌, zero, suc, String, ◌≡◌, refl, inl, inr, Bool, true, false, some, List,
  [], ◌∷◌, arith, Option-cases, ◌==◌, ==_iff, find, All, All-map, Map, is_some, lookup, remove,
  lookup-insert, lookup-remove, lookup-insert_self, ◌<◌, leb, length, none, Bool-cases, insert,
}
use lane_switchboards.HashRing.{
  Hashing, RingNode, HashRing, insert_sorted, clockwise, place, add_places, remove_places, add_node,
  remove_node, get_node, hash_key,
}
use lane_switchboards.HashRing.Removal.{is_place}

-- The entry stands at one of the places of its node, which is in the roster.
abbrev pub IsOwned : Hashing → ℕ → Map String RingNode → ℕ × String → Type 0
IsOwned hs n nodes e = (is_place hs e.1 0 n e.0 ≡ true) × (is_some (lookup e.1 nodes) ≡ true)

abbrev pub IsSound : Hashing → HashRing → Type 0
IsSound hs r = All (IsOwned hs r.virtual_nodes r.nodes) r.ring

-- What holds of every entry holds of the entries that are left, or found, and of those put in.
module _ (P : ℕ × String → Type 0) where
  insert_sorted-All :
      (k : ℕ) (v : String) (m : Map ℕ String) → P (k, v) → All P m → All P (insert_sorted k v m)
  unfolding insert_sorted
  insert_sorted-All k v [] p h = (p, tt)
  insert_sorted-All k v ((j, w) ∷ m) p h = ground (arith, insert_sorted-All k v m p h.1)

  remove-All :
      (k : ℕ) (m : Map ℕ String) → All P m → All (λ e. P e × ((k == e.0) ≡ false)) (remove k m)
  unfolding remove
  remove-All k [] h = tt
  remove-All k ((j, w) ∷ m) h = elim (Bool-cases (j == k)) [
    | inl e ↦ rw e (remove-All k m h.1)
    | inr e ↦ rw e ((h.0, ground arith), remove-All k m h.1)
  ]

  find-All :
      (p : ℕ × String → Bool) (m : Map ℕ String) (e : ℕ × String)
      → All P m
      → find p m ≡ some e
      → P e
  find-All p [] e h f = cc
  find-All p (x ∷ m) e h f = elim (Bool-cases (p x)) [
    | inl t ↦ let same : x ≡ e = ground arith in subst P same h.0
    | inr t ↦ find-All p m e h.1 (ground arith)
  ]

  clockwise-All :
      (hash : ℕ) (m : Map ℕ String) (e : ℕ × String) → All P m → clockwise hash m ≡ some e → P e
  unfolding clockwise
  clockwise-All hash [] e h c = cc
  clockwise-All hash (x ∷ m) e h c = elim (Option-cases (find (λ y. leb hash y.0) (x ∷ m))) [
    | inl t ↦ let same : x ≡ e = ground arith in subst P same h.0
    | inr (y, t) ↦
        let same : y ≡ e = ground arith in subst P same (find-All (λ y. leb hash y.0) (x ∷ m) y h t)
  ]

never : (hash : ℕ) (m : Map ℕ String) → 0 < length m → clockwise hash m ≢ none
unfolding clockwise
never hash [] h e = omega arith
never hash (x ∷ m) h e = ground arith

clockwise-some :
    (hash : ℕ) (m : Map ℕ String) → 0 < length m → (e : ℕ × String) × (clockwise hash m ≡ some e)
clockwise-some hash m h = elim (Option-cases (clockwise hash m)) [
  | inl e ↦ absurd (never hash m h e)
  | inr found ↦ found
]

module _ (hs : Hashing) where
  add_places-All :
      (P : ℕ × String → Type 0) (id : String) (i n : ℕ) (m : Map ℕ String)
      → ((k : ℕ) → is_place hs id i n k ≡ true → P (k, id))
      → All P m
      → All P (add_places hs id i n m)
  unfolding add_places
  add_places-All P id i zero m p h = h
  add_places-All P id i (suc n) m p h =
      add_places-All P id (suc i) n _ (λ k e. p k (ground arith))
        (insert_sorted-All P (place hs id i) id m (p (place hs id i) (ground arith)) h)

  remove_places-All :
      (P : ℕ × String → Type 0) (id : String) (i n : ℕ) (m : Map ℕ String)
      → All P m
      → All (λ e. P e × (is_place hs id i n e.0 ≡ false)) (remove_places hs id i n m)
  unfolding remove_places
  remove_places-All P id i zero m h =
      All-map {Q = λ e. P e × (false ≡ false)} m (λ e p. (p, refl)) h
  remove_places-All P id i (suc n) m h =
      All-map {Q = λ e. P e × (is_place hs id i (suc n) e.0 ≡ false)} _
        (λ e p. (p.0.0, ground arith))
        (remove_places-All (λ e. P e × ((place hs id i == e.0) ≡ false)) id (suc i) n
          (remove (place hs id i) m) (remove-All P (place hs id i) m h))

  -- On the rings that `new`, `add_node` and `remove_node` make, each entry stands at a place of a
  -- node in the roster: joining keeps this whatever node joins, and leaving keeps it, so that no
  -- entry is left of a node that has gone.
  pub nodes-IsSound :
      (node : RingNode) (id : String) (r : HashRing)
      → IsSound hs r
      → IsSound hs (add_node hs node r) × IsSound hs (remove_node hs id r).0
  unfolding add_node remove_node
  nodes-IsSound node id r h = (
    add_places-All (IsOwned hs r.virtual_nodes (insert node.id node r.nodes)) node.id 0
        r.virtual_nodes r.ring (λ k e. (e, ground (arith, lookup-insert_self node.id node r.nodes)))
        (All-map {Q = IsOwned hs r.virtual_nodes (insert node.id node r.nodes)} r.ring
          (λ e p. (p.0, ground (arith, lookup-insert node.id e.1 node r.nodes))) h),
    elim (Option-cases (lookup id r.nodes)) [
      | inl e ↦ rw (e, remove_node) h
      | inr (n, e) ↦
          rw (e, remove_node)
            (All-map {Q = IsOwned hs r.virtual_nodes (remove id r.nodes)} _
              (λ x p. (p.0.0, ground (arith, lookup-remove id x.1 r.nodes, ==_iff id x.1)))
              (remove_places-All (IsOwned hs r.virtual_nodes r.nodes) id 0 r.virtual_nodes r.ring
                h))
    ],
  )

  -- On a ring that is sound and has an entry, every key is given a node: the lookup in the roster
  -- that may fail does not.
  pub get_node-total :
      (key : List ℕ) (r : HashRing)
      → IsSound hs r
      → 0 < length r.ring
      → (node : RingNode) × (get_node hs key r ≡ some node)
  unfolding get_node
  get_node-total key r h f =
      let (e, c) = clockwise-some (hash_key hs key) r.ring f in
      let owned =
        clockwise-All (IsOwned hs r.virtual_nodes r.nodes) (hash_key hs key) r.ring e h c in
      elim (Option-cases (lookup e.1 r.nodes)) [
        | inl gone ↦ absurd (ground arith)
        | inr (node, e') ↦ (node, rw (c, e', get_node) refl)
      ]
