-- ===== src/Cluster/Index.antt =====
-- The index of names in the roster of src/distributed.rs, kept by `join` and `leave`.
use lane_switchboards.Base.{
  nat_eq, string_eq, ℕ, zero, suc, ◌-◌, ◌<◌, String, ◌≡◌, refl, ◌≢◌, ◌⊎◌, inl, inr, false, none,
  some, List, [], ◌∷◌, ◌++◌, arith, ltb, if◌then◌else◌, Bool-cases, Option-cases, ◌==◌, ==_iff,
  ==_refl, length, get_elem?, get_elem?-lt, Map, is_some, lookup, insert, remove, lookup-insert,
  lookup-remove,
}
use lane_switchboards.Cluster.{ClusterMember, reindex}

-- The index of names says where each member stands, and names nothing else.
abbrev pub IsIndex : List ClusterMember → Map String ℕ → Type 0
IsIndex members refs_by_id =
    ((i : ℕ) (m : ClusterMember) → get_elem? members i ≡ some m → lookup m.name refs_by_id ≡ some i)
    × ((name : String) (i : ℕ)
        → lookup name refs_by_id ≡ some i
        → (m : ClusterMember) × (get_elem? members i ≡ some m) × (m.name ≡ name))

pub get_elem?-append :
    {A : Type 0}
    → (xs : List A) (y : A) (i : ℕ)
    → get_elem? (xs ++ y ∷ []) i ≡ (if i == length xs then some y else get_elem? xs i)
get_elem?-append [] y zero = ground arith
get_elem?-append [] y (suc i) = ground arith
get_elem?-append (x ∷ xs) y zero = ground arith
get_elem?-append (x ∷ xs) y (suc i) = ground (arith, get_elem?-append xs y i)

pub append-IsIndex :
    (members : List ClusterMember) (refs_by_id : Map String ℕ) (m : ClusterMember)
    → lookup m.name refs_by_id ≡ none
    → IsIndex members refs_by_id
    → IsIndex (members ++ m ∷ []) (insert m.name (length members) refs_by_id)
append-IsIndex members refs_by_id m fresh (at, named) = (
  λ i n e. ground (
    arith,
    get_elem?-append members m i,
    lookup-insert m.name n.name (length members) refs_by_id,
    ==_iff m.name n.name,
    at i n,
  ),
  λ name i e. elim (Bool-cases (m.name == name)) [
    | inl t ↦ (
      m,
      ground (
        arith,
        get_elem?-append members m i,
        lookup-insert m.name name (length members) refs_by_id,
      ),
      ground (arith, ==_iff m.name name),
    )
    | inr t ↦
        let old : lookup name refs_by_id ≡ some i =
          ground (arith, lookup-insert m.name name (length members) refs_by_id) in
        let (n, e1, e2) = named name i old in
        (n, ground (arith, get_elem?-append members m i, get_elem?-lt members i e1), e2)
  ],
)

-- The elements are those of another list after `swap_remove` at the index.
abbrev pub IsSwapped : {A : Type 0} → ℕ → List A → List A → Type 0
IsSwapped idx xs rest =
    (suc (length rest) ≡ length xs)
    × ((j : ℕ)
        → get_elem? rest j ≡ (
            if ltb (suc j) (length xs)
            then (if j == idx then get_elem? xs (length xs - 1) else get_elem? xs j)
            else none))

lookup-reindex :
    (n : String) (idx : ℕ) (rest : List ClusterMember) (refs_by_id : Map String ℕ)
    → ((get_elem? rest idx ≡ none) × (lookup n (reindex idx rest refs_by_id) ≡ lookup n refs_by_id))
      ⊎ ((moved : ClusterMember) × (get_elem? rest idx ≡ some moved)
          × (lookup n (reindex idx rest refs_by_id)
              ≡ (if moved.name == n then some idx else lookup n refs_by_id)))
unfolding reindex
lookup-reindex n idx rest refs_by_id = elim (Option-cases (get_elem? rest idx)) [
  | inl e ↦ inl (e, rw (e, reindex) refl)
  | inr (moved, e) ↦ inr (moved, e, rw (e, reindex) (lookup-insert moved.name n idx refs_by_id))
]

pub reindex-at :
    (members rest : List ClusterMember) (refs_by_id : Map String ℕ) (name : String) (idx : ℕ)
    → IsIndex members refs_by_id
    → lookup name refs_by_id ≡ some idx
    → IsSwapped idx members rest
    → (i : ℕ) (m : ClusterMember) → get_elem? rest i ≡ some m
    → lookup m.name (reindex idx rest (remove name refs_by_id)) ≡ some i
reindex-at members rest refs_by_id name idx (at, named) found (short, swapped) i m e =
    elim (lookup-reindex m.name idx rest (remove name refs_by_id)) [
      | inl (outside, same) ↦
          let lt : suc i < length members = ground (arith, swapped i) in
          let ne : i ≢ idx = λ q. ground (arith) in
          let old : get_elem? members i ≡ some m = ground (arith, swapped i) in
          ground (arith, at i m old, lookup-remove name m.name refs_by_id, ==_iff name m.name)
      | inr (moved, inside, same) ↦ elim (Bool-cases (i == idx)) [
        | inl t ↦ let this : moved ≡ m = ground arith in ground (arith, ==_refl m.name)
        | inr t ↦
            let lt : suc i < length members = ground (arith, swapped i) in
            let old : get_elem? members i ≡ some m = ground (arith, swapped i) in
            let last : get_elem? members (length members - 1) ≡ some moved =
              ground (arith, swapped idx) in
            ground (
              arith,
              at i m old,
              at (length members - 1) moved last,
              lookup-remove name m.name refs_by_id,
              ==_iff name m.name,
              ==_iff moved.name m.name,
            )
      ]
    ]

pub reindex-named :
    (members rest : List ClusterMember) (refs_by_id : Map String ℕ) (name : String) (idx : ℕ)
    → IsIndex members refs_by_id
    → lookup name refs_by_id ≡ some idx
    → IsSwapped idx members rest
    → (n : String) (i : ℕ) → lookup n (reindex idx rest (remove name refs_by_id)) ≡ some i
    → (m : ClusterMember) × (get_elem? rest i ≡ some m) × (m.name ≡ n)
reindex-named members rest refs_by_id name idx (at, named) found (short, swapped) n i e =
    let old : (lookup n (remove name refs_by_id) ≡ some i)
        → (m : ClusterMember) × (get_elem? members i ≡ some m) × (m.name ≡ n) × (i ≢ idx) =
      λ q.
        let kept : (lookup n refs_by_id ≡ some i) × (name ≢ n) =
          ground (arith, lookup-remove name n refs_by_id, ==_iff name n) in
        let (m, e1, e2) = named n i kept.0 in
        let (a, e3, e4) = named name idx found in (m, e1, e2, λ w. ground arith) in
    elim (lookup-reindex n idx rest (remove name refs_by_id)) [
      | inl (outside, same) ↦
          let (m, e1, e2, ne) = old (ground arith) in
          (
            m,
            ground (
              arith,
              swapped i,
              swapped idx,
              get_elem?-lt members i e1,
              get_elem?-lt members idx (named name idx found).1,
            ),
            e2,
          )
      | inr (moved, inside, same) ↦ elim (Bool-cases (moved.name == n)) [
        | inl t ↦
            let this : i ≡ idx = ground arith in
            (moved, rw this inside, ground (arith, ==_iff moved.name n))
        | inr t ↦
            let (m, e1, e2, ne) = old (ground arith) in
            let last : get_elem? members (length members - 1) ≡ some moved =
              ground (arith, swapped idx) in
            (m, ground (arith, swapped i, get_elem?-lt members i e1, ==_iff moved.name n), e2)
      ]
    ]

pub reindex-keeps :
    (members rest : List ClusterMember) (refs_by_id : Map String ℕ) (name : String) (idx : ℕ)
    → IsIndex members refs_by_id
    → lookup name refs_by_id ≡ some idx
    → IsSwapped idx members rest
    → (k : String)
    → is_some (lookup k (reindex idx rest (remove name refs_by_id)))
      ≡ (if name == k then false else is_some (lookup k refs_by_id))
reindex-keeps members rest refs_by_id name idx (at, named) found (short, swapped) k =
    elim (lookup-reindex k idx rest (remove name refs_by_id)) [
      | inl (outside, same) ↦ ground (arith, lookup-remove name k refs_by_id)
      | inr (moved, inside, same) ↦
          let lt : suc idx < length members = ground (arith, swapped idx) in
          let last : get_elem? members (length members - 1) ≡ some moved =
            ground (arith, swapped idx) in
          ground (
            arith,
            lookup-remove name k refs_by_id,
            at (length members - 1) moved last,
            ==_iff moved.name k,
            ==_iff name k,
          )
    ]
