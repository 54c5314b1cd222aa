-- ===== src/Cluster/Find.antt =====
-- The members of the roster in src/distributed.rs by name: what `join` and `leave` do to them.
use mathlib.Core.Path.{subst}
use lane_switchboards.Base.{
  nat_eq, string_eq, ℕ, zero, suc, ◌-◌, ◌<◌, String, ◌≡◌, refl, sym, ap, ◌∙◌, ◌≢◌, inl, inr, Option,
  none, some, List, [], ◌∷◌, ◌++◌, arith, ltb, if◌then◌else◌, Bool-cases, Option-cases, ◌==◌,
  ==_iff, ==_refl, length, get_elem?, find, get_elem?-lt, Map, lookup, remove,
}
use lane_switchboards.Cluster.{ClusterMember, reindex}
use lane_switchboards.Cluster.Index.{IsIndex, IsSwapped, reindex-at, reindex-named, reindex-keeps}

-- The member of a name, the first if there are more.
abbrev pub find_member : String → List ClusterMember → Option ClusterMember
find_member name = find (λ m. m.name == name)

pub find_member-name :
    (name : String) (members : List ClusterMember) (m : ClusterMember)
    → find_member name members ≡ some m
    → (i : ℕ) × (get_elem? members i ≡ some m) × (m.name ≡ name)
find_member-name name [] m e = cc
find_member-name name (n ∷ members) m e = elim (Bool-cases (n.name == name)) [
  | inl t ↦
      let same : n ≡ m = ground arith in (zero, ap some same, ground (arith, ==_iff n.name name))
  | inr t ↦ let (i, e1, e2) = find_member-name name members m (ground arith) in (suc i, e1, e2)
]

find_member-some :
    (members : List ClusterMember) (i : ℕ) (m : ClusterMember)
    → get_elem? members i ≡ some m
    → (m' : ClusterMember) × (find_member m.name members ≡ some m')
find_member-some [] i m e = cc
find_member-some (n ∷ members) i m e = elim (Bool-cases (n.name == m.name)) [
  | inl t ↦ (n, rw t refl)
  | inr t ↦
      elim i
          as (λ k.
            get_elem? (n ∷ members) k ≡ some m
            → (m' : ClusterMember) × (find_member m.name (n ∷ members) ≡ some m')) [
              | zero ↦ λ q. absurd (ground (arith, ==_refl m.name))
              | suc k ↦ λ q. let (m', e') = find_member-some members k m q in (m', rw t e')
            ]
        e
]

-- Under an index, the member found at a place is the one of its name.
pub find_member-at :
    (members : List ClusterMember) (ids : Map String ℕ) (i : ℕ) (m : ClusterMember)
    → IsIndex members ids
    → get_elem? members i ≡ some m
    → find_member m.name members ≡ some m
find_member-at members ids i m (at, named) e =
    let (m', e1) = find_member-some members i m e in
    let (k, e2, e3) = find_member-name m.name members m' e1 in
    let same : k ≡ i = ground (arith, at k m' e2, at i m e) in
    let here : get_elem? members i ≡ some m' = rw (sym same) e2 in ground arith

pub find_member-absent :
    (members : List ClusterMember) (ids : Map String ℕ) (name : String)
    → IsIndex members ids
    → lookup name ids ≡ none
    → find_member name members ≡ none
find_member-absent members ids name (at, named) e = elim (Option-cases (find_member name members)) [
  | inl q ↦ q
  | inr (m, q) ↦
      let (i, e1, e2) = find_member-name name members m q in absurd (ground (arith, at i m e1))
]

pub find_member-none :
    (members : List ClusterMember) (ids : Map String ℕ) (name : String)
    → IsIndex members ids
    → find_member name members ≡ none
    → lookup name ids ≡ none
find_member-none members ids name ix e = elim (Option-cases (lookup name ids)) [
  | inl q ↦ q
  | inr (i, q) ↦
      let (m, e1, e2) = ix.1 name i q in
      let there : find_member name members ≡ some m =
        subst (λ (n : String). find_member n members ≡ some m) e2
          (find_member-at members ids i m ix e1) in
      absurd (ground arith)
]

moved :
    (members rest : List ClusterMember) (idx i : ℕ) (m : ClusterMember)
    → IsSwapped idx members rest
    → get_elem? members i ≡ some m
    → i < length members
    → idx < length members
    → i ≢ idx
    → (j : ℕ) × (get_elem? rest j ≡ some m)
moved members rest idx i m (short, swapped) e l l' ne =
    elim (Bool-cases (ltb (suc i) (length members))) [
      | inl t ↦ (i, ground (arith, swapped i))
      | inr t ↦
          let last : i ≡ length members - 1 = ground arith in
          let there : get_elem? members (length members - 1) ≡ some m = rw (sym last) e in
          (idx, ground (arith, swapped idx))
    ]

-- The roster without a name has the members of all other names.
pub find_member-swapped :
    (members rest : List ClusterMember) (ids : Map String ℕ) (name : String) (idx : ℕ)
    → IsIndex members ids
    → lookup name ids ≡ some idx
    → IsSwapped idx members rest
    → (n : String) → find_member n rest ≡ (if name == n then none else find_member n members)
find_member-swapped members rest ids name idx ix found sw n =
    let ids' = reindex idx rest (remove name ids) in
    let ix' : IsIndex rest ids' = (
      reindex-at members rest ids name idx ix found sw,
      reindex-named members rest ids name idx ix found sw,
    ) in
    let kept = reindex-keeps members rest ids name idx ix found sw n in
    elim (Bool-cases (name == n)) [
      | inl t ↦ rw t (find_member-absent rest ids' n ix' (ground arith))
      | inr t ↦ rw t (elim (Option-cases (lookup n ids)) [
        | inl e ↦
            find_member-absent rest ids' n ix' (ground arith)
            ∙ sym (find_member-absent members ids n ix e)
        | inr (i, e) ↦
            let (m, e1, e2) = ix.1 n i e in
            let (a, e3, e4) = ix.1 name idx found in
            let ne : i ≢ idx = λ w. ground (arith, ==_iff name n) in
            let (j, e5) =
              moved members rest idx i m sw e1 (get_elem?-lt members i e1)
                (get_elem?-lt members idx e3) ne in
            rw (sym e2)
              (find_member-at rest ids' j m ix' e5 ∙ sym (find_member-at members ids i m ix e1))
      ])
    ]

pub find_member-append :
    (members : List ClusterMember) (m : ClusterMember) (n : String)
    → find_member m.name members ≡ none
    → find_member n (members ++ m ∷ []) ≡ (if m.name == n then some m else find_member n members)
find_member-append [] m n h = refl
find_member-append (k ∷ members) m n h = elim (Bool-cases (k.name == m.name)) [
  | inl t ↦ absurd (ground arith)
  | inr t ↦
      let later = find_member-append members m n (ground arith) in
      elim (Bool-cases (k.name == n)) [
        | inl q ↦ ground (arith, ==_iff k.name n, ==_iff m.name n, ==_iff k.name m.name)
        | inr q ↦ rw q later
      ]
]
