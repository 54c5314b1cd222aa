-- ===== src/Cluster/Swap.antt =====
-- `Vec::swap_remove`, as src/distributed.rs uses it on the roster.
use lane_switchboards.Base.{
  nat_eq, ℕ, zero, suc, ◌-◌, ◌<◌, ◌≡◌, refl, Option, none, some, List, [], ◌∷◌, arith, ltb,
  if◌then◌else◌, ◌==◌, length, get_elem?, set, length-set, get_elem?-set_self, get_elem?-set_ne,
  get_elem?-some,
}

-- All but the last element.
abbrev pub drop_last {ℓ} : {A : Type ℓ} → List A → List A
drop_last [] = []
drop_last (x ∷ []) = []
drop_last (x ∷ y ∷ xs) = x ∷ drop_last (y ∷ xs)

-- The last element, or else the one given.
abbrev pub last_or {ℓ} : {A : Type ℓ} → A → List A → A
last_or a [] = a
last_or a (x ∷ xs) = last_or x xs

-- Takes an element out and puts the last one in its place; it panics out of bounds, which is
-- `none`.
unfoldable pub swap_remove {ℓ} : {A : Type ℓ} → ℕ → List A → Option (A × List A)
swap_remove i xs = elim (get_elem? xs i) [
  | none ↦ none
  | some a ↦ some (a, drop_last (set xs i (last_or a xs)))
]

module _ {ℓ} {A : Type ℓ} where
  pub get_elem?-drop_last :
      (xs : List A) (j : ℕ)
      → get_elem? (drop_last xs) j ≡ (if ltb (suc j) (length xs) then get_elem? xs j else none)
  get_elem?-drop_last [] j = ground arith
  get_elem?-drop_last (x ∷ []) j = ground arith
  get_elem?-drop_last (x ∷ y ∷ xs) zero = ground arith
  get_elem?-drop_last (x ∷ y ∷ xs) (suc j) = ground (arith, get_elem?-drop_last (y ∷ xs) j)

  pub get_elem?-last_or :
      (a : A) (xs : List A) (j : ℕ) → suc j ≡ length xs → get_elem? xs j ≡ some (last_or a xs)
  get_elem?-last_or a [] j h = absurd (omega arith)
  get_elem?-last_or a (x ∷ []) zero h = refl
  get_elem?-last_or a (x ∷ []) (suc j) h = absurd (omega arith)
  get_elem?-last_or a (x ∷ y ∷ xs) zero h = absurd (omega arith)
  get_elem?-last_or a (x ∷ y ∷ xs) (suc j) h = get_elem?-last_or x (y ∷ xs) j (omega arith)

  pub length-drop_last : (xs : List A) → length (drop_last xs) ≡ length xs - 1
  length-drop_last [] = refl
  length-drop_last (x ∷ []) = refl
  length-drop_last (x ∷ y ∷ xs) = omega (arith, length-drop_last (y ∷ xs))

module _ {A : Type 0} where
  get_elem?-swapped :
      (i : ℕ) (a : A) (xs : List A) (j : ℕ)
      → i < length xs
      → get_elem? (drop_last (set xs i (last_or a xs))) j ≡ (
          if ltb (suc j) (length xs)
          then (if j == i then get_elem? xs (length xs - 1) else get_elem? xs j)
          else none)
  get_elem?-swapped i a xs j h = ground (
    arith,
    get_elem?-drop_last (set xs i (last_or a xs)) j,
    length-set xs i (last_or a xs),
    get_elem?-set_self xs i (last_or a xs) h,
    get_elem?-set_ne xs i j (last_or a xs),
    get_elem?-last_or a xs (length xs - 1),
  )

  -- In bounds, `swap_remove` takes out the element at the index; the list that is left is shorter
  -- by one, has the last element at the index if that is still in bounds, and the others where they
  -- were.
  pub swap_remove_lem :
      (i : ℕ) (xs : List A)
      → i < length xs
      → (a : A) × (rest : List A) × (swap_remove i xs ≡ some (a, rest))
        × (get_elem? xs i ≡ some a)
        × (suc (length rest) ≡ length xs)
        × ((j : ℕ)
            → get_elem? rest j ≡ (
                if ltb (suc j) (length xs)
                then (if j == i then get_elem? xs (length xs - 1) else get_elem? xs j)
                else none))
  unfolding swap_remove
  swap_remove_lem i xs h =
      let (a, e) = get_elem?-some xs i h in
      (
        a,
        drop_last (set xs i (last_or a xs)),
        rw (e, swap_remove) refl,
        e,
        omega (arith, length-drop_last (set xs i (last_or a xs)), length-set xs i (last_or a xs)),
        λ j. get_elem?-swapped i a xs j h,
      )
