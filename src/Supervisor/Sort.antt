-- ===== src/Supervisor/Sort.antt =====
-- The order of the children of src/supervisor.rs.
use mathlib.Core.List.Perm
use mathlib.Core.List.{Perm}
use lane_switchboards.Base.{
  nat_eq, ℕ, ◌≤◌, ◌≡◌, refl, ◌∙◌, inl, inr, List, [], ◌∷◌, arith, leb, Bool-cases, ◌==◌, filter_by,
}
use lane_switchboards.Supervisor.{ChildSpec, insert_slot, sort_slots}

module _ {Factory : Type 0} where
  -- The orders do not fall, from `low` on.
  abbrev pub InOrder : ℕ → List (ChildSpec Factory) → Type 0
  InOrder low [] = Unit {0}
  InOrder low (s ∷ slots) = (low ≤ s.order) × InOrder s.order slots

  -- The children of one order, as they stand.
  abbrev pub of_order : ℕ → List (ChildSpec Factory) → List (ChildSpec Factory)
  of_order k = filter_by (λ s. s.order == k)

  insert_slot-InOrder :
      (low : ℕ) (s : ChildSpec Factory) (slots : List (ChildSpec Factory))
      → low ≤ s.order
      → InOrder low slots
      → InOrder low (insert_slot s slots)
  unfolding insert_slot
  insert_slot-InOrder low s [] h o = (h, tt)
  insert_slot-InOrder low s (x ∷ slots) h o = ground (arith, insert_slot-InOrder x.order s slots)

  insert_slot-perm :
      (s : ChildSpec Factory) (slots : List (ChildSpec Factory))
      → Perm (insert_slot s slots) (s ∷ slots)
  unfolding insert_slot
  insert_slot-perm s [] = Perm.refl (s ∷ [])
  insert_slot-perm s (x ∷ slots) = elim (Bool-cases (leb s.order x.order)) [
    | inl e ↦ rw e (Perm.refl _)
    | inr e ↦ rw e (Perm.trans (Perm.cons x (insert_slot-perm s slots)) (Perm.swap s x slots))
  ]

  insert_slot-stable :
      (k : ℕ) (s : ChildSpec Factory) (slots : List (ChildSpec Factory))
      → of_order k (insert_slot s slots) ≡ of_order k (s ∷ slots)
  unfolding insert_slot
  insert_slot-stable k s [] = refl
  insert_slot-stable k s (x ∷ slots) = ground (arith, insert_slot-stable k s slots)

  -- The sort gives the same children, by rising order, and leaves those of one order as they stood.
  pub sort_slots-sorts :
      (slots : List (ChildSpec Factory))
      → InOrder 0 (sort_slots slots)
        × Perm (sort_slots slots) slots
        × ((k : ℕ) → of_order k (sort_slots slots) ≡ of_order k slots)
  unfolding sort_slots
  sort_slots-sorts [] = (tt, Perm.refl [], λ k. refl)
  sort_slots-sorts (s ∷ slots) =
      let (o, p, e) = sort_slots-sorts slots in
      (
        insert_slot-InOrder 0 s (sort_slots slots) (omega arith) o,
        Perm.trans (insert_slot-perm s (sort_slots slots)) (Perm.cons s p),
        λ k. insert_slot-stable k s (sort_slots slots) ∙ ground (arith, e k),
      )
