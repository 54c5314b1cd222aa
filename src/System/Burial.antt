-- ===== src/System/Burial.antt =====
-- A child of src/supervisor.rs that is abandoned: its slot is marked dead, and nobody else is
-- forgotten.
use lane_switchboards.Base.{
  nat_eq, ℕ, ◌≡◌, refl, sym, ◌≢◌, inl, inr, List, [], ◌∷◌, arith, Eq, length, All, All-both,
  Bool-cases, ◌==◌, ==_iff,
}
use lane_switchboards.Actor.Types.{ActorId, dead}
use lane_switchboards.Actor.World.{World}
use lane_switchboards.Supervisor.{ChildSpec, set_id, bury, has_id}
use lane_switchboards.System.Watched.{Watched, buried}
use lane_switchboards.System.Passes.{Differ, AreApart, AreBelow, Spared, Spared-rest}

module _ (channel : ℕ) {K : Type 0} ⦃e : Eq K⦄ where
  pub length-bury :
      (id : ActorId) (slots : List (ChildSpec K)) → length (bury id slots) ≡ length slots
  unfolding bury
  length-bury id [] = refl
  length-bury id (s ∷ slots) = ground (arith, length-bury id slots)

  pub bury-AreBelow :
      (id n : ℕ) (slots : List (ChildSpec K)) → AreBelow n slots → AreBelow n (bury id slots)
  unfolding bury set_id
  bury-AreBelow id n [] h = tt
  bury-AreBelow id n (s ∷ slots) h = elim (Bool-cases (has_id id s)) [
    | inl t ↦ rw t (omega (arith, h.0), h.1)
    | inr t ↦ rw t (h.0, bury-AreBelow id n slots h.1)
  ]

  bury-Differ :
      (id j : ActorId) (slots : List (ChildSpec K))
      → j ≢ dead
      → Differ j slots
      → Differ j (bury id slots)
  unfolding bury set_id
  bury-Differ id j [] z h = tt
  bury-Differ id j (s ∷ slots) z h = elim (Bool-cases (has_id id s)) [
    | inl t ↦ rw t (λ q. z (sym q), h.1)
    | inr t ↦ rw t (h.0, bury-Differ id j slots z h.1)
  ]

  pub bury-AreApart :
      (id : ActorId) (slots : List (ChildSpec K)) → AreApart slots → AreApart (bury id slots)
  unfolding bury set_id
  bury-AreApart id [] h = tt
  bury-AreApart id (s ∷ slots) h = elim (Bool-cases (has_id id s)) [
    | inl t ↦ rw t (λ z. absurd (z refl), h.1)
    | inr t ↦ rw t (λ z. bury-Differ id s.id slots z (h.0 z), bury-AreApart id slots h.1)
  ]

  Watched-unless :
      (id : ActorId) (w : World) (silent : List ActorId) (x : ChildSpec K)
      → Spared id x
      → ((x.id ≢ id) → Watched channel w silent x.id)
      → Watched channel w silent x.id
  Watched-unless id w silent x p f = elim (Bool-cases (x.id == id)) [
    | inl t ↦ buried (p ((==_iff x.id id).0 t))
    | inr t ↦ f (λ n. ground (arith, ==_iff x.id id))
  ]

  pub bury-Watched :
      (id : ActorId) (w : World) (silent : List ActorId) (slots : List (ChildSpec K))
      → AreApart slots
      → All (λ s. (s.id ≢ id) → Watched channel w silent s.id) slots
      → All (λ s. Watched channel w silent s.id) (bury id slots)
  unfolding bury set_id
  bury-Watched id w silent [] a h = tt
  bury-Watched id w silent (s ∷ slots) a h = elim (Bool-cases (has_id id s)) [
    | inl t ↦ rw t (
      buried refl,
      All-both slots (λ x p f. Watched-unless id w silent x p f)
          (Spared-rest channel id s slots ((==_iff s.id id).0 t) a.0) h.1,
    )
    | inr t ↦
        rw t (h.0 (λ q. ground (arith, ==_iff s.id id)), bury-Watched id w silent slots a.1 h.1)
  ]
