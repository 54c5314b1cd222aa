-- ===== src/System/Passes.antt =====
-- A pass of the supervisor of src/supervisor.rs over its children, whatever the strategy: no child
-- is forgotten by it.
use mathlib.Core.Path.{subst}
use lane_switchboards.Base.{
  nat_eq, ℕ, ◌<◌, ◌≡◌, refl, sym, ◌∙◌, ◌≢◌, inl, inr, Bool, true, false, some, List, [], ◌∷◌, arith,
  Bool-cases, Eq, ◌==◌, ==_iff, length, All, All-intro, All-map, leb,
}
use lane_switchboards.Actor.Types.{ActorId, dead}
use lane_switchboards.Actor.Spawn.{spawned}
use lane_switchboards.Supervisor.{
  RestartStrategy, one_for_one, one_for_all, rest_for_one, ChildSpec, set_id, has_id, failed_order,
}
use lane_switchboards.Supervisor.Children.{spawn_named}
use lane_switchboards.Supervisor.Sweep.{sweep, sweep_first}
use lane_switchboards.Supervisor.Strategy.{swept_by}
use lane_switchboards.System.{Runtime, spawn_task, note_birth, task_spawner}

module _ {K : Type 0} where
  abbrev pub Differ : ActorId → List (ChildSpec K) → Type 0
  Differ id slots = All (λ x. x.id ≢ id) slots

  -- Only the mark of dead children stands in more than one slot.
  abbrev pub AreApart : List (ChildSpec K) → Type 0
  AreApart [] = Unit {0}
  AreApart (s ∷ slots) = (s.id ≢ dead → Differ s.id slots) × AreApart slots

  abbrev pub AreBelow : ℕ → List (ChildSpec K) → Type 0
  AreBelow n slots = All (λ x. x.id < n) slots

  -- The child whose signal has been taken may stay only if it is marked dead.
  abbrev pub Spared : ActorId → ChildSpec K → Type 0
  Spared id s = s.id ≡ id → s.id ≡ dead

module _ (channel : ℕ) {K : Type 0} ⦃e : Eq K⦄ where
  -- A pass: each child is restarted or, if it may, kept.
  pub data Pass (id : ActorId)
      : List (ChildSpec K) → Runtime K → List (ChildSpec K) → Runtime K → Type 0 where
    finished : (env : Runtime K) → Pass id [] env [] env
    kept :
        (s : ChildSpec K) {slots slots' : List (ChildSpec K)} {env env' : Runtime K}
        → Spared id s
        → Pass id slots env slots' env'
        → Pass id (s ∷ slots) env (s ∷ slots') env'
    restarted :
        (s : ChildSpec K) {slots slots' : List (ChildSpec K)} {env env' : Runtime K}
        → Pass id slots (spawn_task channel s.factory env).1 slots' env'
        → Pass id (s ∷ slots) env (set_id env.shared.world.counter s ∷ slots') env'

  pub spawn_task_lem :
      (name : K) (env : Runtime K)
      → ((spawn_task channel name env).0 ≡ some env.shared.world.counter)
        × ((spawn_task channel name env).1.shared.world
            ≡ (spawned (some channel) env.shared.world).1)
  unfolding spawn_task note_birth spawn_named spawned
  spawn_task_lem name env = (refl, refl)

  kept-all :
      (id : ActorId) (slots : List (ChildSpec K)) (env : Runtime K)
      → All (Spared id) slots
      → Pass id slots env slots env
  kept-all id [] env h = finished env
  kept-all id (s ∷ slots) env h = kept s h.0 (kept-all id slots env h.1)

  sweep-Pass :
      (id : ActorId) (test : ChildSpec K → Bool) (slots : List (ChildSpec K)) (refs : List ActorId)
      (env : Runtime K)
      → length slots ≡ length refs
      → All (λ s. test s ≡ false → Spared id s) slots
      → let w = sweep (task_spawner channel K) test slots refs env in
        Pass id slots env w.slots w.env
  unfolding sweep
  sweep-Pass id test [] refs env l h = finished env
  sweep-Pass id test (s ∷ slots) [] env l h = absurd (omega arith)
  sweep-Pass id test (s ∷ slots) (r ∷ refs) env l h = elim (Bool-cases (test s)) [
    | inl t ↦
        rw (t, (spawn_task_lem s.factory env).0)
          (restarted s
            (sweep-Pass id test slots refs (spawn_task channel s.factory env).1 (omega arith) h.1))
    | inr t ↦ rw t (kept s (h.0 t) (sweep-Pass id test slots refs env (omega arith) h.1))
  ]

  pub Spared-rest :
      (id : ActorId) (s : ChildSpec K) (slots : List (ChildSpec K))
      → s.id ≡ id
      → (s.id ≢ dead → Differ s.id slots)
      → All (Spared id) slots
  Spared-rest id s slots q h = elim (Bool-cases (s.id == dead)) [
    | inl t ↦ All-intro slots (λ x p. p ∙ sym q ∙ (==_iff s.id dead).0 t)
    | inr t ↦
        All-map slots (λ x n p. absurd (n (p ∙ sym q))) (h (λ z. ground (arith, ==_iff s.id dead)))
  ]

  sweep_first-Pass :
      (id : ActorId) (slots : List (ChildSpec K)) (refs : List ActorId) (env : Runtime K)
      → length slots ≡ length refs
      → AreApart slots
      → let w = sweep_first (task_spawner channel K) (has_id id) slots refs env in
        Pass id slots env w.slots w.env
  unfolding sweep_first
  sweep_first-Pass id [] refs env l h = finished env
  sweep_first-Pass id (s ∷ slots) [] env l h = absurd (omega arith)
  sweep_first-Pass id (s ∷ slots) (r ∷ refs) env l h = elim (Bool-cases (has_id id s)) [
    | inl t ↦
        rw (t, (spawn_task_lem s.factory env).0)
          (restarted s (
            kept-all id slots (spawn_task channel s.factory env).1
              (Spared-rest id s slots ((==_iff s.id id).0 t) h.0)))
    | inr t ↦ rw t (
        kept s (λ q. ground (arith, ==_iff s.id id))
          (sweep_first-Pass id slots refs env (omega arith) h.1))
  ]

  failed_order-head :
      (id : ActorId) (s : ChildSpec K) (slots : List (ChildSpec K))
      → has_id id s ≡ true
      → failed_order id (s ∷ slots) ≡ s.order
  unfolding failed_order
  failed_order-head id s slots t = rw (t, failed_order) refl

  failed_order-tail :
      (id : ActorId) (s : ChildSpec K) (slots : List (ChildSpec K))
      → has_id id s ≡ false
      → failed_order id (s ∷ slots) ≡ failed_order id slots
  unfolding failed_order
  failed_order-tail id s slots t = rw (t, failed_order) refl

  abbrev SparedBelow : ActorId → List (ChildSpec K) → ℕ → Type 0
  SparedBelow id slots n = All (λ s. leb n s.order ≡ false → Spared id s) slots

  -- A child below the failed child's order is not the failed child.
  spared_below :
      (id : ActorId) (slots : List (ChildSpec K))
      → AreApart slots
      → SparedBelow id slots (failed_order id slots)
  spared_below id [] h = tt
  spared_below id (s ∷ slots) h = elim (Bool-cases (has_id id s)) [
    | inl t ↦ subst (SparedBelow id (s ∷ slots)) (sym (failed_order-head id s slots t)) (
      λ b. ground arith,
      All-map slots (λ x p b. p) (Spared-rest id s slots ((==_iff s.id id).0 t) h.0),
    )
    | inr t ↦
        subst (SparedBelow id (s ∷ slots)) (sym (failed_order-tail id s slots t))
          (λ b q. ground (arith, ==_iff s.id id), spared_below id slots h.1)
  ]

  -- Every strategy makes such a pass.
  pub swept_by-Pass :
      (strategy : RestartStrategy) (id : ActorId) (slots : List (ChildSpec K)) (refs : List ActorId)
      (env : Runtime K)
      → length slots ≡ length refs
      → AreApart slots
      → let w = swept_by (task_spawner channel K) strategy id slots refs env in
        Pass id slots env w.slots w.env
  swept_by-Pass one_for_one id slots refs env l h = sweep_first-Pass id slots refs env l h
  swept_by-Pass one_for_all id slots refs env l h =
      sweep-Pass id (λ _. true) slots refs env l (All-intro slots (λ s b. cc))
  swept_by-Pass rest_for_one id slots refs env l h =
      sweep-Pass id (λ s. leb (failed_order id slots) s.order) slots refs env l
        (spared_below id slots h)
