-- ===== src/Supervisor/Strategy.antt =====
-- Which children a strategy of src/supervisor.rs restarts.
use mathlib.Core.List.{append_assoc}
use lane_switchboards.Base.{
  nat_eq, ℕ, suc, ◌≡◌, refl, sym, ◌∙◌, inl, inr, Bool, true, Option, none, some, List, [], ◌∷◌,
  ◌++◌, arith, leb, Bool-cases, length, filter_by, find, ap, false, Option-cases, any,
}
use lane_switchboards.Actor.Types.{ActorId}
use lane_switchboards.Supervisor.{
  RestartStrategy, one_for_one, one_for_all, rest_for_one, Spawner, ChildSpec, has_id,
  position_from, failed_order, Tree, restart_child, restart_by,
}
use lane_switchboards.Supervisor.Sweep.{
  Swept, sweep, sweep_first, put, put-cons, length-snoc, restart_child-at, restart_range-from,
}

module _ (sp : Spawner) where
  open sp use {Env, Factory, restart}

  -- The pass that a strategy makes for a failed child.
  abbrev pub swept_by :
      RestartStrategy → ActorId → List (ChildSpec Factory) → List ActorId → Env → Swept sp
  swept_by one_for_one id slots = sweep_first sp (has_id id) slots
  swept_by one_for_all id slots = sweep sp (λ _. true) slots
  swept_by rest_for_one id slots = sweep sp (λ s. leb (failed_order id slots) s.order) slots

  -- The branch of the strategy that restarts one child.
  abbrev restart_at : Option ℕ → Tree sp → Tree sp
  restart_at none t = t
  restart_at (some i) t = restart_child sp i t

  position-sweep :
      (id : ActorId) (i : ℕ) (t : Tree sp) (before after : List (ChildSpec Factory))
      (refs refs' : List ActorId)
      → t.slots ≡ before ++ after
      → t.current_refs ≡ refs ++ refs'
      → length before ≡ i
      → length refs ≡ i
      → length after ≡ length refs'
      → restart_at (position_from i id after) t
        ≡ put sp before refs (sweep_first sp (has_id id) after refs' t.env) t
  unfolding position_from sweep_first
  position-sweep id i t before [] refs [] hs hr hb hc ha = cc
  position-sweep id i t before (s ∷ after) refs (r ∷ refs') hs hr hb hc ha =
      elim (Bool-cases (has_id id s)) [
        | inl e ↦ rw e (restart_child-at sp t i before s after refs r refs' hs hr hb hc)
        | inr e ↦ rw e (
            position-sweep id (suc i) t (before ++ s ∷ []) after (refs ++ r ∷ []) refs'
              (hs ∙ sym (append_assoc before _ _)) (hr ∙ sym (append_assoc refs _ _))
              (length-snoc sp before s i hb) (length-snoc sp refs r i hc) (omega arith)
            ∙ put-cons sp before refs s r (sweep_first sp (has_id id) after refs' t.env) t)
      ]
  position-sweep id i t before after refs refs' hs hr hb hc ha = absurd (omega arith)

  -- With a reference for each child, a strategy makes one pass over the children.
  pub restart_by-swept :
      (strategy : RestartStrategy) (id : ActorId) (t : Tree sp)
      → length t.slots ≡ length t.current_refs
      → restart_by sp strategy id t
        ≡ put sp [] [] (swept_by strategy id t.slots t.current_refs t.env) t
  unfolding restart_by
  restart_by-swept one_for_one id t h =
      let p = position-sweep id 0 t [] t.slots [] t.current_refs refl refl refl refl h in
      elim (Option-cases (position_from 0 id t.slots)) [
        | inl e ↦ rw (e, restart_by) (rw e at p)
        | inr (i, e) ↦ rw (e, restart_by) (rw e at p)
      ]
  restart_by-swept one_for_all id t h =
      restart_range-from sp _ (length t.slots) 0 t [] t.slots [] t.current_refs refl refl refl refl
        refl (sym h)
  restart_by-swept rest_for_one id t h =
      restart_range-from sp _ (length t.slots) 0 t [] t.slots [] t.current_refs refl refl refl refl
        refl (sym h)

  -- The children that a strategy means to restart: the first that has the failed child's
  -- identifier; all; or those whose order is not below the failed child's.
  abbrev pub chosen :
      RestartStrategy → ActorId → List (ChildSpec Factory) → List (ChildSpec Factory)
  chosen one_for_one id slots = elim (find (has_id id) slots) [ none ↦ [] | some s ↦ s ∷ [] ]
  chosen one_for_all id slots = slots
  chosen rest_for_one id slots = filter_by (λ s. leb (failed_order id slots) s.order) slots

  -- One call of each factory, in order.
  abbrev pub spawn_each : List (ChildSpec Factory) → Env → Env
  spawn_each [] env = env
  spawn_each (s ∷ slots) env = spawn_each slots (restart s.factory env).1

  env-sweep :
      (test : ChildSpec Factory → Bool) (slots : List (ChildSpec Factory)) (refs : List ActorId)
      (env : Env)
      → length slots ≡ length refs
      → (sweep sp test slots refs env).env ≡ spawn_each (filter_by test slots) env
  unfolding sweep
  env-sweep test [] refs env h = refl
  env-sweep test (s ∷ slots) [] env h = absurd (omega arith)
  env-sweep test (s ∷ slots) (r ∷ refs) env h = elim (Bool-cases (test s)) [
    | inl e ↦ rw e (env-sweep test slots refs (restart s.factory env).1 (omega arith))
    | inr e ↦ rw e (env-sweep test slots refs env (omega arith))
  ]

  env-sweep_first :
      (test : ChildSpec Factory → Bool) (slots : List (ChildSpec Factory)) (refs : List ActorId)
      (env : Env)
      → length slots ≡ length refs
      → (sweep_first sp test slots refs env).env
        ≡ spawn_each (elim (find test slots) [ none ↦ [] | some s ↦ s ∷ [] ]) env
  unfolding sweep_first
  env-sweep_first test [] refs env h = refl
  env-sweep_first test (s ∷ slots) [] env h = absurd (omega arith)
  env-sweep_first test (s ∷ slots) (r ∷ refs) env h = elim (Bool-cases (test s)) [
    | inl e ↦ rw e refl
    | inr e ↦ rw e (env-sweep_first test slots refs env (omega arith))
  ]

  filter_by-all : (slots : List (ChildSpec Factory)) → filter_by (λ _. true) slots ≡ slots
  filter_by-all [] = refl
  filter_by-all (s ∷ slots) = ap (λ l. s ∷ l) (filter_by-all slots)

  env-swept_by :
      (strategy : RestartStrategy) (id : ActorId) (slots : List (ChildSpec Factory))
      (refs : List ActorId) (env : Env)
      → length slots ≡ length refs
      → (swept_by strategy id slots refs env).env ≡ spawn_each (chosen strategy id slots) env
  env-swept_by one_for_one id slots refs env h = env-sweep_first (has_id id) slots refs env h
  env-swept_by one_for_all id slots refs env h =
      env-sweep (λ _. true) slots refs env h ∙ ap (λ l. spawn_each l env) (filter_by-all slots)
  env-swept_by rest_for_one id slots refs env h = env-sweep _ slots refs env h

  -- A strategy calls the factory of each child that it means to restart, once and in the order of
  -- the children, and does nothing else outside the task's own variables; in particular it stops
  -- nobody. There is a reference for each child.
  pub restart_by-env :
      (strategy : RestartStrategy) (id : ActorId) (t : Tree sp)
      → length t.slots ≡ length t.current_refs
      → (restart_by sp strategy id t).env ≡ spawn_each (chosen strategy id t.slots) t.env
  restart_by-env strategy id t h =
      ap (λ (u : Tree sp). u.env) (restart_by-swept strategy id t h)
      ∙ env-swept_by strategy id t.slots t.current_refs t.env h

  find-none :
      (id : ActorId) (slots : List (ChildSpec Factory))
      → any (has_id id) slots ≡ false
      → find (has_id id) slots ≡ none
  find-none id [] h = refl
  find-none id (s ∷ slots) h = ground (arith, find-none id slots)

  filter_by-leb : (slots : List (ChildSpec Factory)) → filter_by (λ s. leb 0 s.order) slots ≡ slots
  filter_by-leb [] = refl
  filter_by-leb (s ∷ slots) = ground (arith, filter_by-leb slots)

  -- A signal from an identifier that no child has, such as that of an instance that has been
  -- replaced, restarts nobody under OneForOne, and every child under OneForAll and RestForOne.
  pub stale_signal :
      (id : ActorId) (t : Tree sp)
      → length t.slots ≡ length t.current_refs
      → any (has_id id) t.slots ≡ false
      → ((restart_by sp one_for_one id t).env ≡ t.env)
        × ((restart_by sp one_for_all id t).env ≡ spawn_each t.slots t.env)
        × ((restart_by sp rest_for_one id t).env ≡ spawn_each t.slots t.env)
  unfolding failed_order
  stale_signal id t h none_ =
      let e = find-none id t.slots none_ in
      let nobody : chosen one_for_one id t.slots ≡ [] = ground (arith, e) in
      (
        restart_by-env one_for_one id t h ∙ ap (λ l. spawn_each l t.env) nobody,
        restart_by-env one_for_all id t h,
        restart_by-env rest_for_one id t h
            ∙ rw (e, failed_order) (ap (λ l. spawn_each l t.env) (filter_by-leb t.slots)),
      )
