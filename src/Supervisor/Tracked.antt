-- ===== src/Supervisor/Tracked.antt =====
-- The registry of names of a running supervision tree of src/supervisor.rs.
use lane_switchboards.Base.{
  nat_eq, ◌≡◌, refl, sym, ap, ◌≢◌, inl, inr, List, [], ◌∷◌, leb, Bool-cases, ℕ, ◌∙◌, true, reverse,
  ltb, Eq, length, some, ◌≤◌, by_test, from_secs,
}
use lane_switchboards.Config.{ActorConfig}
use lane_switchboards.Cluster.{returns}
use lane_switchboards.Actor.Types.{ActorId}
use lane_switchboards.Supervisor.{
  RestartStrategy, one_for_one, one_for_all, rest_for_one, shutdown_supervisor, abandon_child,
  SupervisorConfig, SupervisorEvent, shutdown, signal, ChildSpec, set_id, bury, Tree, insert_slot,
  sort_slots, has_id, failed_order, note_signal, restart_by, stop_each, stop_all, exceeded,
  on_signal, on_event, run_supervisor, ended, count_signal,
}
use lane_switchboards.Supervisor.Children.{Shared, named_spawner}
use lane_switchboards.Supervisor.Runs.{OnPhase, run_supervisor-OnPhase}
use lane_switchboards.Supervisor.Strategy.{swept_by, restart_by-swept}
use lane_switchboards.Supervisor.Start.{start_settled, begin_task, start_settled-begins}
use lane_switchboards.Supervisor.Names.{
  names, IsDistinct, IsTracked, Apart, IsPass, sweep-IsPass, sweep_first-IsPass, length-names,
  IsTracked-length, spawn_pass-IsPass,
}

module _ {K : Type 0} where
  names-bury : (id : ActorId) (slots : List (ChildSpec K)) → names (bury id slots) ≡ names slots
  unfolding bury set_id
  names-bury id [] = refl
  names-bury id (s ∷ slots) = elim (Bool-cases (has_id id s)) [
    | inl t ↦ rw t refl
    | inr t ↦ rw t (ap (λ l. s.factory ∷ l) (names-bury id slots))
  ]

  Apart-insert_slot :
      (name : K) (s : ChildSpec K) (slots : List (ChildSpec K))
      → name ≢ s.factory
      → Apart name (names slots)
      → Apart name (names (insert_slot s slots))
  unfolding insert_slot
  Apart-insert_slot name s [] n a = (n, tt)
  Apart-insert_slot name s (x ∷ slots) n a = elim (Bool-cases (leb s.order x.order)) [
    | inl t ↦ rw t (n, a)
    | inr t ↦ rw t (a.0, Apart-insert_slot name s slots n a.1)
  ]

  IsDistinct-insert_slot :
      (s : ChildSpec K) (slots : List (ChildSpec K))
      → Apart s.factory (names slots)
      → IsDistinct (names slots)
      → IsDistinct (names (insert_slot s slots))
  unfolding insert_slot
  IsDistinct-insert_slot s [] a d = (tt, tt)
  IsDistinct-insert_slot s (x ∷ slots) a d = elim (Bool-cases (leb s.order x.order)) [
    | inl t ↦ rw t (a, d)
    | inr t ↦ rw t (
      Apart-insert_slot x.factory s slots (λ q. a.0 (sym q)) d.0,
      IsDistinct-insert_slot s slots a.1 d.1,
    )
  ]

  Apart-sort_slots :
      (name : K) (slots : List (ChildSpec K))
      → Apart name (names slots)
      → Apart name (names (sort_slots slots))
  unfolding sort_slots
  Apart-sort_slots name [] a = tt
  Apart-sort_slots name (s ∷ slots) a =
      Apart-insert_slot name s (sort_slots slots) a.0 (Apart-sort_slots name slots a.1)

  IsDistinct-sort_slots :
      (slots : List (ChildSpec K))
      → IsDistinct (names slots)
      → IsDistinct (names (sort_slots slots))
  unfolding sort_slots
  IsDistinct-sort_slots [] d = tt
  IsDistinct-sort_slots (s ∷ slots) d =
      IsDistinct-insert_slot s (sort_slots slots) (Apart-sort_slots s.factory slots d.0)
        (IsDistinct-sort_slots slots d.1)

module _ (channel : ℕ) {K : Type 0} ⦃e : Eq K⦄ where
  -- The tree has these names, in this order, and the registry has for each the reference that the
  -- supervisor holds.
  abbrev pub IsCurrent : List K → Tree (named_spawner channel K) → Type 0
  IsCurrent ks t = (names t.slots ≡ ks) × IsTracked ks t.current_refs t.env.registry

  swept_by-IsPass :
      (strategy : RestartStrategy) (id : ActorId) (slots : List (ChildSpec K)) (refs : List ActorId)
      (env : Shared K)
      → IsTracked (names slots) refs env.registry
      → IsDistinct (names slots)
      → let w = swept_by (named_spawner channel K) strategy id slots refs env in
        IsPass (names slots) env w.slots w.refs w.env
  swept_by-IsPass one_for_one id slots refs env h d =
      sweep_first-IsPass channel (has_id id) slots refs env h d
  swept_by-IsPass one_for_all id slots refs env h d =
      sweep-IsPass channel (λ _. true) slots refs env h d
  swept_by-IsPass rest_for_one id slots refs env h d =
      sweep-IsPass channel (λ s. leb (failed_order id slots) s.order) slots refs env h d

  restart_by-IsCurrent :
      (ks : List K) (strategy : RestartStrategy) (id : ActorId) (t : Tree (named_spawner channel K))
      → IsDistinct ks
      → IsCurrent ks t
      → IsCurrent ks (restart_by (named_spawner channel K) strategy id t)
  restart_by-IsCurrent ks strategy id t d (n, h) =
      let h₁ : IsTracked (names t.slots) t.current_refs t.env.registry = rw n h in
      let d₁ : IsDistinct (names t.slots) = rw n d in
      let (n', h', f) = swept_by-IsPass strategy id t.slots t.current_refs t.env h₁ d₁ in
      rw
        (restart_by-swept (named_spawner channel K) strategy id t (
          sym (length-names t.slots)
          ∙ IsTracked-length (names t.slots) t.current_refs t.env.registry h₁))
        (n' ∙ n, rw (sym n) h')

  stop_each-same :
      (refs : List ActorId) (env : Shared K) → stop_each (named_spawner channel K) refs env ≡ env
  unfolding stop_each
  stop_each-same [] env = refl
  stop_each-same (r ∷ refs) env = stop_each-same refs env

  stop_all-IsCurrent :
      (ks : List K) (t : Tree (named_spawner channel K))
      → IsCurrent ks t
      → IsCurrent ks (stop_all (named_spawner channel K) t)
  unfolding stop_all
  stop_all-IsCurrent ks t (n, h) = (n, rw (stop_each-same (reverse t.current_refs) t.env) h)

  count_signal-IsCurrent :
      (config : SupervisorConfig) (ks : List K) (id : ActorId) (now : ℕ)
      (t : Tree (named_spawner channel K))
      → IsDistinct ks
      → IsCurrent ks t
      → OnPhase
          (named_spawner channel K)
          (IsCurrent ks)
          (count_signal (named_spawner channel K) config id now t)
  unfolding count_signal exceeded
  count_signal-IsCurrent config ks id now t d c =
      let log = note_signal config.within_secs now t.restart_log in
      let t' : Tree (named_spawner channel K) = record t { restart_log = log } in
      elim (Bool-cases (ltb config.max_restarts (length log))) [
        | inl q ↦
            rw q
              (elim config.intensity_action
                as (λ a.
                  OnPhase (named_spawner channel K) (IsCurrent ks)
                    (exceeded (named_spawner channel K) a id t')) [
                      | shutdown_supervisor ↦ stop_all-IsCurrent ks t' c
                      | abandon_child ↦ (names-bury id t.slots ∙ c.0, c.1)
                    ])
        | inr q ↦ rw q (restart_by-IsCurrent ks config.strategy id t' d c)
      ]

  on_event-IsCurrent :
      (config : SupervisorConfig) (ks : List K) (ev : SupervisorEvent)
      (t : Tree (named_spawner channel K))
      → IsDistinct ks
      → IsCurrent ks t
      → OnPhase
          (named_spawner channel K)
          (IsCurrent ks)
          (on_event (named_spawner channel K) config ev t)
  unfolding on_event on_signal
  on_event-IsCurrent config ks shutdown t d c = stop_all-IsCurrent ks t c
  on_event-IsCurrent config ks (signal id now) t d c =
      by_test (OnPhase (named_spawner channel K) (IsCurrent ks))
        (ltb now (from_secs config.within_secs)) (ended t) _ (λ q. c)
        (λ q. count_signal-IsCurrent config ks id now t d c)

  -- A tree of named children, each made by `spawn_child_spec` with its own name, with capacities of
  -- the supervisor's channel and of the mailboxes that are not 0: it starts, and
  -- after any restart signals and shutdowns it still has exactly these names in its order, and the
  -- registry gives for each name the reference that the supervisor holds for that child.
  pub supervisor-names :
      (config : SupervisorConfig) (actor_config : ActorConfig) (children : List (ChildSpec K))
      (env : Shared K) (events : List SupervisorEvent)
      → 1 ≤ config.mailbox_capacity
      → 1 ≤ actor_config.mailbox_capacity
      → IsDistinct (names children)
      → (t : Tree (named_spawner channel K)) × (env' : Shared K) × (start_settled
            (named_spawner channel K)
            config
            actor_config
            children
            env
          ≡ returns (some t, env'))
        × OnPhase
            (named_spawner channel K)
            (IsCurrent (names (sort_slots children)))
            (run_supervisor (named_spawner channel K) config events t)
  unfolding begin_task
  supervisor-names config actor_config children env events room room' d =
      let d' = IsDistinct-sort_slots children d in
      let (slots, refs, env', q, (n, k, f)) =
        spawn_pass-IsPass channel (sort_slots children) env d' in
      let t : Tree (named_spawner channel K) = record {
        slots = slots;
        current_refs = refs;
        restart_log = [];
        env = env';
      } in
      (
        t,
        env',
        start_settled-begins (named_spawner channel K) config actor_config children env room room'
            ∙ ap (λ r. returns (begin_task (named_spawner channel K) r)) q,
        run_supervisor-OnPhase (named_spawner channel K) (IsCurrent (names (sort_slots children)))
            config (λ ev v. on_event-IsCurrent config (names (sort_slots children)) ev v d') events
            t (n, k),
      )
