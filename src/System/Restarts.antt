-- ===== src/System/Restarts.antt =====
-- What the supervisor of src/supervisor.rs does with a signal that it has taken off its channel: no
-- child is forgotten.
use lane_switchboards.Base.{
  nat_eq, ℕ, suc, ◌+◌, ◌^◌, ◌<◌, ◌≡◌, refl, ◌∙◌, ◌≢◌, inl, inr, List, [], ◌∷◌, ap, arith, Eq,
  length, All, reverse, Bool, true, false, Bool-cases, ltb, by_test, from_secs,
}
use lane_switchboards.Actor.Types.{ActorId}
use lane_switchboards.Supervisor.{
  RestartStrategy, one_for_one, one_for_all, rest_for_one, IntensityAction, shutdown_supervisor,
  abandon_child, SupervisorConfig, ChildSpec, bury, Tree, Phase, running, ended, has_id,
  note_signal, restart_by, stop_each, stop_all, exceeded, on_signal, count_signal,
}
use lane_switchboards.Supervisor.Sweep.{sweep, sweep_first}
use lane_switchboards.Supervisor.Strategy.{swept_by, restart_by-swept}
use lane_switchboards.System.{Runtime, task_spawner, spawn_task}
use lane_switchboards.System.Watched.{Watched, IsListening}
use lane_switchboards.System.Passes.{AreApart, AreBelow, swept_by-Pass}
use lane_switchboards.System.Kept.{
  Pass-counter, Pass-length, Pass-signals, Pass-Watched, Pass-AreBelow, Pass-AreApart,
}
use lane_switchboards.System.Burial.{length-bury, bury-AreBelow, bury-AreApart, bury-Watched}
use lane_switchboards.System.Sound.{IsSound}

module _ (channel : ℕ) {K : Type 0} ⦃e : Eq K⦄ where
  -- A signal for `id` has been taken: every other child is watched.
  pub record IsTaken (n b : ℕ) (id : ActorId) (silent : List ActorId)
      (t : Tree (task_spawner channel K)) : Type 0 where
    pub bounded : t.env.shared.world.counter + b < 2 ^ 64
    pub many : length t.slots ≡ n
    pub paired : length t.slots ≡ length t.current_refs
    pub below : AreBelow t.env.shared.world.counter t.slots
    pub apart : AreApart t.slots
    pub listening : IsListening channel t.env.shared.world
    pub watched : All (λ s. (s.id ≢ id) → Watched channel t.env.shared.world silent s.id) t.slots

  abbrev pub IsTree : ℕ → ℕ → Bool → List ActorId → Tree (task_spawner channel K) → Type 0
  IsTree n b is_running silent t =
      IsSound channel n b t.env.shared.world t.slots t.current_refs is_running silent

  length-sweep :
      (test : ChildSpec K → Bool) (slots : List (ChildSpec K)) (refs : List ActorId)
      (env : Runtime K)
      → length slots ≡ length refs
      → length refs ≡ length (sweep (task_spawner channel K) test slots refs env).refs
  unfolding sweep
  length-sweep test [] [] env h = refl
  length-sweep test [] (r ∷ refs) env h = absurd (omega arith)
  length-sweep test (s ∷ slots) [] env h = absurd (omega arith)
  length-sweep test (s ∷ slots) (r ∷ refs) env h = elim (Bool-cases (test s)) [
    | inl t ↦
        rw t
          (ap suc (length-sweep test slots refs (spawn_task channel s.factory env).1 (omega arith)))
    | inr t ↦ rw t (ap suc (length-sweep test slots refs env (omega arith)))
  ]

  length-sweep_first :
      (test : ChildSpec K → Bool) (slots : List (ChildSpec K)) (refs : List ActorId)
      (env : Runtime K)
      → length slots ≡ length refs
      → length refs ≡ length (sweep_first (task_spawner channel K) test slots refs env).refs
  unfolding sweep_first
  length-sweep_first test [] [] env h = refl
  length-sweep_first test [] (r ∷ refs) env h = absurd (omega arith)
  length-sweep_first test (s ∷ slots) [] env h = absurd (omega arith)
  length-sweep_first test (s ∷ slots) (r ∷ refs) env h = elim (Bool-cases (test s)) [
    | inl t ↦ rw t refl
    | inr t ↦ rw t (ap suc (length-sweep_first test slots refs env (omega arith)))
  ]

  length-swept_by :
      (strategy : RestartStrategy) (id : ActorId) (slots : List (ChildSpec K)) (refs : List ActorId)
      (env : Runtime K)
      → length slots ≡ length refs
      → length refs ≡ length (swept_by (task_spawner channel K) strategy id slots refs env).refs
  length-swept_by one_for_one id slots refs env h = length-sweep_first (has_id id) slots refs env h
  length-swept_by one_for_all id slots refs env h = length-sweep _ slots refs env h
  length-swept_by rest_for_one id slots refs env h = length-sweep _ slots refs env h

  restart_by-IsTree :
      (strategy : RestartStrategy) (n b : ℕ) (id : ActorId) (silent : List ActorId)
      (t : Tree (task_spawner channel K))
      → IsTaken n (n + b) id silent t
      → IsTree n b true silent (restart_by (task_spawner channel K) strategy id t)
  restart_by-IsTree strategy n b id silent t h =
      let p = swept_by-Pass channel strategy id t.slots t.current_refs t.env h.paired h.apart in
      let room : t.env.shared.world.counter + length t.slots < 2 ^ 64 =
        omega (arith, h.bounded, h.many) in
      rw (restart_by-swept (task_spawner channel K) strategy id t h.paired) (record {
        bounded = omega (arith, (Pass-counter channel id p room).1, h.bounded, h.many);
        many = Pass-length channel id p ∙ h.many;
        paired =
            Pass-length channel id p
            ∙ h.paired
            ∙ length-swept_by strategy id t.slots t.current_refs t.env h.paired;
        below = Pass-AreBelow channel id p room h.below;
        apart = Pass-AreApart channel id p room h.below h.apart;
        listening = λ r. (h.listening.0, cc (Pass-signals channel id p, h.listening.1));
        watched = λ r. Pass-Watched channel id silent p h.watched;
      })

  bury-IsTree :
      (n b : ℕ) (id : ActorId) (silent : List ActorId) (t : Tree (task_spawner channel K))
      → IsTaken n (n + b) id silent t
      → IsTree n b true silent (record t { slots = bury id t.slots })
  bury-IsTree n b id silent t h = record {
    bounded = omega (arith, h.bounded);
    many = length-bury channel id t.slots ∙ h.many;
    paired = length-bury channel id t.slots ∙ h.paired;
    below = bury-AreBelow channel id t.env.shared.world.counter t.slots h.below;
    apart = bury-AreApart channel id t.slots h.apart;
    listening = λ r. h.listening;
    watched = λ r. bury-Watched channel id t.env.shared.world silent t.slots h.apart h.watched;
  }

  stop_each-same :
      (refs : List ActorId) (env : Runtime K) → stop_each (task_spawner channel K) refs env ≡ env
  unfolding stop_each
  stop_each-same [] env = refl
  stop_each-same (r ∷ refs) env = stop_each-same refs env

  -- Of a supervisor whose task has ended nothing is asked but the numbers.
  ended-IsTree :
      (n b : ℕ) (silent : List ActorId) (t : Tree (task_spawner channel K))
      → t.env.shared.world.counter + b < 2 ^ 64
      → length t.slots ≡ n
      → length t.slots ≡ length t.current_refs
      → AreBelow t.env.shared.world.counter t.slots
      → AreApart t.slots
      → IsTree n b false silent t
  ended-IsTree n b silent t bounded many paired below apart = record {
    bounded = bounded;
    many = many;
    paired = paired;
    below = below;
    apart = apart;
    listening = λ r. cc;
    watched = λ r. cc;
  }

  pub stop_all-IsTree :
      (n b : ℕ) (silent : List ActorId) (t : Tree (task_spawner channel K))
      → t.env.shared.world.counter + b < 2 ^ 64
      → length t.slots ≡ n
      → length t.slots ≡ length t.current_refs
      → AreBelow t.env.shared.world.counter t.slots
      → AreApart t.slots
      → IsTree n b false silent (stop_all (task_spawner channel K) t)
  unfolding stop_all
  stop_all-IsTree n b silent t bounded many paired below apart =
      rw (stop_each-same (reverse t.current_refs) t.env)
        (ended-IsTree n b silent t bounded many paired below apart)

  -- The phase after an event: what is asked of the tree depends on whether the task goes on.
  abbrev pub IsPhase : ℕ → ℕ → List ActorId → Phase (task_spawner channel K) → Type 0
  IsPhase n b silent (running t) = IsTree n b true silent t
  IsPhase n b silent (ended t) = IsTree n b false silent t

  exceeded-IsPhase :
      (action : IntensityAction) (n b : ℕ) (id : ActorId) (silent : List ActorId)
      (t : Tree (task_spawner channel K))
      → IsTaken n (n + b) id silent t
      → IsPhase n b silent (exceeded (task_spawner channel K) action id t)
  unfolding exceeded
  exceeded-IsPhase shutdown_supervisor n b id silent t h =
      stop_all-IsTree n b silent t (omega (arith, h.bounded)) h.many h.paired h.below h.apart
  exceeded-IsPhase abandon_child n b id silent t h = bury-IsTree n b id silent t h

  count_signal-IsPhase :
      (config : SupervisorConfig) (n b : ℕ) (id : ActorId) (now : ℕ) (silent : List ActorId)
      (t : Tree (task_spawner channel K))
      → IsTaken n (n + b) id silent t
      → IsPhase n b silent (count_signal (task_spawner channel K) config id now t)
  unfolding count_signal
  count_signal-IsPhase config n b id now silent t h =
      let log = note_signal config.within_secs now t.restart_log in
      let t' : Tree (task_spawner channel K) = record t { restart_log = log } in
      let h' : IsTaken n (n + b) id silent t' = record {
        bounded = h.bounded;
        many = h.many;
        paired = h.paired;
        below = h.below;
        apart = h.apart;
        listening = h.listening;
        watched = h.watched;
      } in
      elim (Bool-cases (ltb config.max_restarts (length log))) [
        | inl q ↦ rw q (exceeded-IsPhase config.intensity_action n b id silent t' h')
        | inr q ↦ rw q (restart_by-IsTree config.strategy n b id silent t' h')
      ]

  pub on_signal-IsPhase :
      (config : SupervisorConfig) (n b : ℕ) (id : ActorId) (now : ℕ) (silent : List ActorId)
      (t : Tree (task_spawner channel K))
      → IsTaken n (n + b) id silent t
      → IsPhase n b silent (on_signal (task_spawner channel K) config id now t)
  unfolding on_signal
  on_signal-IsPhase config n b id now silent t h =
      by_test (IsPhase n b silent) (ltb now (from_secs config.within_secs)) (ended t) _
        (λ q. ended-IsTree n b silent t (omega (arith, h.bounded)) h.many h.paired h.below h.apart)
        (λ q. count_signal-IsPhase config n b id now silent t h)
