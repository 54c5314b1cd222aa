-- ===== src/Supervisor/Coherence.antt =====
-- The two vectors of the task of src/supervisor.rs belong together, whatever it is sent.
use mathlib.Core.Path.{subst}
use lane_switchboards.Base.{
  nat_eq, ℕ, suc, ◌≡◌, refl, ap, ◌⊎◌, inl, inr, Bool, Option, none, some, List, [], ◌∷◌, arith, ltb,
  Bool-cases, length, by_test, from_secs,
}
use lane_switchboards.Config.{ActorConfig}
use lane_switchboards.Cluster.{Call, panics, returns}
use lane_switchboards.Actor.Types.{ActorId, dead}
use lane_switchboards.Supervisor.{
  RestartStrategy, one_for_one, one_for_all, rest_for_one, IntensityAction, shutdown_supervisor,
  abandon_child, SupervisorConfig, SupervisorEvent, shutdown, signal, Spawner, ChildSpec, set_id,
  bury, Tree, Phase, stop_all, exceeded, on_signal, on_event, run_supervisor, restart_by,
  note_signal, sort_slots, ended, count_signal,
}
use lane_switchboards.Supervisor.Runs.{OnPhase, run_supervisor-OnPhase}
use lane_switchboards.Supervisor.Sweep.{id_or_dead, sweep, sweep_first, ref_or}
use lane_switchboards.Supervisor.Strategy.{swept_by, restart_by-swept}
use lane_switchboards.Supervisor.Start.{
  prepend, spawn_next, spawn_pass, begin_task, start_settled, Spawned, has_room,
}

module _ {Factory : Type 0} where
  -- Each slot has a reference, and either the reference's identifier or that of the dead.
  abbrev pub Coherent : List (ChildSpec Factory) → List ActorId → Type 0
  Coherent [] [] = Unit {0}
  Coherent (s ∷ slots) (r ∷ refs) = ((s.id ≡ dead) ⊎ (s.id ≡ r)) × Coherent slots refs
  Coherent _ _ = ⊥

  pub Coherent-length :
      (slots : List (ChildSpec Factory)) (refs : List ActorId)
      → Coherent slots refs
      → length slots ≡ length refs
  Coherent-length [] [] c = refl
  Coherent-length (s ∷ slots) (r ∷ refs) c = ap suc (Coherent-length slots refs c.1)
  Coherent-length [] (r ∷ refs) c = absurd c
  Coherent-length (s ∷ slots) [] c = absurd c

  bury-Coherent :
      (id : ActorId) (slots : List (ChildSpec Factory)) (refs : List ActorId)
      → Coherent slots refs
      → Coherent (bury id slots) refs
  unfolding bury set_id
  bury-Coherent id [] [] c = tt
  bury-Coherent id (s ∷ slots) (r ∷ refs) c = ground (arith, bury-Coherent id slots refs c.1)
  bury-Coherent id [] (r ∷ refs) c = absurd c
  bury-Coherent id (s ∷ slots) [] c = absurd c

module _ (sp : Spawner) where
  open sp use {Env, Factory, restart}

  restarted-Coherent :
      (s : ChildSpec Factory) (r : ActorId) (res : Option ActorId)
      → ((set_id (id_or_dead res) s).id ≡ dead) ⊎ ((set_id (id_or_dead res) s).id ≡ ref_or r res)
  unfolding set_id
  restarted-Coherent s r none = inl refl
  restarted-Coherent s r (some id) = inr refl

  sweep-Coherent :
      (test : ChildSpec Factory → Bool) (slots : List (ChildSpec Factory)) (refs : List ActorId)
      (env : Env)
      → Coherent slots refs
      → Coherent (sweep sp test slots refs env).slots (sweep sp test slots refs env).refs
  unfolding sweep
  sweep-Coherent test [] [] env c = tt
  sweep-Coherent test (s ∷ slots) (r ∷ refs) env c =
      let res = restart s.factory env in
      elim (Bool-cases (test s)) [
        | inl e ↦ rw e (restarted-Coherent s r res.0, sweep-Coherent test slots refs res.1 c.1)
        | inr e ↦ rw e (c.0, sweep-Coherent test slots refs env c.1)
      ]
  sweep-Coherent test [] (r ∷ refs) env c = absurd c
  sweep-Coherent test (s ∷ slots) [] env c = absurd c

  sweep_first-Coherent :
      (test : ChildSpec Factory → Bool) (slots : List (ChildSpec Factory)) (refs : List ActorId)
      (env : Env)
      → Coherent slots refs
      → Coherent
          (sweep_first sp test slots refs env).slots
          (sweep_first sp test slots refs env).refs
  unfolding sweep_first
  sweep_first-Coherent test [] [] env c = tt
  sweep_first-Coherent test (s ∷ slots) (r ∷ refs) env c = elim (Bool-cases (test s)) [
    | inl e ↦ rw e (restarted-Coherent s r (restart s.factory env).0, c.1)
    | inr e ↦ rw e (c.0, sweep_first-Coherent test slots refs env c.1)
  ]
  sweep_first-Coherent test [] (r ∷ refs) env c = absurd c
  sweep_first-Coherent test (s ∷ slots) [] env c = absurd c

  abbrev pub IsCoherent : Tree sp → Type 0
  IsCoherent t = Coherent t.slots t.current_refs

  abbrev pub PhaseCoherent : Phase sp → Type 0
  PhaseCoherent = OnPhase sp IsCoherent

  abbrev pub SpawnedCoherent : Spawned sp → Type 0
  SpawnedCoherent (none, env) = Unit {0}
  SpawnedCoherent (some (slots, refs), env) = Coherent slots refs

  swept_by-Coherent :
      (strategy : RestartStrategy) (id : ActorId) (slots : List (ChildSpec Factory))
      (refs : List ActorId) (env : Env)
      → Coherent slots refs
      → Coherent
          (swept_by sp strategy id slots refs env).slots
          (swept_by sp strategy id slots refs env).refs
  swept_by-Coherent one_for_one id slots refs env c = sweep_first-Coherent _ slots refs env c
  swept_by-Coherent one_for_all id slots refs env c = sweep-Coherent _ slots refs env c
  swept_by-Coherent rest_for_one id slots refs env c = sweep-Coherent _ slots refs env c

  restart_by-IsCoherent :
      (strategy : RestartStrategy) (id : ActorId) (t : Tree sp)
      → IsCoherent t
      → IsCoherent (restart_by sp strategy id t)
  restart_by-IsCoherent strategy id t c =
      rw (restart_by-swept sp strategy id t (Coherent-length t.slots t.current_refs c))
        (swept_by-Coherent strategy id t.slots t.current_refs t.env c)

  exceeded-PhaseCoherent :
      (action : IntensityAction) (id : ActorId) (t : Tree sp)
      → IsCoherent t
      → PhaseCoherent (exceeded sp action id t)
  unfolding exceeded stop_all
  exceeded-PhaseCoherent shutdown_supervisor id t c = c
  exceeded-PhaseCoherent abandon_child id t c = bury-Coherent id t.slots t.current_refs c

  count_signal-PhaseCoherent :
      (config : SupervisorConfig) (id : ActorId) (now : ℕ) (t : Tree sp)
      → IsCoherent t
      → PhaseCoherent (count_signal sp config id now t)
  unfolding count_signal
  count_signal-PhaseCoherent config id now t c =
      let log = note_signal config.within_secs now t.restart_log in
      elim (Bool-cases (ltb config.max_restarts (length log))) [
        | inl e ↦ rw e (exceeded-PhaseCoherent config.intensity_action id _ c)
        | inr e ↦ rw e (restart_by-IsCoherent config.strategy id _ c)
      ]

  on_signal-PhaseCoherent :
      (config : SupervisorConfig) (id : ActorId) (now : ℕ) (t : Tree sp)
      → IsCoherent t
      → PhaseCoherent (on_signal sp config id now t)
  unfolding on_signal
  on_signal-PhaseCoherent config id now t c =
      by_test PhaseCoherent (ltb now (from_secs config.within_secs)) (ended t) _ (λ q. c)
        (λ q. count_signal-PhaseCoherent config id now t c)

  on_event-PhaseCoherent :
      (config : SupervisorConfig) (e : SupervisorEvent) (t : Tree sp)
      → IsCoherent t
      → PhaseCoherent (on_event sp config e t)
  unfolding on_event stop_all
  on_event-PhaseCoherent config shutdown t c = c
  on_event-PhaseCoherent config (signal id now) t c = on_signal-PhaseCoherent config id now t c

  pub run_supervisor-PhaseCoherent :
      (config : SupervisorConfig) (events : List SupervisorEvent) (t : Tree sp)
      → IsCoherent t
      → PhaseCoherent (run_supervisor sp config events t)
  run_supervisor-PhaseCoherent config events t c =
      run_supervisor-OnPhase sp IsCoherent config (on_event-PhaseCoherent config) events t c

  prepend-Coherent :
      (s : ChildSpec Factory) (id : ActorId) (r : Spawned sp)
      → SpawnedCoherent r
      → SpawnedCoherent (prepend sp s id r)
  unfolding prepend set_id
  prepend-Coherent s id (none, env) c = tt
  prepend-Coherent s id (some (slots, refs), env) c = (inr refl, c)

  spawn_next-Coherent :
      (s : ChildSpec Factory) (res : Option ActorId × Env) (rest : Env → Spawned sp)
      → ((env : Env) → SpawnedCoherent (rest env))
      → SpawnedCoherent (spawn_next sp s res rest)
  unfolding spawn_next
  spawn_next-Coherent s (none, env) rest c = tt
  spawn_next-Coherent s (some id, env) rest c = prepend-Coherent s id (rest env) (c env)

  spawn_pass-Coherent :
      (slots : List (ChildSpec Factory)) (env : Env) → SpawnedCoherent (spawn_pass sp slots env)
  unfolding spawn_pass
  spawn_pass-Coherent [] env = tt
  spawn_pass-Coherent (s ∷ slots) env =
      spawn_next-Coherent s (restart s.factory env) _ (spawn_pass-Coherent slots)

  abbrev TreeCoherent : Option (Tree sp) → Type 0
  TreeCoherent none = Unit {0}
  TreeCoherent (some t) = IsCoherent t

  begin_task-Coherent : (r : Spawned sp) → SpawnedCoherent r → TreeCoherent (begin_task sp r).0
  unfolding begin_task
  begin_task-Coherent (none, env) c = tt
  begin_task-Coherent (some (slots, refs), env) c = c

  abbrev StartCoherent : Call (Option (Tree sp) × Env) → Type 0
  StartCoherent panics = Unit {0}
  StartCoherent (returns r) = TreeCoherent r.0

  -- A supervisor that starts has, after any events, a reference for each child, and each child's
  -- slot holds either that reference's identifier or the mark of a dead child.
  pub supervisor-coherent :
      (config : SupervisorConfig) (actor_config : ActorConfig) (children : List (ChildSpec Factory))
      (env env' : Env) (t : Tree sp) (events : List SupervisorEvent)
      → start_settled sp config actor_config children env ≡ returns (some t, env')
      → PhaseCoherent (run_supervisor sp config events t)
  unfolding start_settled
  supervisor-coherent config actor_config children env env' t events h =
      run_supervisor-PhaseCoherent config events t (
        subst StartCoherent h (
          by_test StartCoherent (has_room sp config actor_config children) _ _
            (λ q. begin_task-Coherent _ (spawn_pass-Coherent (sort_slots children) env)) (λ q. tt)))
