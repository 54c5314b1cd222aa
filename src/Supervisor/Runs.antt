-- ===== src/Supervisor/Runs.antt =====
-- The task of src/supervisor.rs over its events: what each event keeps, the task keeps.
use lane_switchboards.Base.{nat_eq, ◌≡◌, List, [], ◌∷◌, arith}
use lane_switchboards.Supervisor.{
  SupervisorConfig, SupervisorEvent, Spawner, Tree, Phase, running, ended, on_event, run_supervisor,
}

module _ (sp : Spawner) where
  -- The predicate holds of the variables of the task, whether it goes on or has ended.
  abbrev pub OnPhase : (Tree sp → Type 0) → Phase sp → Type 0
  OnPhase P (running t) = P t
  OnPhase P (ended t) = P t

  after_event : SupervisorConfig → List SupervisorEvent → Phase sp → Phase sp
  after_event config events (running t) = run_supervisor sp config events t
  after_event config events (ended t) = ended t

  run_supervisor-cons :
      (config : SupervisorConfig) (e : SupervisorEvent) (events : List SupervisorEvent)
      (t : Tree sp)
      → run_supervisor sp config (e ∷ events) t ≡ after_event config events (on_event sp config e t)
  unfolding run_supervisor after_event
  run_supervisor-cons config e events t = ground arith

  after_event-OnPhase :
      (P : Tree sp → Type 0) (config : SupervisorConfig) (events : List SupervisorEvent)
      (phase : Phase sp)
      → OnPhase P phase
      → ((t : Tree sp) → P t → OnPhase P (run_supervisor sp config events t))
      → OnPhase P (after_event config events phase)
  unfolding after_event
  after_event-OnPhase P config events (running t) c rest = rest t c
  after_event-OnPhase P config events (ended t) c rest = c

  pub run_supervisor-OnPhase :
      (P : Tree sp → Type 0) (config : SupervisorConfig)
      → ((e : SupervisorEvent) (t : Tree sp) → P t → OnPhase P (on_event sp config e t))
      → (events : List SupervisorEvent) (t : Tree sp) → P t
      → OnPhase P (run_supervisor sp config events t)
  unfolding run_supervisor
  run_supervisor-OnPhase P config step [] t c = c
  run_supervisor-OnPhase P config step (e ∷ events) t c = rw run_supervisor-cons (
      after_event-OnPhase P config events (on_event sp config e t) (step e t c)
        (run_supervisor-OnPhase P config step events))
