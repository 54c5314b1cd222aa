-- ===== src/Supervisor.antt =====
-- src/supervisor.rs: the supervisor task (its start is in the child Start). A child's factory and
-- what it acts on are an interface; an `ActorRef` is the identifier in it. Times are nanoseconds
-- since the least `Instant` that the platform can represent.
pub mod Sweep
pub mod Strategy
pub mod Intensity
pub mod Runs
pub mod Coherence
pub mod Names
pub mod Tracked
pub mod Start
pub mod Sort
pub mod Shutdown
pub mod Children
use lane_switchboards.Base.{
  nat_eq, ℕ, zero, suc, ◌+◌, Bool, true, Option, none, some, List, [], ◌∷◌, ◌++◌, reverse, ltb, leb,
  if◌then◌else◌, ◌==◌, length, get_elem?, set, find, from_secs,
}
use lane_switchboards.Actor.Types.{ActorId, dead, new_actor_id}

pub data RestartStrategy : Type 0 where
  one_for_one one_for_all rest_for_one : RestartStrategy

pub data IntensityAction : Type 0 where
  shutdown_supervisor abandon_child : IntensityAction

pub record SupervisorConfig : Type 0 where
  pub strategy : RestartStrategy
  pub max_restarts : ℕ
  pub within_secs : ℕ
  pub intensity_action : IntensityAction
  pub mailbox_capacity : ℕ

abbrev pub default_supervisor_config : SupervisorConfig
default_supervisor_config = record {
  strategy = one_for_one;
  max_restarts = 5;
  within_secs = 10;
  intensity_action = shutdown_supervisor;
  mailbox_capacity = 32;
}

-- What the supervisor calls: a factory gives the new actor's identifier, or fails; `stop` sends
-- `Envelope::Stop`. `Env` is all that these read and change.
pub record Spawner : Type 1 where
  pub Env : Type 0
  pub Factory : Type 0
  pub restart : Factory → Env → Option ActorId × Env
  pub stop : ActorId → Env → Env

-- `FnChildSpec`.
pub record ChildSpec (Factory : Type 0) : Type 0 where
  pub id : ActorId
  pub order : ℕ
  pub factory : Factory

module _ {Factory : Type 0} where
  unfoldable pub set_id : ActorId → ChildSpec Factory → ChildSpec Factory
  set_id id s = record s { id = id }

  -- The spec, and the counter of `ActorId::new` after it.
  unfoldable pub child_spec : ℕ → Factory → ℕ → ChildSpec Factory × ℕ
  unfolding new_actor_id
  child_spec order factory counter =
      let (id, counter') = new_actor_id counter in
      (record { id = id; order = order; factory = factory }, counter')

  -- `slots.sort_by_key(|s| s.order())`, a stable sort.
  unfoldable pub insert_slot :
      ChildSpec Factory → List (ChildSpec Factory) → List (ChildSpec Factory)
  insert_slot s [] = s ∷ []
  insert_slot s (x ∷ xs) = if leb s.order x.order then s ∷ x ∷ xs else x ∷ insert_slot s xs

  unfoldable pub sort_slots : List (ChildSpec Factory) → List (ChildSpec Factory)
  unfolding insert_slot
  sort_slots [] = []
  sort_slots (s ∷ slots) = insert_slot s (sort_slots slots)

  abbrev pub has_id : ActorId → ChildSpec Factory → Bool
  has_id id s = s.id == id

  -- `slots.iter().position(|s| s.id() == id)`, from the index `i` on.
  unfoldable pub position_from : ℕ → ActorId → List (ChildSpec Factory) → Option ℕ
  position_from i id [] = none
  position_from i id (s ∷ slots) =
      let rest = position_from (suc i) id slots in if has_id id s then some i else rest

  -- `find(…).map(|s| s.order()).unwrap_or(0)`.
  unfoldable pub failed_order : ActorId → List (ChildSpec Factory) → ℕ
  failed_order id slots = elim (find (has_id id) slots) [ none ↦ 0 | some s ↦ s.order ]

  -- `if let Some(slot) = slots.iter_mut().find(…) { slot.set_id(ActorId::DEAD) }`.
  unfoldable pub bury : ActorId → List (ChildSpec Factory) → List (ChildSpec Factory)
  unfolding set_id
  bury id [] = []
  bury id (s ∷ slots) =
      let rest = bury id slots in if has_id id s then set_id dead s ∷ slots else s ∷ rest

-- Drop from the front what is older than the window. `on_signal` calls it only where the cutoff
-- `now - within` can be represented, and then the test is the sum written here.
unfoldable pub prune : ℕ → ℕ → List ℕ → List ℕ
prune now within_secs [] = []
prune now within_secs (t ∷ log) =
    let rest = prune now within_secs log in
    if ltb (t + from_secs within_secs) now then rest else t ∷ log

unfoldable pub note_signal : ℕ → ℕ → List ℕ → List ℕ
unfolding prune
note_signal within_secs now log = prune now within_secs log ++ now ∷ []

-- What wakes the task: the shutdown channel, or a restart signal and the time at which it is read.
pub data SupervisorEvent : Type 0 where
  shutdown : SupervisorEvent
  signal : ActorId → ℕ → SupervisorEvent

module _ (sp : Spawner) where
  open sp use {Env, Factory, restart, stop}

  -- The variables of the task.
  pub record Tree : Type 0 where
    pub slots : List (ChildSpec Factory)
    pub current_refs : List ActorId
    pub restart_log : List ℕ
    pub env : Env

  -- The task goes on, or has ended.
  pub data Phase : Type 0 where
    running : Tree → Phase
    ended : Tree → Phase

  unfoldable pub respawned : ℕ → ChildSpec Factory → Option ActorId × Env → Tree → Tree
  unfolding set_id
  respawned i s (some id, env) t = record t {
    slots = set t.slots i (set_id id s);
    current_refs = set t.current_refs i id;
    env = env;
  }
  respawned i s (none, env) t = record t { slots = set t.slots i (set_id dead s); env = env }

  -- An index past the end panics in the source; the callers give none.
  unfoldable pub restart_child : ℕ → Tree → Tree
  unfolding respawned
  restart_child i t = elim (get_elem? t.slots i) [
    | none ↦ t
    | some s ↦ respawned i s (restart s.factory t.env) t
  ]

  -- `for idx in i..i + n { if test(&slots[idx]) { restart_child(idx) } }`.
  unfoldable pub restart_range : (ChildSpec Factory → Bool) → ℕ → ℕ → Tree → Tree
  restart_range test zero i t = t
  restart_range test (suc n) i t =
      restart_range test n (suc i)
        (elim (get_elem? t.slots i) [ none ↦ t | some s ↦ if test s then restart_child i t else t ])

  unfoldable pub restart_by : RestartStrategy → ActorId → Tree → Tree
  unfolding position_from failed_order
  restart_by one_for_one id t = elim (position_from 0 id t.slots) [
    | none ↦ t
    | some i ↦ restart_child i t
  ]
  restart_by one_for_all id t = restart_range (λ _. true) (length t.slots) 0 t
  restart_by rest_for_one id t =
      restart_range (λ s. leb (failed_order id t.slots) s.order) (length t.slots) 0 t

  unfoldable pub stop_each : List ActorId → Env → Env
  stop_each [] env = env
  stop_each (r ∷ refs) env = stop_each refs (stop r env)

  -- `for actor_ref in current_refs.iter().rev() { actor_ref.stop() }`.
  unfoldable pub stop_all : Tree → Tree
  unfolding stop_each
  stop_all t = record t { env = stop_each (reverse t.current_refs) t.env }

  unfoldable pub exceeded : IntensityAction → ActorId → Tree → Phase
  unfolding stop_all bury
  exceeded shutdown_supervisor id t = ended (stop_all t)
  exceeded abandon_child id t = running (record t { slots = bury id t.slots })

  -- The signal is noted, and counted within the window.
  unfoldable pub count_signal : SupervisorConfig → ActorId → ℕ → Tree → Phase
  unfolding note_signal exceeded restart_by
  count_signal config id now t =
      let t' = record t { restart_log = note_signal config.within_secs now t.restart_log } in
      if ltb config.max_restarts (length t'.restart_log)
      then exceeded config.intensity_action id t'
      else running (restart_by config.strategy id t')

  -- `now - Duration::from_secs(within)` panics where the difference cannot be represented, and the
  -- task of the supervisor ends. Times are counted from the earliest that an `Instant` can hold.
  unfoldable pub on_signal : SupervisorConfig → ActorId → ℕ → Tree → Phase
  unfolding count_signal
  on_signal config id now t =
      if ltb now (from_secs config.within_secs) then ended t else count_signal config id now t

  unfoldable pub on_event : SupervisorConfig → SupervisorEvent → Tree → Phase
  unfolding stop_all on_signal
  on_event config shutdown t = ended (stop_all t)
  on_event config (signal id now) t = on_signal config id now t

  unfoldable pub run_supervisor : SupervisorConfig → List SupervisorEvent → Tree → Phase
  run_supervisor config [] t = running t
  run_supervisor config (e ∷ events) t = elim (on_event config e t) [
    | running t' ↦ run_supervisor config events t'
    | ended t' ↦ ended t'
  ]
