-- ===== src/Supervisor/Start.antt =====
-- src/supervisor.rs: `start_settled`, up to the task that it starts.
use lane_switchboards.Base.{
  nat_eq, Option, none, some, List, [], ◌∷◌, ℕ, Bool, not, ◌&&◌, ◌==◌, if◌then◌else◌, ◌≤◌, ◌≡◌,
  arith, ==_iff,
}
use lane_switchboards.Config.{ActorConfig}
use lane_switchboards.Cluster.{Call, panics, returns}
use lane_switchboards.Actor.Types.{ActorId}
use lane_switchboards.Supervisor.{
  SupervisorConfig, Spawner, ChildSpec, set_id, sort_slots, Tree, child_spec,
}

module _ (sp : Spawner) where
  open sp use {Env, Factory, restart}

  -- The children that are up with their references, or an error.
  abbrev pub Spawned : Type 0
  Spawned = Option (List (ChildSpec Factory) × List ActorId) × Env

  unfoldable pub prepend : ChildSpec Factory → ActorId → Spawned → Spawned
  unfolding set_id
  prepend s id (none, env) = (none, env)
  prepend s id (some (slots, refs), env) = (some (set_id id s ∷ slots, id ∷ refs), env)

  unfoldable pub spawn_next : ChildSpec Factory → Option ActorId × Env → (Env → Spawned) → Spawned
  unfolding prepend
  spawn_next s (none, env) rest = (none, env)
  spawn_next s (some id, env) rest = prepend s id (rest env)

  -- The initial spawn pass; the first error is returned by `?`.
  unfoldable pub spawn_pass : List (ChildSpec Factory) → Env → Spawned
  unfolding spawn_next
  spawn_pass [] env = (some ([], []), env)
  spawn_pass (s ∷ slots) env = spawn_next s (restart s.factory env) (spawn_pass slots)

  unfoldable pub begin_task : Spawned → Option (Tree sp) × Env
  begin_task (none, env) = (none, env)
  begin_task (some (slots, refs), env) =
      (some (record { slots = slots; current_refs = refs; restart_log = []; env = env }), env)

  -- Whether the channels can be made. `mpsc::channel` panics at 0: that of the supervisor, and, where
  -- there is a child to spawn, those of `spawn_on_runtime`, which each factory of src/supervisor.rs
  -- calls with `actor_config`.
  unfoldable pub has_room : SupervisorConfig → ActorConfig → List (ChildSpec Factory) → Bool
  has_room config actor_config [] = not (config.mailbox_capacity == 0)
  has_room config actor_config (s ∷ children) =
      not (config.mailbox_capacity == 0) && not (actor_config.mailbox_capacity == 0)

  -- The tree with which the task begins, or an error. The initial references are those of the tree.
  unfoldable pub start_settled :
      SupervisorConfig
      → ActorConfig
      → List (ChildSpec Factory)
      → Env
      → Call (Option (Tree sp) × Env)
  unfolding spawn_pass sort_slots begin_task has_room
  start_settled config actor_config children env =
      if has_room config actor_config children
      then returns (begin_task (spawn_pass (sort_slots children) env))
      else panics

  -- Both capacities are not 0: the start does not panic.
  pub start_settled-begins :
      (config : SupervisorConfig) (actor_config : ActorConfig) (children : List (ChildSpec Factory))
      (env : Env)
      → 1 ≤ config.mailbox_capacity
      → 1 ≤ actor_config.mailbox_capacity
      → start_settled config actor_config children env
        ≡ returns (begin_task (spawn_pass (sort_slots children) env))
  unfolding start_settled has_room
  start_settled-begins config actor_config [] env h k =
      ground (arith, ==_iff config.mailbox_capacity 0)
  start_settled-begins config actor_config (s ∷ children) env h k =
      ground (arith, ==_iff config.mailbox_capacity 0, ==_iff actor_config.mailbox_capacity 0)

  -- `initial_ref`, and `supervise_actor_with_config`: one child, its reference, and the tree.
  unfoldable pub initial_ref : Tree sp → Option ActorId
  initial_ref t = elim t.current_refs [ [] ↦ none | id ∷ refs ↦ some id ]

  unfoldable pub with_initial :
      Call (Option (Tree sp) × Env) → Call (Option (ActorId × Tree sp) × Env)
  unfolding initial_ref
  with_initial panics = panics
  with_initial (returns (none, env)) = returns (none, env)
  with_initial (returns (some t, env)) =
      returns (elim (initial_ref t) [ none ↦ none | some id ↦ some (id, t) ], env)

  unfoldable pub supervise_actor :
      SupervisorConfig → ActorConfig → Factory → ℕ → Env → Call (Option (ActorId × Tree sp) × Env)
  unfolding child_spec start_settled with_initial
  supervise_actor config actor_config factory counter env =
      with_initial (start_settled config actor_config ((child_spec 0 factory counter).0 ∷ []) env)
