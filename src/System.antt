-- ===== src/System.antt =====
-- A supervisor of src/supervisor.rs with the actors of src/actor.rs that it has spawned: the tasks
-- of the process, which take their turns in any order. The supervisor's children are made by
-- `spawn_child_spec`, and its channel has a number.
pub mod Watched
pub mod Rounds
pub mod Passes
pub mod Kept
pub mod Sound
pub mod Burial
pub mod Restarts
pub mod Forgotten
pub mod Started
pub mod Settled
use lane_switchboards.Base.{
  nat_eq, ℕ, zero, suc, Bool, true, false, Option, none, some, List, [], ◌∷◌, ◌++◌, if◌then◌else◌,
  Eq, lookup, insert, remove, get_elem?, set,
}
use lane_switchboards.Config.{ActorConfig}
use lane_switchboards.Cluster.{Call, panics, returns}
use lane_switchboards.Actor.Types.{ActorId, Envelope, RestartSignal, stop}
use lane_switchboards.Actor.World.{World}
use lane_switchboards.Actor.Message.{DynActor, Called, returned, unwound}
use lane_switchboards.Actor.Run.{
  Input, mail, Running, Round, stay, leave, step, retire, finish_actor, fall, abandon,
}
use lane_switchboards.Supervisor.{
  SupervisorConfig, shutdown, signal, Spawner, ChildSpec, Tree, Phase, running, ended, on_event,
}
use lane_switchboards.Supervisor.Start.{start_settled}
use lane_switchboards.Supervisor.Children.{Shared, spawn_named}

-- What the factories act on: the shared state, and the actors whose task has been spawned and has
-- not begun, with their names.
pub record Runtime (K : Type 0) : Type 0 where
  pub shared : Shared K
  pub born : List (K × ActorId)

-- A task that is taken out of a list of tasks.
unfoldable pub remove_at {ℓ} : {A : Type ℓ} → ℕ → List A → List A
remove_at n [] = []
remove_at zero (x ∷ xs) = xs
remove_at (suc n) (x ∷ xs) = x ∷ remove_at n xs

module _ (channel : ℕ) {K : Type 0} ⦃e : Eq K⦄ where
  unfoldable pub note_birth : K → Option ActorId × Shared K → Runtime K → Option ActorId × Runtime K
  note_birth name (none, shared) env = (none, record env { shared = shared })
  note_birth name (some id, shared) env =
      (some id, record env { shared = shared; born = env.born ++ (name, id) ∷ [] })

  -- `spawn_named`, with the `tokio::spawn` in it.
  unfoldable pub spawn_task : K → Runtime K → Option ActorId × Runtime K
  unfolding note_birth spawn_named
  spawn_task name env = note_birth name (spawn_named channel name env.shared) env

-- A stop goes to the actor's mailbox; what an actor takes out of its channels is an argument of its
-- turn.
abbrev pub task_spawner : ℕ → (K : Type 0) ⦃e : Eq K⦄ → Spawner
task_spawner channel K = record {
  Env = Runtime K;
  Factory = K;
  restart = spawn_task channel;
  stop = λ id env. env;
}

-- Whose turn it is: an actor's task begins; a running actor takes an input; the supervisor takes
-- the next signal off its channel, at a time; the supervisor's handle stops it.
pub data Turn (M A : Type 0) : Type 0 where
  begins : ℕ → Turn M A
  acts : ℕ → Input M A → Turn M A
  supervises : ℕ → Turn M A
  stops : Turn M A

-- Whether the supervisor is told of an exit on this input.
abbrev pub is_message : {M A : Type 0} → Input M A → Bool
is_message (mail (Envelope.msg m)) = true
is_message other = false

module _ (channel : ℕ) (d : DynActor) {K : Type 0} ⦃e : Eq K⦄ (build : K → d.Obj) where
  open d use {Msg, Obj, pre_start}

  -- The supervisor's variables, and whether its task goes on; the actors whose loop runs; and, for
  -- the record only, those whose task ended without a word to the supervisor: by an exit on anything
  -- but a message, by a failed `pre_start`, or by a panic of a callback outside `handle`.
  pub record System : Type 0 where
    pub tree : Tree (task_spawner channel K)
    pub is_running : Bool
    pub live : List (Running Obj)
    pub silent : List ActorId

  abbrev pub world : System → World
  world s = s.tree.env.shared.world

  abbrev pub in_world : World → Tree (task_spawner channel K) → Tree (task_spawner channel K)
  in_world w t = record t { env = record t.env { shared = record t.env.shared { world = w } } }

  -- `pre_start`, by which the loop is entered or the task ends.
  unfoldable pub begin_loop : ActorConfig → ActorId → Called Obj → System → System
  unfolding abandon
  begin_loop config id unwound s = record s {
    tree = in_world (abandon id (world s)) s.tree;
    silent = id ∷ s.silent;
  }
  begin_loop config id (returned obj (some failure)) s = record s {
    tree = in_world (retire id id (world s)) s.tree;
    silent = id ∷ s.silent;
  }
  begin_loop config id (returned obj none) s = record s {
    live =
        s.live
        ++ record { id = id; control = id; config = config; obj = obj; links = []; monitors = [] }
          ∷ [];
  }

  unfoldable pub after_round : ℕ → Input Msg Obj → Round Obj → System → System
  unfolding abandon
  after_round n i (stay r w) s = record s { tree = in_world w s.tree; live = set s.live n r }
  after_round n i (leave r w reason) s = record s {
    tree = in_world (finish_actor d r reason w) s.tree;
    live = remove_at n s.live;
    silent = if is_message i then s.silent else r.id ∷ s.silent;
  }
  after_round n i (fall r w) s = record s {
    tree = in_world (abandon r.control w) s.tree;
    live = remove_at n s.live;
    silent = r.id ∷ s.silent;
  }

  unfoldable pub begin_system :
      Call (Option (Tree (task_spawner channel K)) × Runtime K) → Call (Option System)
  begin_system panics = panics
  begin_system (returns (none, env)) = returns none
  begin_system (returns (some t, env)) =
      returns (some (record { tree = t; is_running = true; live = []; silent = [] }))

  -- `start_settled`: the supervisor's channel is made, the children are spawned, and its task runs.
  unfoldable pub start :
      SupervisorConfig → ActorConfig → List (ChildSpec K) → Runtime K → Call (Option System)
  unfolding start_settled begin_system
  start config actor_config children env =
      let w = env.shared.world in
      let env' : Runtime K = record env {
        shared = record env.shared { world = record w { signals = insert channel [] w.signals } };
      } in
      begin_system (start_settled (task_spawner channel K) config actor_config children env')

  -- When the supervisor's task ends, the receiver of its channel is gone.
  unfoldable pub conclude : Phase (task_spawner channel K) → System → System
  conclude (running t) s = record s { tree = t }
  conclude (ended t) s =
      let w = t.env.shared.world in
      record s {
        tree = in_world (record w { signals = remove channel w.signals }) t;
        is_running = false;
      }

  unfoldable pub receive : SupervisorConfig → ℕ → Option (List RestartSignal) → System → System
  unfolding conclude on_event
  receive config now (some (sig ∷ queue)) s =
      let w = world s in
      let t = in_world (record w { signals = insert channel queue w.signals }) s.tree in
      conclude (on_event (task_spawner channel K) config (signal sig.child_id now) t) s
  receive config now none s = s
  receive config now (some []) s = s

  unfoldable pub turn : SupervisorConfig → ActorConfig → Turn Msg Obj → System → System
  unfolding begin_loop after_round receive conclude remove_at
  turn config actor_config (begins n) s = elim (get_elem? s.tree.env.born n) [
    | none ↦ s
    | some b ↦ begin_loop actor_config b.1 (pre_start (build b.0)) (record s {
      tree = record s.tree { env = record s.tree.env { born = remove_at n s.tree.env.born } };
    })
  ]
  turn config actor_config (acts n i) s = elim (get_elem? s.live n) [
    | none ↦ s
    | some r ↦ after_round n i (step d i r (world s)) s
  ]
  turn config actor_config (supervises now) s =
      if s.is_running then receive config now (lookup channel (world s).signals) s else s
  turn config actor_config stops s =
      if s.is_running
      then conclude (on_event (task_spawner channel K) config shutdown s.tree) s
      else s

  unfoldable pub run : SupervisorConfig → ActorConfig → List (Turn Msg Obj) → System → System
  unfolding turn
  run config actor_config [] s = s
  run config actor_config (t ∷ turns) s =
      run config actor_config turns (turn config actor_config t s)
