-- ===== src/Tests/OnSystems.antt =====
-- The theorems on a supervisor with its actors, at concrete inputs.
use lane_switchboards.Base.{
  nat_eq, string_eq, ℕ, ◌+◌, String, ◌≡◌, refl, ◌⊎◌, true, false, none, some, List, [], ◌∷◌, arith,
  length, All, lookup, insert, ◌++◌, ◌++◌,
}
use lane_switchboards.Config.{default_actor_config}
use lane_switchboards.Cluster.{returns}
use lane_switchboards.Registry.{ActorEntry, get_supervisor_sender}
use lane_switchboards.Monitor.{new_cell}
use lane_switchboards.Actor.Types.{Envelope, ExitReason, RestartSignal}
use lane_switchboards.Actor.World.{propagate_linked_exit, notify_supervisor, push_to}
use lane_switchboards.Actor.Spawn.{spawned}
use lane_switchboards.Actor.Message.{handle_message}
use lane_switchboards.Supervisor.Children.{track_and_bump}
use lane_switchboards.Actor.Run.{
  mail, step, finish_actor, propagate, should_propagate_linked_exit, notify_monitors,
}
use lane_switchboards.Supervisor.{ChildSpec, default_supervisor_config}
use lane_switchboards.System.{Runtime, System, Turn, begins, acts, start, run, world, spawn_task}
use lane_switchboards.System.Watched.{IsKnown}
use lane_switchboards.System.Started.{run-forgets_none}
use lane_switchboards.System.Settled.{reads, IsDealt, reads-settle}
use lane_switchboards.Tests.Actors.{counting_actor, two_actors, outcome}

abbrev build : String → ℕ
build name = 0

abbrev children : List (ChildSpec String)
children =
    record { id = 21; order = 2; factory = "cache" }
    ∷ record { id = 22; order = 1; factory = "db" }
    ∷ []

abbrev runtime : Runtime String
runtime = record {
  shared = record {
    world = two_actors;
    registry = record { refs = []; generations = [] };
    slot = none;
  };
  born = [];
}

-- Both actors begin, the first is told something else and fails on 0, and the other is stopped.
abbrev turns : List (Turn ℕ ℕ)
turns =
    begins 0
    ∷ begins 0
    ∷ acts 0 (mail (Envelope.msg 5))
    ∷ acts 0 (mail (Envelope.msg 0))
    ∷ acts 0 (mail Envelope.stop)
    ∷ []

abbrev supervised : ℕ → ActorEntry
supervised id = record { control = id; supervisor = some 7 }

abbrev started : System 7 counting_actor build
started = record {
  tree = record {
    slots =
        record { id = 3; order = 1; factory = "db" }
        ∷ record { id = 4; order = 2; factory = "cache" }
        ∷ [];
    current_refs = 3 ∷ 4 ∷ [];
    restart_log = [];
    env = record {
      shared = record {
        world = record {
          actors = two_actors.actors ++ (3, supervised 3) ∷ (4, supervised 4) ∷ [];
          cells = two_actors.cells ++ (3, new_cell) ∷ (4, new_cell) ∷ [];
          controls = two_actors.controls ++ (3, []) ∷ (4, []) ∷ [];
          signals = (100, []) ∷ (7, []) ∷ [];
          exits = [];
          counter = 5;
        };
        registry = record {
          refs = ("db", 3) ∷ ("cache", 4) ∷ [];
          generations = ("db", 1) ∷ ("cache", 1) ∷ [];
        };
        slot = none;
      };
      born = ("db", 3) ∷ ("cache", 4) ∷ [];
    };
  };
  is_running = true;
  live = [];
  silent = [];
}

abbrev pending : List RestartSignal
pending = record { child_id = 3; reason = ExitReason.error "boom" } ∷ []

run-forgets_none_example :
    (s : System 7 counting_actor build) × (start 7 counting_actor build default_supervisor_config
        default_actor_config children runtime
      ≡ returns (some s))
    × (let s' = run 7 counting_actor build default_supervisor_config default_actor_config turns s in
        (s'.is_running ≡ false)
        ⊎ ((length s'.tree.slots ≡ length children)
            × All (λ c. IsKnown 7 (world 7 counting_actor build s') s'.silent c.id) s'.tree.slots))
run-forgets_none_example =
    run-forgets_none 7 counting_actor build default_supervisor_config default_actor_config children
      runtime turns (omega arith) (omega arith) (omega arith)

reads-settle_example :
    let s₁ =
      run 7 counting_actor build default_supervisor_config default_actor_config turns started in
    let s₂ =
      run 7 counting_actor build default_supervisor_config default_actor_config
        (reads 7 counting_actor build (λ k. k + 1000) pending)
        s₁ in
    (s₂.is_running ≡ false)
    ⊎ ((lookup 7 (world 7 counting_actor build s₂).signals ≡ some [])
        × All (λ c. IsDealt 7 counting_actor build s₂ c.id) s₂.tree.slots)
unfolding start run lookup spawn_task spawned track_and_bump insert step handle_message outcome
    finish_actor propagate should_propagate_linked_exit notify_monitors propagate_linked_exit
    notify_supervisor get_supervisor_sender push_to
reads-settle_example =
    reads-settle 7 counting_actor build default_supervisor_config default_actor_config children
      runtime turns (λ k. k + 1000) pending started (omega arith) (omega arith) (omega arith) refl
      refl
