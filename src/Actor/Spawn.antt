-- ===== src/Actor/Spawn.antt =====
-- src/actor.rs: `spawn_on_runtime`, up to the task that it starts.
use lane_switchboards.Base.{
  nat_eq, ℕ, Option, [], insert, ◌==◌, if◌then◌else◌, ◌≤◌, ◌≡◌, arith, ==_iff,
}
use lane_switchboards.Config.{ActorConfig}
use lane_switchboards.Cluster.{Call, panics, returns}
use lane_switchboards.Actor.Types.{ActorId, new_actor_id}
use lane_switchboards.Actor.World.{World}
use lane_switchboards.Registry.{register_actor}
use lane_switchboards.Monitor.{register}

-- What a spawn gives that does not panic: the new actor's identifier, which is also the number of its control channel, and the shared state
-- in which it is registered. The mailbox starts empty and open.
unfoldable pub spawned : Option ℕ → World → ActorId × World
unfolding new_actor_id register_actor register
spawned supervisor w =
    let (id, counter) = new_actor_id w.counter in
    (
      id,
      record w {
        actors = register_actor id id supervisor w.actors;
        cells = register id w.cells;
        controls = insert id [] w.controls;
        counter = counter;
      },
    )

-- `mpsc::channel(config.mailbox_capacity)` panics at 0.
unfoldable pub spawn_on_runtime : ActorConfig → Option ℕ → World → Call (ActorId × World)
unfolding spawned
spawn_on_runtime config supervisor w =
    if config.mailbox_capacity == 0 then panics else returns (spawned supervisor w)

-- With a mailbox capacity other than 0, a spawn does not panic.
pub spawn_on_runtime-spawned :
    (config : ActorConfig) (supervisor : Option ℕ) (w : World)
    → 1 ≤ config.mailbox_capacity
    → spawn_on_runtime config supervisor w ≡ returns (spawned supervisor w)
unfolding spawn_on_runtime
spawn_on_runtime-spawned config supervisor w h = ground (arith, ==_iff config.mailbox_capacity 0)
