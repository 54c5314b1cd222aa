-- ===== src/Frames/Node.antt =====
-- `Node` of src/distributed.rs and what serves an actor behind it: the dispatch table, the tasks of
-- frames, the bridge from a channel to the actor's mailbox, and `serve_actor_on_runtime`. Channels
-- are numbered in a store; whether the actor spawns and the address binds are arguments.
use lane_switchboards.Base.{
  nat_eq, string_eq, ℕ, String, Bool, true, false, Option, none, some, List, [], ◌∷◌, ◌++◌,
  if◌then◌else◌, ◌==◌, length, get_elem?, set, Map, lookup, insert, remove,
}
use lane_switchboards.Config.{DistributedConfig}
use lane_switchboards.Cluster.{Call, panics, returns, ClusterMember}
use lane_switchboards.Actor.Types.{ActorId}

-- What is in a channel, and whether its receiver is gone.
pub record Channel (M : Type 0) : Type 0 where
  pub queue : List M
  pub closed : Bool

pub record Node : Type 0 where
  pub name : String
  pub bind_addr : String
  pub dispatch : Map String ℕ

unfoldable pub register : String → ℕ → Node → Node
register target tx node = record node { dispatch = insert target tx node.dispatch }

unfoldable pub unregister : String → Node → Node
unregister target node = record node { dispatch = remove target node.dispatch }

module _ {M : Type 0} where
  -- `tx.send(m).await`, whose error is not looked at.
  unfoldable pub offer : ℕ → M → List (Channel M) → List (Channel M)
  offer tx m channels = elim (get_elem? channels tx) [
    | none ↦ channels
    | some c ↦
        if c.closed then channels else set channels tx (record c { queue = c.queue ++ m ∷ [] })
  ]

  -- The task of a frame: into the channel of its target, if one is registered.
  unfoldable pub run_task : Node → String × M → List (Channel M) → List (Channel M)
  unfolding offer
  run_task node (target, m) channels = elim (lookup target node.dispatch) [
    | none ↦ channels
    | some tx ↦ offer tx m channels
  ]

  -- The tasks in the order in which the runtime happens to run them.
  unfoldable pub run_tasks : Node → List (String × M) → List (Channel M) → List (Channel M)
  unfolding run_task
  run_tasks node [] channels = channels
  run_tasks node (task ∷ tasks) channels = run_tasks node tasks (run_task node task channels)

  -- The bridge: each message goes to the actor's mailbox, until a send fails. It gives the messages
  -- that the mailbox took, what stays in the channel, and whether the bridge has ended.
  unfoldable pub bridge : List Bool → List M → List M × List M × Bool
  bridge [] queue = ([], queue, false)
  bridge (accepts ∷ sends) [] = ([], [], false)
  bridge (accepts ∷ sends) (m ∷ queue) =
      let (taken, left, ended) = bridge sends queue in
      if accepts then (m ∷ taken, left, ended) else ([], queue, true)

-- What a process hosts: the actors spawned, the nodes that listen, the channels, and the bridges
-- from a channel to an actor.
pub record Host (M : Type 0) : Type 0 where
  pub actors : List ActorId
  pub nodes : List Node
  pub channels : List (Channel M)
  pub bridges : Map ℕ ActorId

pub record NodeHandle : Type 0 where
  pub member : ClusterMember
  pub node : Node

-- The errors of `serve_actor`: the actor did not spawn, or the address did not bind.
pub data ServeError : Type 0 where
  spawn_failed bind_failed : ServeError

pub data Serving : Type 0 where
  serving : NodeHandle → Serving
  not_serving : ServeError → Serving

-- `Node::bind_on_runtime`, the listener having its address.
unfoldable pub bind_node : String → String → Node
bind_node name actual_addr = record { name = name; bind_addr = actual_addr; dispatch = [] }

module _ {M : Type 0} where
  -- The channel, its entry in the dispatch table, and the bridge.
  unfoldable pub hook : String → ActorId → Node → Host M → Node × Host M
  unfolding register
  hook target actor node host =
      let tx = length host.channels in
      let node' = register target tx node in
      (
        node',
        record host {
          nodes = host.nodes ++ node' ∷ [];
          channels = host.channels ++ record { queue = []; closed = false } ∷ [];
          bridges = insert tx actor host.bridges;
        },
      )

  -- `mpsc::channel` panics where the capacity is zero.
  unfoldable pub serve_actor_on_runtime :
      String
      → String
      → DistributedConfig
      → Option ActorId
      → Option String
      → Host M
      → Call (Serving × Host M)
  unfolding bind_node hook
  serve_actor_on_runtime node_name target distributed none bound host =
      returns (not_serving spawn_failed, host)
  serve_actor_on_runtime node_name target distributed (some actor) none host =
      returns (not_serving bind_failed, record host { actors = host.actors ++ actor ∷ [] })
  serve_actor_on_runtime node_name target distributed (some actor) (some address) host =
      let started = record host { actors = host.actors ++ actor ∷ [] } in
      let (node, host') = hook target actor (bind_node node_name address) started in
      if distributed.bridge_capacity == 0
      then panics
      else returns (
        serving (record {
          member = record { name = node_name; node_addr = address; target = target };
          node = node;
        }),
        host',
      )
