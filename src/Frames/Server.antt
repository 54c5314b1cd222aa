-- ===== src/Frames/Server.antt =====
-- The tasks of a `Node` of src/distributed.rs, in any order: the one that accepts connections, those
-- that read the frames of a connection, and those that put a message into its target's channel while
-- they hold a permit of the in-flight semaphore.
use lane_switchboards.Base.{
  nat_eq, string_eq, ℕ, zero, suc, ◌+◌, ◌-◌, String, Bool, true, false, not, ◌&&◌, Option, none,
  some, List, [], ◌∷◌, ◌++◌, if◌then◌else◌, ◌==◌, get_elem?, set, lookup,
}
use lane_switchboards.Config.{DistributedConfig}
use lane_switchboards.Frames.{
  Json, invalid_data, Tail, Read, got, ended, failed, read_u32_le_timeout, read_body, decode,
}
use lane_switchboards.Frames.Node.{Channel, Node, register, unregister, run_task}

-- What a round of the loop of `handle_conn` comes to before it asks for a permit: a task and the
-- bytes that are left, or the end of the connection.
pub data Next (M : Type 0) : Type 0 where
  frame : String × M → List ℕ → Next M
  stopped : Read (Unit {0}) → Next M

module _ {M : Type 0} (json : Json M) where
  unfoldable pub on_body : Read (List ℕ) × List ℕ → Next M
  unfolding decode
  on_body (got body, later) = elim (decode json body) [
    | none ↦ stopped (failed invalid_data)
    | some task ↦ frame task later
  ]
  on_body (ended, later) = stopped ended
  on_body (failed kind, later) = stopped (failed kind)

  unfoldable pub on_length : Read ℕ × List ℕ → Tail → Next M
  unfolding read_body on_body
  on_length (got n, rest) tail = on_body (read_body n rest tail)
  on_length (ended, rest) tail = stopped ended
  on_length (failed kind, rest) tail = stopped (failed kind)

  unfoldable pub next_frame : DistributedConfig → List ℕ → Tail → Next M
  unfolding read_u32_le_timeout on_length
  next_frame config bytes tail = on_length (read_u32_le_timeout config bytes tail) tail

-- A connection: what comes over it in all, and what of that has not been read; the task that waits
-- for a permit; whether its loop goes on; and, for the record only, the tasks spawned.
pub record Conn (M : Type 0) : Type 0 where
  pub bytes : List ℕ
  pub tail : Tail
  pub left : List ℕ
  pub held : Option (String × M)
  pub is_open : Bool
  pub spawned : List (String × M)

-- `permits` are those that are free; `tasks` are the tasks of frames, each with a permit.
pub record NodeServer (M : Type 0) : Type 0 where
  pub node : Node
  pub is_listening : Bool
  pub conns : List (Conn M)
  pub permits : ℕ
  pub tasks : List (String × M)
  pub channels : List (Channel M)

-- A connection comes, whose TLS handshake, if there is one, succeeds or not; accepting fails; a
-- connection reads a frame; it gets a permit, if one is free; a task runs, and finds room in the
-- channel or not; a target is registered, or is no longer.
pub data NodeEvent : Type 0 where
  accepts : Bool → List ℕ → Tail → NodeEvent
  accept_fails : NodeEvent
  reads permitted : ℕ → NodeEvent
  runs : ℕ → Bool → NodeEvent
  registers : String → ℕ → NodeEvent
  unregisters : String → NodeEvent

-- `Semaphore::new(config.max_in_flight.max(1))`.
unfoldable pub in_flight : DistributedConfig → ℕ
in_flight config = if config.max_in_flight == 0 then 1 else config.max_in_flight

unfoldable pub take_out {ℓ} : {A : Type ℓ} → ℕ → List A → List A
take_out k [] = []
take_out zero (x ∷ xs) = xs
take_out (suc k) (x ∷ xs) = x ∷ take_out k xs

module _ {M : Type 0} where
  -- `Node::bind_on_runtime`.
  unfoldable pub bind : DistributedConfig → Node → List (Channel M) → NodeServer M
  unfolding in_flight
  bind config node channels = record {
    node = node;
    is_listening = true;
    conns = [];
    permits = in_flight config;
    tasks = [];
    channels = channels;
  }

  unfoldable pub on_next : Next M → Conn M → Conn M
  on_next (frame task later) c = record c { left = later; held = some task }
  on_next (stopped r) c = record c { is_open = false }

  -- Whether `tx.send(msg).await` of a task waits.
  unfoldable pub must_wait : Node → String → Bool → List (Channel M) → Bool
  must_wait node target room channels = elim (lookup target node.dispatch) [
    | none ↦ false
    | some tx ↦ elim (get_elem? channels tx) [ none ↦ false | some c ↦ not c.closed && not room ]
  ]

  unfoldable pub run_next : ℕ → Bool → Option (String × M) → NodeServer M → NodeServer M
  unfolding must_wait run_task take_out
  run_next k room none s = s
  run_next k room (some task) s = if must_wait s.node task.0 room s.channels then s else record s {
    channels = run_task s.node task s.channels;
    tasks = take_out k s.tasks;
    permits = s.permits + 1;
  }

  -- `acquire_owned` and `spawn_on`.
  unfoldable pub spawn_held : ℕ → Conn M → Option (String × M) → NodeServer M → NodeServer M
  spawn_held n c none s = s
  spawn_held n c (some task) s = if s.permits == 0 then s else record s {
    conns = set s.conns n (record c { held = none; spawned = c.spawned ++ task ∷ [] });
    permits = s.permits - 1;
    tasks = s.tasks ++ task ∷ [];
  }

module _ {M : Type 0} (json : Json M) where
  -- The loop goes on once it holds no task.
  unfoldable pub read_next : DistributedConfig → Conn M → Conn M
  unfolding next_frame on_next
  read_next config c =
      let after = on_next (next_frame json config c.left c.tail) c in
      elim c.held [ some task ↦ c | none ↦ if c.is_open then after else c ]

  unfoldable pub on_event : DistributedConfig → NodeEvent → NodeServer M → NodeServer M
  unfolding read_next spawn_held run_next register unregister
  on_event config (accepts secured bytes tail) s =
      if s.is_listening && secured
      then record s {
        conns =
            s.conns
            ++ record {
              bytes = bytes;
              tail = tail;
              left = bytes;
              held = none;
              is_open = true;
              spawned = [];
            }
              ∷ [];
      }
      else s
  on_event config accept_fails s = record s { is_listening = false }
  on_event config (reads n) s = elim (get_elem? s.conns n) [
    | none ↦ s
    | some c ↦ record s { conns = set s.conns n (read_next config c) }
  ]
  on_event config (permitted n) s = elim (get_elem? s.conns n) [
    | none ↦ s
    | some c ↦ spawn_held n c c.held s
  ]
  on_event config (runs k room) s = run_next k room (get_elem? s.tasks k) s
  on_event config (registers target tx) s = record s { node = register target tx s.node }
  on_event config (unregisters target) s = record s { node = unregister target s.node }

  unfoldable pub run : DistributedConfig → List NodeEvent → NodeServer M → NodeServer M
  unfolding on_event
  run config [] s = s
  run config (event ∷ events) s = run config events (on_event config event s)
