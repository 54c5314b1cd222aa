-- ===== src/Actor/World.antt =====
-- What every actor of the process shares: the registry, the monitor, the channels that the other
-- parts hold the far ends of; and the sends of src/actor.rs that go through them. A send that waits
-- for a free place in a bounded channel is one that arrives.
use lane_switchboards.Base.{nat_eq, ℕ, none, some, List, [], ◌∷◌, ◌++◌, Map, lookup, insert}
use lane_switchboards.Actor.Types.{ActorId, ExitReason, ControlMsg, RestartSignal}
use lane_switchboards.Registry.{ActorEntry, get_control_sender, get_supervisor_sender}
use lane_switchboards.Monitor.{Cells}

pub record World : Type 0 where
  pub actors : Map ActorId ActorEntry
  pub cells : Cells
  pub controls : Map ℕ (List ControlMsg)
  pub signals : Map ℕ (List RestartSignal)
  pub exits : List (ℕ × ExitReason)
  pub counter : ℕ

-- `tx.send(m).await` on a channel: at the end of its queue, or an error, which every caller drops,
-- once the receiver is gone.
unfoldable pub push_to {ℓ} : {A : Type ℓ} → ℕ → A → Map ℕ (List A) → Map ℕ (List A)
push_to ch a queues = elim (lookup ch queues) [
  | none ↦ queues
  | some q ↦ insert ch (q ++ a ∷ []) queues
]

-- Through the registry: nothing where the peer is not registered.
unfoldable pub send_control : ActorId → ControlMsg → World → World
send_control peer m w = elim (get_control_sender peer w.actors) [
  | none ↦ w
  | some ch ↦ record w { controls = push_to ch m w.controls }
]

unfoldable pub send_reverse_link : ActorId → ActorId → World → World
send_reverse_link self_id peer w = send_control peer (ControlMsg.link self_id) w

unfoldable pub notify_supervisor : ActorId → ExitReason → World → World
notify_supervisor id reason w = elim (get_supervisor_sender id w.actors) [
  | none ↦ w
  | some ch ↦ record w {
    signals = push_to ch (record { child_id = id; reason = reason }) w.signals;
  }
]

unfoldable pub propagate_linked_exit : ActorId → ExitReason → List ActorId → World → World
propagate_linked_exit id reason [] w = w
propagate_linked_exit id reason (peer ∷ links) w =
    propagate_linked_exit id reason links (send_control peer (ControlMsg.linked_exit id reason) w)
