-- ===== src/Actor/Types.antt =====
-- src/actor.rs: identifiers, exit reasons and messages; and the restart signal of
-- src/supervisor.rs, which the actors send.
use lane_switchboards.Base.{nat_eq, ℕ, Bool, ◌==◌, inc64, String}

-- `ActorId(pub u64)`.
abbrev pub ActorId : Type 0
ActorId = ℕ

-- `ActorId::DEAD`: a child slot whose last restart failed.
abbrev pub dead : ActorId
dead = 0

unfoldable pub is_dead : ActorId → Bool
is_dead id = id == dead

-- `ActorId::new`: the identifier, and the counter after `fetch_add`.
unfoldable pub new_actor_id : ℕ → ActorId × ℕ
new_actor_id counter = (counter, inc64 counter)

-- Why an actor exited.
pub data ExitReason : Type 0 where
  normal : ExitReason
  shutdown : ExitReason
  error : String → ExitReason
  handle_timeout : ℕ → ℕ → ExitReason
  linked : ActorId → ExitReason → ExitReason
  killed : ExitReason

-- What is routed to an actor of any message type through the global registry.
pub data ControlMsg : Type 0 where
  link : ActorId → ControlMsg
  linked_exit : ActorId → ExitReason → ControlMsg

-- The mailbox of an actor over messages `M` and implementations `A`; a oneshot sender is the number
-- of its channel.
pub data Envelope {ℓ κ} (M : Type ℓ) (A : Type κ) : Type (ℓ ⊔ κ) where
  msg : M → Envelope M A
  link : ActorId → Envelope M A
  unlink : ActorId → Envelope M A
  monitor : ActorId → ℕ → Envelope M A
  demonitor : ActorId → Envelope M A
  kill : Envelope M A
  stop : Envelope M A
  upgrade : A → Envelope M A

-- Sent to the supervisor when a child fails. The source prints the reason with `{:?}` and nothing
-- reads the text; here it stands unprinted.
pub record RestartSignal : Type 0 where
  pub child_id : ActorId
  pub reason : ExitReason
