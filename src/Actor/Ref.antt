-- ===== src/Actor/Ref.antt =====
-- src/actor.rs: the methods of `ActorRef`. Each gives the mailbox after the send, or `none` for a
-- send error. A send that waits for a free place in the bounded channel is one that arrives.
use lane_switchboards.Base.{nat_eq, ℕ, Option, none, some, List, [], ◌∷◌, ◌++◌}
use lane_switchboards.Actor.Types.{ActorId, Envelope}

-- A mailbox: its queue, or `none` once the actor has dropped the receiver.
abbrev pub Mailbox {ℓ κ} : Type ℓ → Type κ → Type (ℓ ⊔ κ)
Mailbox M A = Option (List (Envelope M A))

module _ {ℓ κ} {M : Type ℓ} {A : Type κ} where
  unfoldable pub post : Envelope M A → Mailbox M A → Option (Mailbox M A)
  post e none = none
  post e (some queue) = some (some (queue ++ e ∷ []))

  unfoldable pub send : M → Mailbox M A → Option (Mailbox M A)
  unfolding post
  send m = post (Envelope.msg m)

  unfoldable pub stop : Mailbox M A → Option (Mailbox M A)
  unfolding post
  stop = post Envelope.stop

  unfoldable pub kill : Mailbox M A → Option (Mailbox M A)
  unfolding post
  kill = post Envelope.kill

  unfoldable pub link : ActorId → Mailbox M A → Option (Mailbox M A)
  unfolding post
  link other = post (Envelope.link other)

  unfoldable pub unlink : ActorId → Mailbox M A → Option (Mailbox M A)
  unfolding post
  unlink other = post (Envelope.unlink other)

  unfoldable pub upgrade : A → Mailbox M A → Option (Mailbox M A)
  unfolding post
  upgrade new_impl = post (Envelope.upgrade new_impl)

  unfoldable pub demonitor : ActorId → Mailbox M A → Option (Mailbox M A)
  unfolding post
  demonitor observer = post (Envelope.demonitor observer)

  -- A send error is dropped: the oneshot receiver `channel` is returned all the same.
  unfoldable pub monitor : ActorId → ℕ → Mailbox M A → Mailbox M A × ℕ
  unfolding post
  monitor observer channel mailbox = elim (post (Envelope.monitor observer channel) mailbox) [
    | none ↦ (mailbox, channel)
    | some after ↦ (after, channel)
  ]
