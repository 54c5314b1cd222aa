-- ===== src/Actor/Ask.antt =====
-- The macros `actor_ask!` and `registry_ask!` of src/macros.rs. What the actor replies over the
-- oneshot channel, if it does, is an argument.
use lane_switchboards.Base.{nat_eq, string_eq, Option, none, some}
use lane_switchboards.Actor.Types.{ActorId}
use lane_switchboards.Actor.Ref.{Mailbox, send}

-- The reply, or one of the errors: the mailbox is closed, the actor dropped the reply, or no child
-- has the name.
pub data Asked {ℓ} (R : Type ℓ) : Type ℓ where
  replied : R → Asked R
  mailbox_closed dropped_reply missing : Asked R

module _ {M A R : Type 0} where
  unfoldable pub actor_ask : M → Option R → Mailbox M A → Mailbox M A × Asked R
  unfolding send
  actor_ask m reply mailbox = elim (send m mailbox) [
    | none ↦ (mailbox, mailbox_closed)
    | some mailbox' ↦ (mailbox', elim reply [ none ↦ dropped_reply | some r ↦ replied r ])
  ]

  -- `child` is what the registry gives for the name.
  unfoldable pub registry_ask :
      Option ActorId → M → Option R → (ActorId → Mailbox M A) → Option (Mailbox M A) × Asked R
  unfolding actor_ask
  registry_ask none m reply mailboxes = (none, missing)
  registry_ask (some id) m reply mailboxes =
      let (mailbox, answer) = actor_ask m reply (mailboxes id) in (some mailbox, answer)
