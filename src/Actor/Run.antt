-- ===== src/Actor/Run.antt =====
-- src/actor.rs: `run_actor` and `finish_actor`. The inputs of the loop are what `select!` takes out
-- of the two channels, in that order; `next_input` is the choice that `biased` makes.
pub mod Laws
pub mod Ending
pub mod Links
pub mod Faults
use lane_switchboards.Base.{
  nat_eq, ℕ, Bool, true, false, not, Option, none, some, List, [], ◌∷◌, ◌++◌, map, if◌then◌else◌,
  ◌==◌, filter_by, any, remove,
}
use lane_switchboards.Config.{ActorConfig}
use lane_switchboards.Registry.{unregister_actor}
use lane_switchboards.Monitor.{mark_inactive}
use lane_switchboards.Actor.Types.{
  ActorId, ExitReason, normal, shutdown, error, linked, killed, ControlMsg, linked_exit, Envelope,
  msg, unlink, monitor, demonitor, kill, stop, upgrade,
}
use lane_switchboards.Actor.World.{World, send_reverse_link, propagate_linked_exit}
use lane_switchboards.Actor.Message.{
  DynActor, handle_message, exits, Called, returned, unwound, Way, goes_on, unwinds,
}

-- A message of either channel, or the end of one: `recv()` gives `None`.
pub data Input {ℓ κ} (M : Type ℓ) (A : Type κ) : Type (ℓ ⊔ κ) where
  ctrl : ControlMsg → Input M A
  mail : Envelope M A → Input M A
  closed : Input M A

-- A channel: its queue, and whether a sender is left.
pub record Channel {ℓ} (A : Type ℓ) : Type ℓ where
  pub queue : List A
  pub is_open : Bool

-- `biased`: the control channel first, whether it has a message or has been closed. `none` waits.
unfoldable pub next_input {ℓ κ} :
    {M : Type ℓ} {A : Type κ} → Channel ControlMsg → Channel (Envelope M A) → Option (Input M A)
next_input c m = elim c.queue [
  | x ∷ rest ↦ some (ctrl x)
  | [] ↦
      if c.is_open
      then elim m.queue [ e ∷ rest ↦ some (mail e) | [] ↦ if m.is_open then none else some closed ]
      else some closed
]

-- The variables of `run_actor`.
pub record Running (Obj : Type 0) : Type 0 where
  pub id : ActorId
  pub control : ℕ
  pub config : ActorConfig
  pub obj : Obj
  pub links : List ActorId
  pub monitors : List (ActorId × ℕ)

-- After one round of the loop: go on, leave it with a reason, or, where a callback panics, unwind.
pub data Round (Obj : Type 0) : Type 0 where
  stay : Running Obj → World → Round Obj
  leave : Running Obj → World → ExitReason → Round Obj
  fall : Running Obj → World → Round Obj

unfoldable pub should_propagate_linked_exit : ExitReason → Bool
should_propagate_linked_exit normal = false
should_propagate_linked_exit shutdown = false
should_propagate_linked_exit _ = true

unfoldable pub linked_exit_reason : ActorId → ExitReason → Bool → Option ExitReason
linked_exit_reason peer reason trap = if trap then none else some (linked peer reason)

module _ {Obj : Type 0} where
  -- `if links.insert(peer) { send_reverse_link(id, peer) }`.
  unfoldable pub add_link : ActorId → Running Obj → World → Round Obj
  add_link peer r w =
      if any (λ l. l == peer) r.links
      then stay r w
      else stay (record r { links = r.links ++ peer ∷ [] }) (send_reverse_link r.id peer w)

-- `for (_, notify) in monitors { notify.send(exit_reason.clone()) }`.
unfoldable pub notify_monitors : ExitReason → List (ActorId × ℕ) → World → World
notify_monitors reason monitors w = record w {
  exits = w.exits ++ map (λ m. (m.1, reason)) monitors;
}

-- The task ends, and with it the receiver of its control channel.
unfoldable pub retire : ActorId → ℕ → World → World
retire id control w = record w {
  actors = unregister_actor id w.actors;
  cells = mark_inactive id w.cells;
  controls = remove control w.controls;
}

-- The task unwinds: its receivers are dropped, and nothing else is done for it.
unfoldable pub abandon : ℕ → World → World
abandon control w = record w { controls = remove control w.controls }

-- The exit is propagated along the links, if it is abnormal.
unfoldable pub propagate : ActorId → ExitReason → List ActorId → World → World
propagate id reason links w =
    if should_propagate_linked_exit reason then propagate_linked_exit id reason links w else w

module _ (d : DynActor) where
  open d use {Msg, Obj, pre_start, on_upgrade, post_stop, trap_exit}

  unfoldable pub after_linked_exit : Running Obj → World → Option ExitReason → Round Obj
  after_linked_exit r w none = stay r w
  after_linked_exit r w (some exit) = leave r w exit

  unfoldable pub on_ctrl : ControlMsg → Running Obj → World → Round Obj
  unfolding add_link after_linked_exit
  on_ctrl (ControlMsg.link peer) r w = add_link peer r w
  on_ctrl (linked_exit peer reason) r w =
      after_linked_exit r w (linked_exit_reason peer reason (trap_exit r.obj))

  unfoldable pub after_message : Running Obj → Obj × World × Way → Round Obj
  after_message r (obj, w, goes_on) = stay (record r { obj = obj }) w
  after_message r (obj, w, exits reason) = leave (record r { obj = obj }) w reason
  after_message r (obj, w, unwinds) = fall (record r { obj = obj }) w

  unfoldable pub after_upgrade : Running Obj → World → Called Obj → Round Obj
  after_upgrade r w (returned obj none) = stay (record r { obj = obj }) w
  after_upgrade r w (returned obj (some e)) = leave (record r { obj = obj }) w (error e)
  after_upgrade r w unwound = fall r w

  unfoldable pub on_mail : Envelope Msg Obj → Running Obj → World → Round Obj
  unfolding add_link after_message after_upgrade
  on_mail (msg m) r w = after_message r (handle_message d r.id r.config m r.obj w)
  on_mail (Envelope.link peer) r w = add_link peer r w
  on_mail (unlink peer) r w = stay (record r { links = filter_by (λ l. not (l == peer)) r.links }) w
  on_mail (monitor observer notify) r w =
      stay (record r { monitors = r.monitors ++ (observer, notify) ∷ [] }) w
  on_mail (demonitor observer) r w =
      stay (record r { monitors = filter_by (λ m. not (m.0 == observer)) r.monitors }) w
  on_mail (upgrade new_impl) r w = after_upgrade r w (on_upgrade 0 new_impl)
  on_mail stop r w = leave r w shutdown
  on_mail kill r w = leave r w killed

  unfoldable pub step : Input Msg Obj → Running Obj → World → Round Obj
  unfolding on_ctrl on_mail
  step (ctrl c) r w = on_ctrl c r w
  step (mail e) r w = on_mail e r w
  step closed r w = leave r w normal

  -- What follows `post_stop`, whose error is not looked at.
  unfoldable pub after_post_stop : Called Obj → Running Obj → ExitReason → World → World
  unfolding retire abandon
  after_post_stop unwound r reason w = abandon r.control w
  after_post_stop (returned obj e) r reason w =
      retire r.id r.control (propagate r.id reason r.links (notify_monitors reason r.monitors w))

  -- `finish_actor`, and the end of the task.
  unfoldable pub finish_actor : Running Obj → ExitReason → World → World
  unfolding after_post_stop
  finish_actor r reason w = after_post_stop (post_stop r.obj) r reason w

-- Where an actor stands after some inputs.
pub data Status (Obj : Type 0) : Type 0 where
  waiting : Running Obj → World → Status Obj
  exited : World → ExitReason → Status Obj
  not_started : World → Status Obj
  dropped : World → Status Obj

module _ (d : DynActor) where
  open d use {Msg, Obj, pre_start, post_stop}

  unfoldable pub ending : Called Obj → World → ExitReason → Status Obj
  ending (returned obj e) w reason = exited w reason
  ending unwound w reason = dropped w

  unfoldable pub run_loop : List (Input Msg Obj) → Running Obj → World → Status Obj
  unfolding ending abandon
  run_loop [] r w = waiting r w
  run_loop (i ∷ inputs) r w = elim (step d i r w) [
    | stay r' w' ↦ run_loop inputs r' w'
    | leave r' w' reason ↦ ending (post_stop r'.obj) (finish_actor d r' reason w') reason
    | fall r' w' ↦ dropped (abandon r'.control w')
  ]

  unfoldable pub started :
      ActorId → ℕ → ActorConfig → List (Input Msg Obj) → World → Called Obj → Status Obj
  unfolding run_loop abandon
  started id control config inputs w unwound = dropped (abandon control w)
  started id control config inputs w (returned obj (some e)) = not_started (retire id control w)
  started id control config inputs w (returned obj none) =
      run_loop inputs
        (record {
          id = id;
          control = control;
          config = config;
          obj = obj;
          links = [];
          monitors = [];
        })
        w

  unfoldable pub run_actor :
      ActorId → ℕ → ActorConfig → Obj → List (Input Msg Obj) → World → Status Obj
  unfolding started
  run_actor id control config obj inputs w = started id control config inputs w (pre_start obj)
