-- ===== src/System/Rounds.antt =====
-- What a round of an actor's loop in src/actor.rs does to the state that supervision rests on: only
-- an exit on a message tells the supervisor, and nothing else changes it.
use lane_switchboards.Registry.{get_supervisor_sender}
use lane_switchboards.Base.{
  false, nat_eq, ◌≡◌, refl, inl, inr, Option, none, some, List, [], ◌∷◌, arith, Bool-cases, any,
  ◌==◌, if◌then◌else◌, ◌⊎◌,
}
use lane_switchboards.Actor.Types.{
  ActorId, ExitReason, ControlMsg, linked_exit, Envelope, msg, unlink, monitor, demonitor, kill,
  stop, upgrade,
}
use lane_switchboards.Actor.World.{
  World, send_control, send_reverse_link, notify_supervisor, propagate_linked_exit,
}
use lane_switchboards.Actor.Message.{
  DynActor, Called, returned, unwound, Way, goes_on, exits, unwinds,
}
use lane_switchboards.Actor.Message.Laws.{told, handle_message-accounted}
use lane_switchboards.Actor.Run.{
  Input, ctrl, mail, closed, Running, Round, stay, leave, add_link, on_ctrl, on_mail, step,
  after_message, after_upgrade, after_linked_exit, propagate, notify_monitors, finish_actor, retire,
  fall, abandon, after_post_stop,
}
use lane_switchboards.System.{is_message}
use lane_switchboards.System.Watched.{Same}

pub refl-Same : (w : World) → Same w w
refl-Same w = record { actors = refl; signals = refl; counter = refl }

pub trans-Same : (u w v : World) → Same u w → Same w v → Same u v
trans-Same u w v p q = record {
  actors = cc (p.actors, q.actors);
  signals = cc (p.signals, q.signals);
  counter = cc (p.counter, q.counter);
}

send_control-Same : (peer : ActorId) (m : ControlMsg) (w : World) → Same w (send_control peer m w)
unfolding send_control
send_control-Same peer m w = ground arith

propagate_linked_exit-Same :
    (id : ActorId) (reason : ExitReason) (links : List ActorId) (w : World)
    → Same w (propagate_linked_exit id reason links w)
unfolding propagate_linked_exit
propagate_linked_exit-Same id reason [] w = refl-Same w
propagate_linked_exit-Same id reason (peer ∷ links) w =
    let v = send_control peer (ControlMsg.linked_exit id reason) w in
    trans-Same w v _ (send_control-Same peer (ControlMsg.linked_exit id reason) w)
      (propagate_linked_exit-Same id reason links v)

propagate-Same :
    (id : ActorId) (reason : ExitReason) (links : List ActorId) (w : World)
    → Same w (propagate id reason links w)
unfolding propagate
propagate-Same id reason links w = ground (arith, propagate_linked_exit-Same id reason links w)

notify-Same :
    (id : ActorId) (reason : ExitReason) (w v : World)
    → Same w v
    → Same (notify_supervisor id reason w) (notify_supervisor id reason v)
unfolding notify_supervisor get_supervisor_sender
notify-Same id reason w v q = ground arith

module _ (d : DynActor) where
  open d use {Msg, Obj, on_upgrade, trap_exit, post_stop}

  -- An exit on a message tells the supervisor; every other round leaves its signals alone.
  abbrev pub Heard : Input Msg Obj → Running Obj → World → Round Obj → Type 0
  Heard i r w (stay r' v) = Same w v
  Heard i r w (leave r' v reason) =
      (r'.id ≡ r.id) × Same (if is_message i then notify_supervisor r.id reason w else w) v
  Heard i r w (fall r' v) = (r'.id ≡ r.id) × Same w v

  told-Heard :
      (m : Msg) (r : Running Obj) (w : World) (res : Obj × World × Way) (w₁ : World)
      → Same w w₁
      → res.1 ≡ told d r.id res.2 w₁
      → Heard (mail (msg m)) r w (after_message d r res)
  unfolding after_message notify_supervisor
  told-Heard m r w (obj, v, goes_on) w₁ q h = rw h q
  told-Heard m r w (obj, v, unwinds) w₁ q h = (refl, rw h q)
  told-Heard m r w (obj, v, exits reason) w₁ q h = (refl, rw h (notify-Same r.id reason w w₁ q))

  add_link-Heard :
      (i : Input Msg Obj) (peer : ActorId) (r : Running Obj) (w : World)
      → Heard i r w (add_link peer r w)
  unfolding add_link send_reverse_link
  add_link-Heard i peer r w = elim (Bool-cases (any (λ l. l == peer) r.links)) [
    | inl e ↦ rw e (refl-Same w)
    | inr e ↦ rw e (send_control-Same peer _ w)
  ]

  after_linked_exit-Heard :
      (i : Input Msg Obj) (r : Running Obj) (w : World) (exit : Option ExitReason)
      → is_message i ≡ false
      → Heard i r w (after_linked_exit d r w exit)
  unfolding after_linked_exit
  after_linked_exit-Heard i r w none h = refl-Same w
  after_linked_exit-Heard i r w (some exit) h = (refl, rw h (refl-Same w))

  after_upgrade-Heard :
      (i : Input Msg Obj) (r : Running Obj) (w : World) (res : Called Obj)
      → is_message i ≡ false
      → Heard i r w (after_upgrade d r w res)
  unfolding after_upgrade
  after_upgrade-Heard i r w unwound h = (refl, refl-Same w)
  after_upgrade-Heard i r w (returned obj none) h = refl-Same w
  after_upgrade-Heard i r w (returned obj (some failure)) h = (refl, rw h (refl-Same w))

  after_post_stop-retires :
      (c : Called Obj) (r : Running Obj) (reason : ExitReason) (w : World)
      → (v : World) × Same w v
        × ((after_post_stop d c r reason w ≡ retire r.id r.control v)
            ⊎ (after_post_stop d c r reason w ≡ abandon r.control v))
  unfolding after_post_stop notify_monitors
  after_post_stop-retires unwound r reason w = (w, refl-Same w, inr refl)
  after_post_stop-retires (returned obj e) r reason w =
      let w₁ = notify_monitors reason r.monitors w in
      (
        propagate r.id reason r.links w₁,
        trans-Same w w₁ _ (record { actors = refl; signals = refl; counter = refl })
            (propagate-Same r.id reason r.links w₁),
        inl refl,
      )

  pub step-Heard : (i : Input Msg Obj) (r : Running Obj) (w : World) → Heard i r w (step d i r w)
  unfolding step on_ctrl on_mail after_upgrade after_linked_exit
  step-Heard (ctrl (ControlMsg.link peer)) r w =
      add_link-Heard (ctrl (ControlMsg.link peer)) peer r w
  step-Heard (ctrl (linked_exit peer reason)) r w =
      after_linked_exit-Heard (ctrl (linked_exit peer reason)) r w _ refl
  step-Heard (mail (msg m)) r w =
      let (s, k, q) = handle_message-accounted d r.id r.config m r.obj w in
      told-Heard m r w _ _ (record { actors = refl; signals = refl; counter = refl }) q
  step-Heard (mail (Envelope.link peer)) r w = add_link-Heard (mail (Envelope.link peer)) peer r w
  step-Heard (mail (unlink peer)) r w = refl-Same w
  step-Heard (mail (monitor observer notify)) r w = refl-Same w
  step-Heard (mail (demonitor observer)) r w = refl-Same w
  step-Heard (mail (upgrade new_impl)) r w =
      after_upgrade-Heard (mail (upgrade new_impl)) r w _ refl
  step-Heard (mail stop) r w = (refl, refl-Same w)
  step-Heard (mail kill) r w = (refl, refl-Same w)
  step-Heard closed r w = (refl, refl-Same w)

  -- `finish_actor` is the end of the registration, but where `post_stop` panics.
  pub finish_actor-retires :
      (r : Running Obj) (reason : ExitReason) (w : World)
      → (v : World) × Same w v
        × ((finish_actor d r reason w ≡ retire r.id r.control v)
            ⊎ (finish_actor d r reason w ≡ abandon r.control v))
  unfolding finish_actor
  finish_actor-retires r reason w = after_post_stop-retires (post_stop r.obj) r reason w
