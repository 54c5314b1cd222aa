-- ===== src/Actor/Run/Laws.antt =====
-- The loop of src/actor.rs: what an actor that ends leaves behind.
use mathlib.Core.Path.{subst, subst₂}
use lane_switchboards.Base.{
  nat_eq, ℕ, ◌≡◌, refl, ap, ◌∙◌, inl, inr, Option, none, some, List, [], ◌∷◌, arith, Bool-cases,
  Option-cases, ◌==◌, any, lookup, lookup-remove_self,
}
use lane_switchboards.Config.{ActorConfig}
use lane_switchboards.Registry.{unregister_actor}
use lane_switchboards.Monitor.{StatsCell, mark_inactive, idle_cell, update_cell}
use lane_switchboards.Monitor.Laws.{lookup-update_cell}
use lane_switchboards.Actor.Types.{
  ActorId, ExitReason, ControlMsg, linked_exit, Envelope, msg, unlink, monitor, demonitor, kill,
  stop, upgrade,
}
use lane_switchboards.Actor.World.{World, send_control, send_reverse_link, notify_supervisor}
use lane_switchboards.Actor.Message.{
  DynActor, Called, returned, unwound, Way, goes_on, exits, unwinds, handle_message,
}
use lane_switchboards.Actor.Message.Laws.{told, handle_message-accounted}
use lane_switchboards.Actor.Run.{
  Input, ctrl, mail, closed, Running, Round, stay, leave, add_link, retire, on_ctrl, on_mail,
  after_message, after_upgrade, step, finish_actor, Status, waiting, exited, not_started, dropped,
  abandon, ending, after_post_stop, fall, run_loop, started, run_actor, after_linked_exit,
}

-- Nothing of the actor is left in the shared state: no registration, no control channel, and no
-- message in flight.
pub record IsGone (id : ActorId) (control : ℕ) (w : World) : Type 0 where
  pub unregistered : lookup id w.actors ≡ none
  pub hung_up : lookup control w.controls ≡ none
  pub idle : (c : StatsCell) → lookup id w.cells ≡ some c → c.in_flight ≡ 0

mark_inactive-idle :
    (id : ActorId) (w : World) (c : StatsCell)
    → lookup id (mark_inactive id w.cells) ≡ some c
    → c.in_flight ≡ 0
unfolding mark_inactive update_cell
mark_inactive-idle id w c h = elim (Option-cases (lookup id w.cells)) [
  | inl e ↦ cc (rw (e, update_cell) at h, e)
  | inr (b, e) ↦ unfold idle_cell in ground (arith, h, lookup-update_cell id idle_cell w.cells b e)
]

retire-IsGone : (id : ActorId) (control : ℕ) (w : World) → IsGone id control (retire id control w)
unfolding retire unregister_actor
retire-IsGone id control w = record {
  unregistered = lookup-remove_self id w.actors;
  hung_up = lookup-remove_self control w.controls;
  idle = λ c h. mark_inactive-idle id w c h;
}

-- A send over a channel registers and unregisters nobody.
actors-send_control :
    (peer : ActorId) (m : ControlMsg) (w : World) → (send_control peer m w).actors ≡ w.actors
unfolding send_control
actors-send_control peer m w = ground arith

actors-notify_supervisor :
    (id : ActorId) (reason : ExitReason) (w : World)
    → (notify_supervisor id reason w).actors ≡ w.actors
unfolding notify_supervisor
actors-notify_supervisor id reason w = ground arith

module _ (d : DynActor) where
  open d use {Msg, Obj, pre_start, on_upgrade, trap_exit, post_stop}

  actors-told : (id : ActorId) (r : Way) (w : World) → (told d id r w).actors ≡ w.actors
  actors-told id goes_on w = refl
  actors-told id unwinds w = refl
  actors-told id (exits reason) w = actors-notify_supervisor id reason w

  actors-handle_message :
      (id : ActorId) (config : ActorConfig) (m : Msg) (obj : Obj) (w : World)
      → (handle_message d id config m obj w).1.actors ≡ w.actors
  actors-handle_message id config m obj w =
      let a = handle_message-accounted d id config m obj w in
      ap (λ v. World.actors v) a.2 ∙ actors-told id _ _

  -- What a round of the loop keeps: who the actor is, its control channel, and the registrations.
  abbrev pub Keeps : Running Obj → World → Round Obj → Type 0
  Keeps r w (stay r' w') = (r'.id ≡ r.id) × (r'.control ≡ r.control) × (w'.actors ≡ w.actors)
  Keeps r w (leave r' w' reason) =
      (r'.id ≡ r.id) × (r'.control ≡ r.control) × (w'.actors ≡ w.actors)
  Keeps r w (fall r' w') = (r'.id ≡ r.id) × (r'.control ≡ r.control) × (w'.actors ≡ w.actors)

  add_link-Keeps : (peer : ActorId) (r : Running Obj) (w : World) → Keeps r w (add_link peer r w)
  unfolding add_link send_reverse_link
  add_link-Keeps peer r w = elim (Bool-cases (any (λ l. l == peer) r.links)) [
    | inl e ↦ rw e (refl, refl, refl)
    | inr e ↦ rw e (refl, refl, actors-send_control peer _ w)
  ]

  after_message-Keeps :
      (r : Running Obj) (w : World) (res : Obj × World × Way)
      → res.1.actors ≡ w.actors
      → Keeps r w (after_message d r res)
  unfolding after_message
  after_message-Keeps r w (obj, w', goes_on) h = (refl, refl, h)
  after_message-Keeps r w (obj, w', exits e) h = (refl, refl, h)
  after_message-Keeps r w (obj, w', unwinds) h = (refl, refl, h)

  after_upgrade-Keeps :
      (r : Running Obj) (w : World) (res : Called Obj) → Keeps r w (after_upgrade d r w res)
  unfolding after_upgrade
  after_upgrade-Keeps r w (returned obj none) = (refl, refl, refl)
  after_upgrade-Keeps r w (returned obj (some e)) = (refl, refl, refl)
  after_upgrade-Keeps r w unwound = (refl, refl, refl)

  after_linked_exit-Keeps :
      (r : Running Obj) (w : World) (exit : Option ExitReason)
      → Keeps r w (after_linked_exit d r w exit)
  unfolding after_linked_exit
  after_linked_exit-Keeps r w none = (refl, refl, refl)
  after_linked_exit-Keeps r w (some exit) = (refl, refl, refl)

  on_ctrl-Keeps : (c : ControlMsg) (r : Running Obj) (w : World) → Keeps r w (on_ctrl d c r w)
  unfolding on_ctrl
  on_ctrl-Keeps (ControlMsg.link peer) r w = add_link-Keeps peer r w
  on_ctrl-Keeps (linked_exit peer reason) r w = after_linked_exit-Keeps r w _

  on_mail-Keeps : (e : Envelope Msg Obj) (r : Running Obj) (w : World) → Keeps r w (on_mail d e r w)
  unfolding on_mail
  on_mail-Keeps (msg m) r w =
      after_message-Keeps r w _ (actors-handle_message r.id r.config m r.obj w)
  on_mail-Keeps (Envelope.link peer) r w = add_link-Keeps peer r w
  on_mail-Keeps (unlink peer) r w = (refl, refl, refl)
  on_mail-Keeps (monitor observer notify) r w = (refl, refl, refl)
  on_mail-Keeps (demonitor observer) r w = (refl, refl, refl)
  on_mail-Keeps (upgrade new_impl) r w = after_upgrade-Keeps r w (on_upgrade 0 new_impl)
  on_mail-Keeps stop r w = (refl, refl, refl)
  on_mail-Keeps kill r w = (refl, refl, refl)

  step-Keeps : (i : Input Msg Obj) (r : Running Obj) (w : World) → Keeps r w (step d i r w)
  unfolding step
  step-Keeps (ctrl c) r w = on_ctrl-Keeps c r w
  step-Keeps (mail e) r w = on_mail-Keeps e r w
  step-Keeps closed r w = (refl, refl, refl)

  -- What is left of an actor whose task has unwound: its control channel is closed, and nobody has
  -- registered or unregistered anybody.
  abbrev pub IsDropped : ℕ → World → World → Type 0
  IsDropped control w w' = (lookup control w'.controls ≡ none) × (w'.actors ≡ w.actors)

  -- Alive and registered as before, gone, or dropped.
  abbrev pub Tidy : ActorId → ℕ → World → Status Obj → Type 0
  Tidy id control w (waiting r w') = (r.id ≡ id) × (r.control ≡ control) × (w'.actors ≡ w.actors)
  Tidy id control w (exited w' reason) = IsGone id control w'
  Tidy id control w (not_started w') = IsGone id control w'
  Tidy id control w (dropped w') = IsDropped control w w'

  abandon-IsDropped : (control : ℕ) (w : World) → IsDropped control w (abandon control w)
  unfolding abandon
  abandon-IsDropped control w = (lookup-remove_self control w.controls, refl)

  finish_actor-Tidy :
      (r : Running Obj) (reason : ExitReason) (w : World) (c : Called Obj)
      → post_stop r.obj ≡ c
      → Tidy r.id r.control w (ending d c (finish_actor d r reason w) reason)
  unfolding finish_actor ending after_post_stop
  finish_actor-Tidy r reason w (returned obj e) q =
      rw (q, finish_actor, after_post_stop) (retire-IsGone r.id r.control _)
  finish_actor-Tidy r reason w unwound q =
      rw (q, finish_actor, after_post_stop) (abandon-IsDropped r.control w)

  unfoldable pub after_round : List (Input Msg Obj) → Round Obj → Status Obj
  after_round inputs (stay r w) = run_loop d inputs r w
  after_round inputs (leave r w reason) =
      ending d (post_stop r.obj) (finish_actor d r reason w) reason
  after_round inputs (fall r w) = dropped (abandon r.control w)

  pub run_loop-cons :
      (i : Input Msg Obj) (inputs : List (Input Msg Obj)) (r : Running Obj) (w : World)
      → run_loop d (i ∷ inputs) r w ≡ after_round inputs (step d i r w)
  unfolding run_loop after_round
  run_loop-cons i inputs r w = ground arith

  Tidy-from :
      (id : ActorId) (control : ℕ) (w v : World) (s : Status Obj)
      → w.actors ≡ v.actors
      → Tidy id control w s
      → Tidy id control v s
  Tidy-from id control w v (waiting r w') h t = (t.0, t.1, t.2 ∙ h)
  Tidy-from id control w v (exited w' reason) h t = t
  Tidy-from id control w v (not_started w') h t = t
  Tidy-from id control w v (dropped w') h t = (t.0, t.1 ∙ h)

  after_round-Tidy :
      (inputs : List (Input Msg Obj)) (r : Running Obj) (w v : World) (round : Round Obj)
      → Keeps r w round
      → w.actors ≡ v.actors
      → ((r' : Running Obj) (w' : World)
          → r'.id ≡ r.id
          → r'.control ≡ r.control
          → w'.actors ≡ v.actors
          → Tidy r.id r.control v (run_loop d inputs r' w'))
      → Tidy r.id r.control v (after_round inputs round)
  unfolding after_round abandon
  after_round-Tidy inputs r w v (stay r' w') k ha rest = rest r' w' k.0 k.1 (k.2 ∙ ha)
  after_round-Tidy inputs r w v (leave r' w' reason) k ha rest =
      subst₂
        (λ id control.
          Tidy id control v (ending d (post_stop r'.obj) (finish_actor d r' reason w') reason))
        k.0 k.1
        (Tidy-from r'.id r'.control w' v _ (k.2 ∙ ha) (finish_actor-Tidy r' reason w' _ refl))
  after_round-Tidy inputs r w v (fall r' w') k ha rest =
      subst (λ c. IsDropped c v (abandon r'.control w')) k.1
        ((abandon-IsDropped r'.control w').0, k.2 ∙ ha)

  run_loop-Tidy :
      (inputs : List (Input Msg Obj)) (r : Running Obj) (w v : World) (id : ActorId) (control : ℕ)
      → r.id ≡ id
      → r.control ≡ control
      → w.actors ≡ v.actors
      → Tidy id control v (run_loop d inputs r w)
  unfolding run_loop
  run_loop-Tidy [] r w v id control hi hc ha = (hi, hc, ha)
  run_loop-Tidy (i ∷ inputs) r w v id control hi hc ha =
      subst₂ (λ n c. Tidy n c v (run_loop d (i ∷ inputs) r w)) hi hc
        (rw run_loop-cons (
          after_round-Tidy inputs r w v (step d i r w) (step-Keeps i r w) ha
            λ r' w'. run_loop-Tidy inputs r' w' v r.id r.control))

  started-Tidy :
      (id : ActorId) (control : ℕ) (config : ActorConfig) (inputs : List (Input Msg Obj))
      (w : World) (first : Called Obj)
      → Tidy id control w (started d id control config inputs w first)
  unfolding started
  started-Tidy id control config inputs w unwound = abandon-IsDropped control w
  started-Tidy id control config inputs w (returned obj (some e)) = retire-IsGone id control w
  started-Tidy id control config inputs w (returned obj none) =
      run_loop-Tidy inputs _ w w id control refl refl refl

  -- Whatever arrives, as long as its calls end, the actor is still in its loop, under its own
  -- identifier and with the registry as it found it; or it has ended, by an exit or by a failed
  -- `pre_start`, and then it is gone: it is not registered, its control channel is closed, and
  -- nothing of it is in flight; or a callback outside `handle` has panicked, and then its control
  -- channel is closed, and the registry is as it found it, with the actor still in it.
  pub run_actor-Tidy :
      (id : ActorId) (control : ℕ) (config : ActorConfig) (obj : Obj)
      (inputs : List (Input Msg Obj)) (w : World)
      → Tidy id control w (run_actor d id control config obj inputs w)
  unfolding run_actor
  run_actor-Tidy id control config obj inputs w = started-Tidy id control config inputs w _
