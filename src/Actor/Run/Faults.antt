-- ===== src/Actor/Run/Faults.antt =====
-- Two actors of src/actor.rs together: how a link comes to be held on both sides.
use lane_switchboards.Base.{
  nat_eq, ◌≡◌, sym, ap, ◌∙◌, ◌≢◌, true, false, some, List, [], ◌∷◌, ◌++◌, arith, ==_refl, lookup,
}
use lane_switchboards.Registry.{ActorEntry}
use lane_switchboards.Actor.Types.{ActorId, ControlMsg, Envelope}
use lane_switchboards.Actor.World.{World, send_reverse_link}
use lane_switchboards.Actor.Message.{DynActor}
use lane_switchboards.Actor.Run.{ctrl, mail, Running, stay, add_link, on_ctrl, on_mail, step}
use lane_switchboards.Actor.Run.Links.{
  IsWired, has, send_control-arrives, send_control_ne, send_control-IsWired, actors-send_control,
  has-append,
}

module _ (d : DynActor) where
  open d use {Msg, Obj, trap_exit}

  with_link : Running Obj → ActorId → Running Obj
  with_link r peer = record r { links = r.links ++ peer ∷ [] }

  add_link_new :
      (peer : ActorId) (r : Running Obj) (w : World)
      → has peer r.links ≡ false
      → add_link peer r w ≡ stay (with_link r peer) (send_reverse_link r.id peer w)
  unfolding add_link with_link
  add_link_new peer r w h = rw h

  add_link_old :
      (peer : ActorId) (r : Running Obj) (w : World)
      → has peer r.links ≡ true
      → add_link peer r w ≡ stay r w
  unfolding add_link
  add_link_old peer r w h = rw h

  has-with_link : (r : Running Obj) (peer : ActorId) → has peer (with_link r peer).links ≡ true
  unfolding with_link
  has-with_link r peer = ground (arith, has-append peer peer r.links, ==_refl peer)

  -- An actor that takes up a link asks its peer for the other half; the peer takes it up and asks
  -- back; and there it ends: the first actor, which holds the link, stays as it is and sends
  -- nothing. Both are registered, neither held the link before, and they are not the same actor.
  pub link_handshake :
      (a b : Running Obj) (w : World) {ea eb : ActorEntry} {qa qb : List ControlMsg}
      → IsWired w
      → a.id ≢ b.id
      → lookup a.id w.actors ≡ some ea
      → lookup b.id w.actors ≡ some eb
      → lookup a.id w.controls ≡ some qa
      → lookup b.id w.controls ≡ some qb
      → has b.id a.links ≡ false
      → has a.id b.links ≡ false
      → (a' b' : Running Obj) × (v u : World) × (step d (mail (Envelope.link b.id)) a w ≡ stay a' v)
        × (lookup b.id v.controls ≡ some (qb ++ ControlMsg.link a.id ∷ []))
        × (step d (ctrl (ControlMsg.link a.id)) b v ≡ stay b' u)
        × (lookup a.id u.controls ≡ some (qa ++ ControlMsg.link b.id ∷ []))
        × (step d (ctrl (ControlMsg.link b.id)) a' u ≡ stay a' u)
        × (has b.id a'.links ≡ true)
        × (has a.id b'.links ≡ true)
  unfolding step on_mail on_ctrl send_reverse_link
  link_handshake a b w {ea} {eb} {qa} {qb} wired apart ha hb ca cb na nb =
      let v = send_reverse_link a.id b.id w in
      let u = send_reverse_link b.id a.id v in
      let qa' : lookup a.id v.controls ≡ some qa =
        send_control_ne b.id a.id (ControlMsg.link a.id) w wired (λ e. apart (sym e)) ∙ ca in
      (
        with_link a b.id,
        with_link b a.id,
        v,
        u,
        add_link_new b.id a w na,
        send_control-arrives b.id (ControlMsg.link a.id) w {e = eb} {q = qb} wired hb cb,
        add_link_new a.id b v nb,
        send_control-arrives a.id (ControlMsg.link b.id) v {e = ea} {q = qa}
            (send_control-IsWired b.id (ControlMsg.link a.id) w wired)
            (ap (λ m. lookup a.id m) (actors-send_control b.id (ControlMsg.link a.id) w) ∙ ha) qa',
        add_link_old b.id (with_link a b.id) u (has-with_link a b.id),
        has-with_link a b.id,
        has-with_link b a.id,
      )
