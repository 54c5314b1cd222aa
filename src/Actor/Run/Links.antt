-- ===== src/Actor/Run/Links.antt =====
-- Links of src/actor.rs: who hears of an exit, and how a link comes to be held on both sides.
use mathlib.Core.Path.{subst}
use lane_switchboards.Base.{
  nat_eq, ℕ, ◌≡◌, ◌∙◌, ◌≢◌, inl, inr, Bool, false, some, List, [], ◌∷◌, ◌++◌, arith, if◌then◌else◌,
  Bool-cases, Option-cases, ◌==◌, ==_iff, any, Map, lookup, lookup-insert_self, lookup-insert_ne,
  refl, ◌&&◌, lookup-remove_ne, ◌||◌, true,
}
use lane_switchboards.Registry.{ActorEntry, get_control_sender}
use lane_switchboards.Actor.Types.{ActorId, ExitReason, ControlMsg, linked_exit}
use lane_switchboards.Actor.World.{World, push_to, send_control, propagate_linked_exit}
use lane_switchboards.Actor.Message.{DynActor, Called, returned, unwound}
use lane_switchboards.Actor.Run.{
  Running, notify_monitors, retire, propagate, finish_actor, should_propagate_linked_exit, abandon,
  after_post_stop,
}

-- As `spawn_on_runtime` registers them: an actor's control channel has the actor's number.
abbrev pub IsWired : World → Type 0
IsWired w = (j : ActorId) (e : ActorEntry) → lookup j w.actors ≡ some e → e.control ≡ j

abbrev pub has : ActorId → List ActorId → Bool
has peer = any (λ l. l == peer)

-- A set holds nothing twice.
abbrev pub IsLinkSet : List ActorId → Type 0
IsLinkSet [] = Unit {0}
IsLinkSet (l ∷ links) = (has l links ≡ false) × IsLinkSet links

module _ {ℓ} {A : Type ℓ} where
  lookup-push_to :
      (ch : ℕ) (a : A) (queues : Map ℕ (List A)) {q : List A}
      → lookup ch queues ≡ some q
      → lookup ch (push_to ch a queues) ≡ some (q ++ a ∷ [])
  unfolding push_to
  lookup-push_to ch a queues {q} h = rw (h, push_to) (lookup-insert_self ch (q ++ a ∷ []) queues)

  lookup-push_to_ne :
      (ch j : ℕ) (a : A) (queues : Map ℕ (List A))
      → ch ≢ j
      → lookup j (push_to ch a queues) ≡ lookup j queues
  unfolding push_to
  lookup-push_to_ne ch j a queues h = elim (Option-cases (lookup ch queues)) [
    | inl e ↦ rw (e, push_to)
    | inr (q, e) ↦ rw (e, push_to) (lookup-insert_ne ch j (q ++ a ∷ []) queues h)
  ]

-- A message to a registered peer is at the end of that peer's queue.
pub send_control-arrives :
    (peer : ActorId) (m : ControlMsg) (w : World) {e : ActorEntry} {q : List ControlMsg}
    → IsWired w
    → lookup peer w.actors ≡ some e
    → lookup peer w.controls ≡ some q
    → lookup peer (send_control peer m w).controls ≡ some (q ++ m ∷ [])
unfolding send_control get_control_sender
send_control-arrives peer m w {e} wired h hq =
    rw (h, send_control, wired peer e h) (lookup-push_to peer m w.controls hq)

-- and no other queue has changed.
pub send_control_ne :
    (peer j : ActorId) (m : ControlMsg) (w : World)
    → IsWired w
    → peer ≢ j
    → lookup j (send_control peer m w).controls ≡ lookup j w.controls
unfolding send_control get_control_sender
send_control_ne peer j m w wired h = elim (Option-cases (lookup peer w.actors)) [
  | inl e ↦ rw (e, send_control)
  | inr (e, found) ↦
      rw (found, send_control, wired peer e found) (lookup-push_to_ne peer j m w.controls h)
]

pub actors-send_control :
    (peer : ActorId) (m : ControlMsg) (w : World) → (send_control peer m w).actors ≡ w.actors
unfolding send_control
actors-send_control peer m w = ground arith

pub send_control-IsWired :
    (peer : ActorId) (m : ControlMsg) (w : World) → IsWired w → IsWired (send_control peer m w)
send_control-IsWired peer m w wired j e h = wired j e (rw actors-send_control at h)

propagate-hears :
    (id : ActorId) (reason : ExitReason) (links : List ActorId) (w : World) (peer : ActorId)
    {e : ActorEntry} {q : List ControlMsg}
    → IsWired w
    → IsLinkSet links
    → lookup peer w.actors ≡ some e
    → lookup peer w.controls ≡ some q
    → lookup peer (propagate_linked_exit id reason links w).controls
      ≡ some (if has peer links then q ++ linked_exit id reason ∷ [] else q)
unfolding propagate_linked_exit
propagate-hears id reason [] w peer wired once h hq = hq
propagate-hears id reason (l ∷ links) w peer {e} {q} wired once h hq =
    let m = linked_exit id reason in
    let w' = send_control l m w in
    let h' : lookup peer w'.actors ≡ some e = rw actors-send_control h in
    let wired' = send_control-IsWired l m w wired in
    elim (Bool-cases (l == peer)) [
      | inl hit ↦
          let same : l ≡ peer = (==_iff l peer).0 hit in
          let arrives : lookup peer w'.controls ≡ some (q ++ m ∷ []) =
            subst (λ p. lookup p w'.controls ≡ some (q ++ m ∷ [])) same
              (send_control-arrives l m w {e = e} {q = q} wired (rw same h) (rw same hq)) in
          let only : has peer links ≡ false = subst (λ p. has p links ≡ false) same once.0 in
          rw hit (
            propagate-hears id reason links w' peer {e = e} {q = q ++ m ∷ []} wired' once.1 h'
              arrives
            ∙ rw only)
      | inr miss ↦
          let other : l ≢ peer = λ same. ground (arith, ==_iff l peer) in
          rw miss (
            propagate-hears id reason links w' peer {e = e} {q = q} wired' once.1 h'
              (send_control_ne l peer m w wired other ∙ hq))
    ]

-- Whether a callback returned, with an error or without.
abbrev pub ends_well : {Obj : Type 0} → Called Obj → Bool
ends_well unwound = false
ends_well (returned obj e) = true

-- What an actor that leaves its loop puts into the control queues. If its `post_stop` does not
-- panic, and ends, it appends one message to the queue of each peer that it is linked to, where the
-- reason is neither normal nor a shutdown; if its `post_stop` panics, to none. It changes the queue of
-- no other registered peer. The peers are registered as by `spawn_on_runtime` and linked once, and the
-- actor is none of them.
pub finish_actor-links :
    (d : DynActor) (r : Running d.Obj) (reason : ExitReason) (w : World) (peer : ActorId)
    (c : Called d.Obj) {e : ActorEntry} {q : List ControlMsg}
    → d.post_stop r.obj ≡ c
    → IsWired w
    → IsLinkSet r.links
    → r.control ≢ peer
    → lookup peer w.actors ≡ some e
    → lookup peer w.controls ≡ some q
    → lookup peer (finish_actor d r reason w).controls
      ≡ some (
          if ends_well c && (should_propagate_linked_exit reason && has peer r.links)
          then q ++ linked_exit r.id reason ∷ []
          else q)
unfolding finish_actor after_post_stop propagate notify_monitors retire abandon
finish_actor-links d r reason w peer unwound {e} {q} stopped wired once apart h hq =
    rw (stopped, finish_actor, after_post_stop)
      (lookup-remove_ne r.control peer w.controls apart ∙ hq)
finish_actor-links d r reason w peer (returned obj failure) {e} {q} stopped wired once apart h hq =
    rw (stopped, finish_actor, after_post_stop)
      (lookup-remove_ne r.control peer _ apart
        ∙ (elim (Bool-cases (should_propagate_linked_exit reason)) [
          | inl yes_ ↦ rw (yes_) (
              propagate-hears r.id reason r.links (notify_monitors reason r.monitors w) peer {e = e}
                {q = q} wired once h hq)
          | inr no_ ↦ rw no_ hq
        ]))

-- `add_link` keeps the links a set.
pub has-append :
    (peer l : ActorId) (links : List ActorId)
    → has peer (links ++ l ∷ []) ≡ (has peer links || (l == peer))
has-append peer l [] = ground arith
has-append peer l (x ∷ links) = ground (arith, has-append peer l links)

pub append-IsLinkSet :
    (links : List ActorId) (peer : ActorId)
    → IsLinkSet links
    → has peer links ≡ false
    → IsLinkSet (links ++ peer ∷ [])
append-IsLinkSet [] peer once h = (refl, tt)
append-IsLinkSet (l ∷ links) peer once h = (
  ground (arith, has-append l peer links, ==_iff l peer, ==_iff peer l),
  append-IsLinkSet links peer once.1 (ground arith),
)
