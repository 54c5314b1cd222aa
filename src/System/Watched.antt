-- ===== src/System/Watched.antt =====
-- What the processes of src/actor.rs and src/supervisor.rs know of a child: it is never forgotten.
use lane_switchboards.Base.{
  nat_eq, ℕ, ◌≡◌, refl, sym, ◌⊎◌, ◌≢◌, inl, inr, Bool, true, some, List, [], ◌∷◌, ◌++◌, arith, any,
  ◌==◌, ==_iff, Bool-cases, Option-cases, lookup, insert, lookup-insert, lookup-insert_self,
  lookup-insert_ne, lookup-remove_ne, false,
}
use lane_switchboards.Actor.Types.{ActorId, ExitReason, dead, RestartSignal}
use lane_switchboards.Actor.World.{World, notify_supervisor, push_to}
use lane_switchboards.Actor.Spawn.{spawned}
use lane_switchboards.Actor.Run.{retire}
use lane_switchboards.Registry.{ActorEntry, get_supervisor_sender, unregister_actor}

abbrev pub names_child : ActorId → List RestartSignal → Bool
names_child id queue = any (λ s. s.child_id == id) queue

-- What became of a child: its slot is marked dead; it is registered, with the supervisor's channel;
-- a signal for it waits in that channel; or it ended without a word to the supervisor.
pub data Watched (channel : ℕ) (w : World) (silent : List ActorId) (id : ActorId) : Type 0 where
  buried : id ≡ dead → Watched channel w silent id
  registered :
      (e : ActorEntry)
      → lookup id w.actors ≡ some e
      → e.supervisor ≡ some channel
      → Watched channel w silent id
  reported :
      (queue : List RestartSignal)
      → lookup channel w.signals ≡ some queue
      → names_child id queue ≡ true
      → Watched channel w silent id
  ended_silently : any (λ i. i == id) silent ≡ true → Watched channel w silent id

-- The same, where a child that is registered is not one of those that ended without a word.
abbrev pub IsKnown : ℕ → World → List ActorId → ActorId → Type 0
IsKnown channel w silent id =
    (id ≡ dead)
    ⊎ ((e : ActorEntry) × (lookup id w.actors ≡ some e)
        × (e.supervisor ≡ some channel)
        × (any (λ i. i == id) silent ≡ false))
    ⊎ ((queue : List RestartSignal) × (lookup channel w.signals ≡ some queue)
        × (names_child id queue ≡ true))
    ⊎ (any (λ i. i == id) silent ≡ true)

pub Watched-IsKnown :
    (channel : ℕ) (w : World) (silent : List ActorId) (id : ActorId)
    → Watched channel w silent id
    → IsKnown channel w silent id
Watched-IsKnown channel w silent id (buried z) = inl z
Watched-IsKnown channel w silent id (registered e f g) =
    elim (Bool-cases (any (λ i. i == id) silent)) [
      | inl t ↦ inr (inr (inr t))
      | inr t ↦ inr (inl (e, f, g, t))
    ]
Watched-IsKnown channel w silent id (reported queue f g) = inr (inr (inl (queue, f, g)))
Watched-IsKnown channel w silent id (ended_silently f) = inr (inr (inr f))

-- The part of the shared state that the supervision rests on.
pub record Same (w v : World) : Type 0 where
  pub actors : v.actors ≡ w.actors
  pub signals : v.signals ≡ w.signals
  pub counter : v.counter ≡ w.counter

module _ (channel : ℕ) where
  pub Watched-Same :
      (w v : World) (silent : List ActorId) (id : ActorId)
      → Same w v
      → Watched channel w silent id
      → Watched channel v silent id
  Watched-Same w v silent id q (buried z) = buried z
  Watched-Same w v silent id q (registered e f g) = registered e (cc (q.actors)) g
  Watched-Same w v silent id q (reported queue f g) = reported queue (cc (q.signals)) g
  Watched-Same w v silent id q (ended_silently f) = ended_silently f

  -- A new actor, and what a spawn leaves of the others.
  pub spawn-Watched :
      (w : World) (silent : List ActorId)
      → Watched channel (spawned (some channel) w).1 silent (spawned (some channel) w).0
  unfolding spawned
  spawn-Watched w silent =
      registered (record { control = w.counter; supervisor = some channel })
        (lookup-insert_self w.counter _ w.actors) refl

  pub spawn-keeps :
      (w : World) (silent : List ActorId) (id : ActorId)
      → Watched channel w silent id
      → Watched channel (spawned (some channel) w).1 silent id
  unfolding spawned
  spawn-keeps w silent id (buried z) = buried z
  spawn-keeps w silent id (registered e f g) = elim (Bool-cases (w.counter == id)) [
    | inl t ↦
        registered (record { control = w.counter; supervisor = some channel })
          (rw (lookup-insert, t) refl) refl
    | inr t ↦ registered e (rw (lookup-insert, t) f) g
  ]
  spawn-keeps w silent id (reported queue f g) = reported queue f g
  spawn-keeps w silent id (ended_silently f) = ended_silently f

  any-append :
      (id : ActorId) (queue : List RestartSignal) (sig : RestartSignal)
      → names_child id queue ≡ true
      → names_child id (queue ++ sig ∷ []) ≡ true
  any-append id [] sig h = cc
  any-append id (s ∷ queue) sig h = ground (arith, any-append id queue sig)

  any-last :
      (queue : List RestartSignal) (sig : RestartSignal)
      → names_child sig.child_id (queue ++ sig ∷ []) ≡ true
  any-last [] sig = ground (arith, ==_iff sig.child_id sig.child_id)
  any-last (s ∷ queue) sig = ground (arith, any-last queue sig)

  -- The supervisor's channel is there, with a queue.
  abbrev pub IsListening : World → Type 0
  IsListening w = (queue : List RestartSignal) × (lookup channel w.signals ≡ some queue)

  push_to_other :
      (ch : ℕ) (sig : RestartSignal) (w : World)
      → ch ≢ channel
      → lookup channel (push_to ch sig w.signals) ≡ lookup channel w.signals
  unfolding push_to
  push_to_other ch sig w n = elim (Option-cases (lookup ch w.signals)) [
    | inl t ↦ rw (t, push_to) refl
    | inr (q, t) ↦ rw (t, push_to) (lookup-insert_ne ch channel (q ++ sig ∷ []) w.signals n)
  ]

  push_to_self :
      (sig : RestartSignal) (w : World) (queue : List RestartSignal)
      → lookup channel w.signals ≡ some queue
      → lookup channel (push_to channel sig w.signals) ≡ some (queue ++ sig ∷ [])
  unfolding push_to
  push_to_self sig w queue h =
      rw (h, push_to) (lookup-insert_self channel (queue ++ sig ∷ []) w.signals)

  -- A signal is put behind those of the queue, or the queue stays as it was.
  notify-queue :
      (id : ActorId) (reason : ExitReason) (w : World) (queue : List RestartSignal)
      → lookup channel w.signals ≡ some queue
      → let sig : RestartSignal = record { child_id = id; reason = reason } in
        let after = lookup channel (notify_supervisor id reason w).signals in
        (after ≡ some queue) ⊎ (after ≡ some (queue ++ sig ∷ []))
  unfolding notify_supervisor
  notify-queue id reason w queue h =
      let sig : RestartSignal = record { child_id = id; reason = reason } in
      elim (Option-cases (get_supervisor_sender id w.actors)) [
        | inl t ↦ inl (rw (t, notify_supervisor) h)
        | inr (ch, t) ↦ elim (Bool-cases (ch == channel)) [
          | inl same ↦ inr (
              rw (t, notify_supervisor)
                (ground (arith, ==_iff ch channel, push_to_self sig w queue h)))
          | inr other ↦ inl (
              rw (t, notify_supervisor)
                (ground (arith, h, ==_iff ch channel, push_to_other ch sig w)))
        ]
      ]

  pub notify-IsListening :
      (id : ActorId) (reason : ExitReason) (w : World)
      → IsListening w
      → IsListening (notify_supervisor id reason w)
  notify-IsListening id reason w (queue, h) = elim (notify-queue id reason w queue h) [
    | inl q ↦ (queue, q)
    | inr q ↦ (queue ++ record { child_id = id; reason = reason } ∷ [], q)
  ]

  -- The supervisor is told of an actor that is registered with it.
  notify-reports :
      (id : ActorId) (reason : ExitReason) (w : World) (e : ActorEntry)
      → lookup id w.actors ≡ some e
      → e.supervisor ≡ some channel
      → IsListening w
      → (queue : List RestartSignal) × (lookup channel (notify_supervisor id reason w).signals
          ≡ some queue)
        × (names_child id queue ≡ true)
  unfolding notify_supervisor get_supervisor_sender
  notify-reports id reason w e f g (queue, h) =
      let sig : RestartSignal = record { child_id = id; reason = reason } in
      (
        queue ++ sig ∷ [],
        rw (f, g, notify_supervisor, get_supervisor_sender) (push_to_self sig w queue h),
        any-last queue sig,
      )

  actors-notify :
      (id : ActorId) (reason : ExitReason) (w : World)
      → (notify_supervisor id reason w).actors ≡ w.actors
  unfolding notify_supervisor
  actors-notify id reason w = ground arith

  pub counter-notify :
      (id : ActorId) (reason : ExitReason) (w : World)
      → (notify_supervisor id reason w).counter ≡ w.counter
  unfolding notify_supervisor
  counter-notify id reason w = ground arith

  -- An actor that tells its supervisor of its exit and stays registered.
  pub told-Watched :
      (id j : ℕ) (reason : ExitReason) (w v : World) (silent : List ActorId)
      → IsListening w
      → Same (notify_supervisor id reason w) v
      → Watched channel w silent j
      → Watched channel v silent j
  told-Watched id j reason w v silent l q (buried z) = buried z
  told-Watched id j reason w v silent l q (registered e f g) =
      registered e (cc (q.actors, actors-notify id reason w, f)) g
  told-Watched id j reason w v silent l q (reported queue f g) =
      elim (notify-queue id reason w queue f) [
        | inl r ↦ reported queue (cc (q.signals, r)) g
        | inr r ↦
            let sig : RestartSignal = record { child_id = id; reason = reason } in
            reported (queue ++ sig ∷ []) (cc (q.signals, r)) (any-append j queue sig g)
      ]
  told-Watched id j reason w v silent l q (ended_silently f) = ended_silently f

  -- An actor that tells its supervisor of its exit and is then gone.
  pub notify-Watched :
      (id j control : ℕ) (reason : ExitReason) (w v : World) (silent : List ActorId)
      → IsListening w
      → Same (notify_supervisor id reason w) v
      → Watched channel w silent j
      → Watched channel (retire id control v) silent j
  unfolding retire unregister_actor
  notify-Watched id j control reason w v silent l q (buried z) = buried z
  notify-Watched id j control reason w v silent l q (registered e f g) =
      elim (Bool-cases (id == j)) [
        | inl t ↦
            let same : id ≡ j = (==_iff id j).0 t in
            let (queue, r, n) = notify-reports id reason w e (rw same f) g l in
            reported queue (cc (q.signals, r)) (rw (sym same) n)
        | inr t ↦
            registered e
              (ground (
                arith,
                q.actors,
                actors-notify id reason w,
                f,
                ==_iff id j,
                lookup-remove_ne id j v.actors,
              ))
              g
      ]
  notify-Watched id j control reason w v silent l q (reported queue f g) =
      elim (notify-queue id reason w queue f) [
        | inl r ↦ reported queue (cc (q.signals, r)) g
        | inr r ↦
            let sig : RestartSignal = record { child_id = id; reason = reason } in
            reported (queue ++ sig ∷ []) (cc (q.signals, r)) (any-append j queue sig g)
      ]
  notify-Watched id j control reason w v silent l q (ended_silently f) = ended_silently f

  -- One that is gone without a word.
  pub retire-Watched :
      (id j control : ℕ) (w v : World) (silent : List ActorId)
      → Same w v
      → Watched channel w silent j
      → Watched channel (retire id control v) (id ∷ silent) j
  unfolding retire unregister_actor
  retire-Watched id j control w v silent q (buried z) = buried z
  retire-Watched id j control w v silent q (registered e f g) = elim (Bool-cases (id == j)) [
    | inl t ↦ ended_silently (rw t refl)
    | inr t ↦ registered e (ground (arith, q.actors, ==_iff id j, lookup-remove_ne id j v.actors)) g
  ]
  retire-Watched id j control w v silent q (reported queue f g) = reported queue (cc (q.signals)) g
  retire-Watched id j control w v silent q (ended_silently f) = ended_silently (ground arith)

  -- One that is gone without a word and stays registered.
  pub silent-Watched :
      (id j : ℕ) (w v : World) (silent : List ActorId)
      → Same w v
      → Watched channel w silent j
      → Watched channel v (id ∷ silent) j
  silent-Watched id j w v silent q (buried z) = buried z
  silent-Watched id j w v silent q (registered e f g) = registered e (cc (q.actors, f)) g
  silent-Watched id j w v silent q (reported queue f g) = reported queue (cc (q.signals, f)) g
  silent-Watched id j w v silent q (ended_silently f) = ended_silently (ground arith)

  -- The signal at the head of the queue is taken; every other child is as it was.
  pub take-Watched :
      (sig : RestartSignal) (queue : List RestartSignal) (w : World) (silent : List ActorId)
      (id : ActorId)
      → lookup channel w.signals ≡ some (sig ∷ queue)
      → id ≢ sig.child_id
      → Watched channel w silent id
      → Watched channel (record w { signals = insert channel queue w.signals }) silent id
  take-Watched sig queue w silent id l n (buried z) = buried z
  take-Watched sig queue w silent id l n (registered e f g) = registered e f g
  take-Watched sig queue w silent id l n (reported queue' f g) =
      reported queue (lookup-insert_self channel queue w.signals)
        (ground (arith, l, f, ==_iff sig.child_id id))
  take-Watched sig queue w silent id l n (ended_silently f) = ended_silently f
