-- ===== src/Actor/Message/Laws.antt =====
-- One message of src/actor.rs: what the supervisor and the monitor hear of the way it ends.
use lane_switchboards.Base.{
  nat_eq, ℕ, String, ◌≡◌, refl, inl, inr, ◌⊎◌, Option, none, some, Option-cases, ◌≤◌, millis_u64,
}
use lane_switchboards.Config.{ActorConfig}
use lane_switchboards.Actor.Types.{ActorId, ExitReason}
use lane_switchboards.Actor.World.{World, notify_supervisor}
use lane_switchboards.Actor.Message.{
  DynActor, Called, returned, unwound, Way, goes_on, exits, unwinds, HandleStuckContext,
  after_stuck, on_stuck, Outcome, done, failed, panicked, Reply, on_outcome, timed, begun,
  handle_message,
}
use lane_switchboards.Monitor.{begin_handle, record_timeout, Cells}
use lane_switchboards.Monitor.Laws.{Settle, finished, errored, timed_out, settle}

module _ (d : DynActor) where
  open d use {Msg, Obj, on_handle_begin, handle, on_handle_stuck, timeout}

  -- The supervisor of the actor hears of a reason to exit, and of nothing else.
  abbrev pub told : ActorId → Way → World → World
  told id goes_on w = w
  told id (exits reason) w = notify_supervisor id reason w
  told id unwinds w = w

  -- Which way belongs to which end of a handle; a timeout is never before its limit. A handle is not
  -- settled only where `on_handle_begin` panics; where a timeout is followed by no exit,
  -- `on_handle_stuck` has panicked.
  abbrev pub Matches : Msg → Obj → Option Settle → Way → Type 0
  Matches m obj none way = (way ≡ unwinds) × (on_handle_begin m obj ≡ unwound)
  Matches m obj (some (finished elapsed t)) way = way ≡ goes_on
  Matches m obj (some errored) way = (e : String) × (way ≡ exits (ExitReason.error e))
  Matches m obj (some Settle.panicked) way = way ≡ exits (ExitReason.error "panic in handle")
  Matches m obj (some (timed_out elapsed)) way =
      (limit : ℕ) × (limit ≤ elapsed)
      × ((way ≡ exits (ExitReason.handle_timeout (millis_u64 elapsed) (millis_u64 limit)))
          ⊎ ((way ≡ unwinds)
              × (o : Obj) × (ctx : HandleStuckContext) × (on_handle_stuck ctx o ≡ unwound)))

  abbrev pub settle_if : ActorId → Option Settle → Cells → Cells
  settle_if id none cells = cells
  settle_if id (some s) cells = settle id s cells

  -- What one message leaves behind.
  abbrev Accounted : ActorId → Msg → Obj → World → Reply d → Type 0
  Accounted id m obj w r =
      (s : Option Settle) × Matches m obj s r.2
      × (r.1 ≡ told id r.2 (record w { cells = settle_if id s (begin_handle id w.cells) }))

  on_outcome-Accounted :
      (id : ActorId) (config : ActorConfig) (m : Msg) (first : Obj) (o : Outcome) (obj : Obj)
      (elapsed : ℕ) (w : World)
      → Accounted id m first w
          (on_outcome d id config o obj elapsed (record w { cells = begin_handle id w.cells }))
  unfolding on_outcome
  on_outcome-Accounted id config m first done obj elapsed w =
      (some (finished elapsed _), refl, refl)
  on_outcome-Accounted id config m first (failed e) obj elapsed w = (some errored, (e, refl), refl)
  on_outcome-Accounted id config m first panicked obj elapsed w = (some Settle.panicked, refl, refl)

  after_stuck-Accounted :
      (id : ActorId) (m : Msg) (first : Obj) (ctx : HandleStuckContext) (limit elapsed : ℕ)
      (o : Obj) (w : World) (c : Called Obj)
      → limit ≤ elapsed
      → on_handle_stuck ctx o ≡ c
      → Accounted id m first w (
          after_stuck d id
            (ExitReason.handle_timeout (millis_u64 elapsed) (millis_u64 limit))
            o
            (record w { cells = record_timeout id elapsed (begin_handle id w.cells) })
            c)
  unfolding after_stuck
  after_stuck-Accounted id m first ctx limit elapsed o w (returned obj e) l q =
      (some (timed_out elapsed), (limit, l, inl refl), refl)
  after_stuck-Accounted id m first ctx limit elapsed o w unwound l q =
      (some (timed_out elapsed), (limit, l, inr (refl, o, ctx, q)), refl)

  timed-Accounted :
      (limit : Option ℕ) (id : ActorId) (config : ActorConfig) (m : Msg) (first obj : Obj)
      (w : World)
      → Accounted id m first w
          (timed d limit id config m obj (record w { cells = begin_handle id w.cells }))
  unfolding timed on_stuck
  timed-Accounted none id config m first obj w = on_outcome-Accounted id config m first _ _ _ w
  timed-Accounted (some limit) id config m first obj w = elim (Option-cases (timeout limit m obj)) [
    | inl e ↦ rw (e, timed) (on_outcome-Accounted id config m first _ _ _ w)
    | inr (s, e) ↦
        rw (e, timed)
          (after_stuck-Accounted id m first _ limit s.elapsed s.obj w _
            (d.timeout_waits limit m obj s e) refl)
  ]

  begun-Accounted :
      (c : Called Obj) (id : ActorId) (config : ActorConfig) (m : Msg) (obj : Obj) (w : World)
      → on_handle_begin m obj ≡ c
      → Accounted id m obj w
          (begun d c id config m obj (record w { cells = begin_handle id w.cells }))
  unfolding begun
  begun-Accounted (returned o none) id config m obj w q =
      timed-Accounted config.handle_timeout id config m obj o w
  begun-Accounted (returned o (some e)) id config m obj w q = (some errored, (e, refl), refl)
  begun-Accounted unwound id config m obj w q = (none, (refl, q), refl)

  -- Whatever a message does to an actor, its callbacks' panics included, as long as each call ends:
  -- the monitor settles the handle that it began in exactly one of the four ways, but where
  -- `on_handle_begin` panics, and then in none, and the task unwinds. The way that it is settled is
  -- the one that belongs to the reason of the exit; a timeout is not before its limit, and ends in
  -- an exit unless `on_handle_stuck` panics, and then the task unwinds. The supervisor is told if
  -- and only if the message makes the actor exit, and with that reason; where the task unwinds it
  -- is not told. Nothing else of the shared state changes.
  pub handle_message-accounted :
      (id : ActorId) (config : ActorConfig) (m : Msg) (obj : Obj) (w : World)
      → let r = handle_message d id config m obj w in
        (s : Option Settle) × Matches m obj s r.2
        × (r.1 ≡ told id r.2 (record w { cells = settle_if id s (begin_handle id w.cells) }))
  unfolding handle_message
  handle_message-accounted id config m obj w = begun-Accounted _ id config m obj w refl
