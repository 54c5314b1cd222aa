-- ===== src/Actor/Message.antt =====
-- src/actor.rs: the trait that an actor implements, as an interface with what the runtime reports
-- of a call, and `handle_message`.
pub mod Laws
use lane_switchboards.Base.{nat_eq, ℕ, ◌≤◌, String, ◌≡◌, Bool, Option, none, some, millis_u64}
use lane_switchboards.Config.{ActorConfig, effective_slow_threshold}
use lane_switchboards.Actor.Types.{ActorId, ExitReason, error, handle_timeout}
use lane_switchboards.Actor.World.{World, notify_supervisor}
use lane_switchboards.Monitor.{
  begin_handle, finish_handle, record_error, record_panic, record_timeout,
}

-- How a call of `handle` ends, under `catch_unwind`.
pub data Outcome : Type 0 where
  done : Outcome
  failed : String → Outcome
  panicked : Outcome

-- The implementation after a call, and `started.elapsed()` when it is read.
pub record Handled (Obj : Type 0) : Type 0 where
  pub obj : Obj
  pub outcome : Outcome
  pub elapsed : ℕ

-- `HandleStuckContext`.
pub record HandleStuckContext : Type 0 where
  pub actor_id : ActorId
  pub elapsed : ℕ
  pub limit : ℕ

-- An implementation left in the middle of a call by `tokio::time::timeout`.
pub record Stuck (Obj : Type 0) : Type 0 where
  pub obj : Obj
  pub elapsed : ℕ

-- How a callback other than `handle` ends: it gives the implementation after it, and the text of its
-- error, if it fails; or it panics, which no `catch_unwind` stops, and its task ends there and then.
pub data Called (Obj : Type 0) : Type 0 where
  returned : Obj → Option String → Called Obj
  unwound : Called Obj

-- What `handle_message` comes to: the loop goes on; it is left with a reason; the task unwinds.
pub data Way : Type 0 where
  goes_on : Way
  exits : ExitReason → Way
  unwinds : Way

-- `DynActor<M>`: the values of `Obj` are the boxed implementations. A callback ends in
-- the ways above; one that never ends is a turn of its task that is never over, and not among these.
-- `trap_exit`, which is not async, returns. `timeout` is the verdict of
-- `tokio::time::timeout` on a call of `handle`: it does not fire before its limit.
pub record DynActor : Type 1 where
  pub Msg : Type 0
  pub Obj : Type 0
  pub pre_start : Obj → Called Obj
  pub on_upgrade : ℕ → Obj → Called Obj
  pub on_handle_begin : Msg → Obj → Called Obj
  pub handle : Msg → Obj → Handled Obj
  pub on_handle_stuck : HandleStuckContext → Obj → Called Obj
  pub post_stop : Obj → Called Obj
  pub trap_exit : Obj → Bool
  pub timeout : ℕ → Msg → Obj → Option (Stuck Obj)
  pub timeout_waits :
      (limit : ℕ) (m : Msg) (o : Obj) (s : Stuck Obj)
      → timeout limit m o ≡ some s
      → limit ≤ s.elapsed

module _ (d : DynActor) where
  open d use {Msg, Obj, on_handle_begin, handle, on_handle_stuck, timeout}

  -- The implementation, the shared state, and what becomes of the loop.
  abbrev pub Reply : Type 0
  Reply = Obj × World × Way

  unfoldable pub give_up : ActorId → ExitReason → Obj → World → Reply
  give_up id reason obj w = (obj, notify_supervisor id reason w, exits reason)

  -- An error of `on_handle_stuck` is only logged.
  unfoldable pub after_stuck : ActorId → ExitReason → Obj → World → Called Obj → Reply
  unfolding give_up
  after_stuck id reason o w (returned obj e) = give_up id reason obj w
  after_stuck id reason o w unwound = (o, w, unwinds)

  unfoldable pub on_stuck : ActorId → ℕ → Stuck Obj → World → Reply
  unfolding after_stuck
  on_stuck id limit s w =
      let ctx : HandleStuckContext = record { actor_id = id; elapsed = s.elapsed; limit = limit } in
      let reason = handle_timeout (millis_u64 s.elapsed) (millis_u64 limit) in
      after_stuck id reason s.obj (record w { cells = record_timeout id s.elapsed w.cells })
        (on_handle_stuck ctx s.obj)

  unfoldable pub on_outcome : ActorId → ActorConfig → Outcome → Obj → ℕ → World → Reply
  unfolding give_up
  on_outcome id config done obj elapsed w = (
    obj,
    record w { cells = finish_handle id elapsed (effective_slow_threshold config) w.cells },
    goes_on,
  )
  on_outcome id config (failed e) obj elapsed w =
      give_up id (error e) obj (record w { cells = record_error id w.cells })
  on_outcome id config panicked obj elapsed w =
      give_up id (error "panic in handle") obj (record w { cells = record_panic id w.cells })

  unfoldable pub run_handle : ActorId → ActorConfig → Msg → Obj → World → Reply
  unfolding on_outcome
  run_handle id config m obj w =
      let h = handle m obj in on_outcome id config h.outcome h.obj h.elapsed w

  -- `if let Some(limit) = config.handle_timeout`.
  unfoldable pub timed : Option ℕ → ActorId → ActorConfig → Msg → Obj → World → Reply
  unfolding run_handle on_stuck
  timed none id config m obj w = run_handle id config m obj w
  timed (some limit) id config m obj w = elim (timeout limit m obj) [
    | none ↦ run_handle id config m obj w
    | some s ↦ on_stuck id limit s w
  ]

  unfoldable pub begun : Called Obj → ActorId → ActorConfig → Msg → Obj → World → Reply
  unfolding timed give_up
  begun unwound id config m o w = (o, w, unwinds)
  begun (returned obj (some e)) id config m o w =
      give_up id (error e) obj (record w { cells = record_error id w.cells })
  begun (returned obj none) id config m o w = timed config.handle_timeout id config m obj w

  unfoldable pub handle_message : ActorId → ActorConfig → Msg → Obj → World → Reply
  unfolding begun
  handle_message id config m obj w =
      begun (on_handle_begin m obj) id config m obj (record w { cells = begin_handle id w.cells })
