-- ===== src/Actor/Run/Ending.antt =====
-- The loop of src/actor.rs ends when it is told to, whatever it was sent before.
use lane_switchboards.Base.{nat_eq, Option, none, some}
use lane_switchboards.Actor.Types.{ExitReason, shutdown, killed, normal, stop, kill}
use lane_switchboards.Actor.World.{World}
use lane_switchboards.Actor.Message.{DynActor}
use lane_switchboards.Actor.Run.{Input, mail, closed, Status, waiting}

module _ (d : DynActor) where
  open d use {Msg, Obj}

  -- The reason for which an input ends the loop at once.
  abbrev pub final_reason : Input Msg Obj → Option ExitReason
  final_reason (mail stop) = some shutdown
  final_reason (mail kill) = some killed
  final_reason closed = some normal
  final_reason _ = none

  abbrev pub HasEnded : Status Obj → Type 0
  HasEnded (waiting r w) = ⊥
  HasEnded _ = Unit {0}
