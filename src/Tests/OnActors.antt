-- ===== src/Tests/OnActors.antt =====
-- The theorems on actors and the monitor, at concrete inputs.
use lane_switchboards.Base.{
  nat_eq, string_eq, pair_eq, ℕ, ◌+◌, ◌≤◌, ◌≡◌, refl, ◌↔◌, true, ◌&&◌, Option, none, some, [], ◌∷◌,
  ◌++◌, arith, if◌then◌else◌, ◌==◌, ==_iff, lookup, millis_u64,
}
use lane_switchboards.Actor.Types.{ActorId, ControlMsg, Envelope, linked_exit}
use lane_switchboards.Actor.World.{World}
use lane_switchboards.Actor.Message.{handle_message, returned}
use lane_switchboards.Monitor.{StatsCell, begin_handle, finish_cell, timeout_cell, new_cell}
use lane_switchboards.Monitor.Laws.{
  Settle, begin-settle, last-le-max, settle, timed_out, ended, Within,
}
use lane_switchboards.Actor.Message.Laws.{handle_message-accounted, told, Matches, settle_if}
use lane_switchboards.Actor.Run.{
  Running, ctrl, finish_actor, mail, run_actor, should_propagate_linked_exit, stay, step,
}
use lane_switchboards.Actor.Run.Laws.{run_actor-Tidy, Tidy}
use lane_switchboards.Actor.Run.Links.{IsWired, finish_actor-links, has, ends_well}
use lane_switchboards.Actor.Run.Faults.{link_handshake}
use lane_switchboards.Tests.Actors.{
  two_actors, counting_actor, timed_config, running_1, running_2, linked_1, boom, mailed,
}

two_actors-IsWired : IsWired two_actors
unfolding lookup
two_actors-IsWired j e h = ground (arith, ==_iff 1 j, ==_iff 2 j)

new_cell-Within : Within new_cell
new_cell-Within = ground arith

handle_message-accounted_example :
    let r = handle_message counting_actor 1 timed_config 9 3 two_actors in
    (s : Option Settle) × Matches counting_actor 9 3 s r.2
    × (r.1
        ≡ told counting_actor 1 r.2 (record two_actors {
          cells = settle_if counting_actor 1 s (begin_handle 1 two_actors.cells);
        }))
handle_message-accounted_example =
    handle_message-accounted counting_actor 1 timed_config 9 3 two_actors

run_actor-Tidy_example :
    Tidy counting_actor 1 1 two_actors
      (run_actor counting_actor 1 1 timed_config 0 mailed two_actors)
run_actor-Tidy_example = run_actor-Tidy counting_actor 1 1 timed_config 0 mailed two_actors

finish_actor-links_example :
    lookup 2 (finish_actor counting_actor linked_1 boom two_actors).controls
    ≡ some (
        if ends_well (returned linked_1.obj none)
          && (should_propagate_linked_exit boom && has 2 linked_1.links)
        then [] ++ linked_exit linked_1.id boom ∷ []
        else [])
unfolding lookup
finish_actor-links_example =
    finish_actor-links counting_actor linked_1 boom two_actors 2 (returned linked_1.obj none) refl
      two_actors-IsWired (refl, tt) (ground arith) refl refl

link_handshake_example :
    (a' b' : Running ℕ) × (v u : World) × (step counting_actor
        (mail (Envelope.link running_2.id))
        running_1
        two_actors
      ≡ stay a' v)
    × (lookup running_2.id v.controls ≡ some ([] ++ ControlMsg.link running_1.id ∷ []))
    × (step counting_actor (ctrl (ControlMsg.link running_1.id)) running_2 v ≡ stay b' u)
    × (lookup running_1.id u.controls ≡ some ([] ++ ControlMsg.link running_2.id ∷ []))
    × (step counting_actor (ctrl (ControlMsg.link running_2.id)) a' u ≡ stay a' u)
    × (has running_2.id a'.links ≡ true)
    × (has running_1.id b'.links ≡ true)
unfolding lookup
link_handshake_example =
    link_handshake counting_actor running_1 running_2 two_actors two_actors-IsWired (ground arith)
      refl refl refl refl refl refl

begin-settle_example :
    let after = settle 1 (timed_out 2000000) (begin_handle 1 two_actors.cells) in
    ((d : StatsCell) × (lookup 1 after ≡ some d)
      × (d.in_flight ≡ new_cell.in_flight)
      × (ended d ≡ ended new_cell + 1))
    × ((j : ActorId)
        → lookup j after ≡ (if 1 == j then lookup 1 after else lookup j two_actors.cells))
unfolding lookup
begin-settle_example =
    begin-settle 1 (timed_out 2000000) two_actors.cells new_cell refl new_cell-Within

last-le-max_example :
    ((finish_cell 2000000 (some 1) new_cell).last_handle_ms
      ≤ (finish_cell 2000000 (some 1) new_cell).max_handle_ms)
    × (((timeout_cell 2000000 new_cell).last_handle_ms
          ≤ (timeout_cell 2000000 new_cell).max_handle_ms)
        ↔ (millis_u64 2000000 ≤ new_cell.max_handle_ms))
last-le-max_example = last-le-max 2000000 (some 1) new_cell
