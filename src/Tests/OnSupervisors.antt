-- ===== src/Tests/OnSupervisors.antt =====
-- The theorems on supervision, at concrete inputs.
use lane_switchboards.Base.{
  nat_eq, string_eq, pair_eq, String, ◌≡◌, refl, none, some, List, [], ◌∷◌, ◌++◌, arith, ltb,
  if◌then◌else◌, ==_iff, length, from_secs,
}
use lane_switchboards.Config.{default_actor_config}
use lane_switchboards.Cluster.{returns}
use lane_switchboards.Supervisor.{
  ChildSpec, Tree, default_supervisor_config, ended, exceeded, insert_slot, note_signal, on_signal,
  one_for_all, one_for_one, prune, rest_for_one, restart_by, run_supervisor, running, set_id,
  shutdown, signal, sort_slots,
}
use lane_switchboards.Supervisor.Runs.{OnPhase}
use lane_switchboards.Supervisor.Strategy.{restart_by-env, stale_signal, chosen, spawn_each}
use lane_switchboards.Supervisor.Start.{begin_task, prepend, spawn_next, spawn_pass, start_settled}
use lane_switchboards.Supervisor.Children.{Shared, named_spawner}
use lane_switchboards.Supervisor.Names.{IsDistinct, names}
use lane_switchboards.Supervisor.Coherence.{supervisor-coherent, PhaseCoherent}
use lane_switchboards.Supervisor.Intensity.{on_signal-window, recent}
use lane_switchboards.Supervisor.Tracked.{supervisor-names, IsCurrent}
use lane_switchboards.Tests.Supervisors.{started_tree, next_id, numbering, two_children}
use lane_switchboards.Tests.Actors.{two_actors}

abbrev named_children : List (ChildSpec String)
named_children =
    record { id = 21; order = 2; factory = "cache" }
    ∷ record { id = 22; order = 1; factory = "db" }
    ∷ []

abbrev shared : Shared String
shared = record {
  world = two_actors;
  registry = record { refs = []; generations = [] };
  slot = none;
}

named_children-IsDistinct : IsDistinct (names named_children)
named_children-IsDistinct = ((λ q. ground (arith, ==_iff {K = String} "cache" "db"), tt), (tt, tt))

supervisor-coherent_example : PhaseCoherent numbering (
    run_supervisor numbering default_supervisor_config
      (signal 11 5 ∷ signal 12 6 ∷ [])
      started_tree)
unfolding start_settled sort_slots insert_slot spawn_pass spawn_next begin_task prepend set_id
    next_id
supervisor-coherent_example =
    supervisor-coherent numbering default_supervisor_config default_actor_config two_children 10 12
      started_tree (signal 11 5 ∷ signal 12 6 ∷ []) refl

restart_by-env_example :
    (restart_by numbering rest_for_one 12 started_tree).env
    ≡ spawn_each numbering (chosen numbering rest_for_one 12 started_tree.slots) started_tree.env
restart_by-env_example = restart_by-env numbering rest_for_one 12 started_tree refl

stale_signal_example :
    ((restart_by numbering one_for_one 99 started_tree).env ≡ started_tree.env)
    × ((restart_by numbering one_for_all 99 started_tree).env
        ≡ spawn_each numbering started_tree.slots started_tree.env)
    × ((restart_by numbering rest_for_one 99 started_tree).env
        ≡ spawn_each numbering started_tree.slots started_tree.env)
stale_signal_example = stale_signal numbering 99 started_tree refl refl

on_signal-window_example :
    let window =
      recent 17000000000 default_supervisor_config.within_secs
        ((11000000000 ∷ []) ++ 17000000000 ∷ []) in
    let t' = record (record started_tree { restart_log = 11000000000 ∷ [] }) {
      restart_log = window;
    } in
    on_signal numbering default_supervisor_config 11 17000000000
      (record started_tree { restart_log = 11000000000 ∷ [] })
    ≡ (if ltb 17000000000 (from_secs default_supervisor_config.within_secs)
        then ended (record started_tree { restart_log = 11000000000 ∷ [] })
        else if ltb default_supervisor_config.max_restarts (length window)
        then exceeded numbering default_supervisor_config.intensity_action 11 t'
        else running (restart_by numbering default_supervisor_config.strategy 11 t'))
unfolding note_signal prune
on_signal-window_example =
    on_signal-window numbering default_supervisor_config 11 17000000000 (11000000000 ∷ [])
      (record started_tree { restart_log = 11000000000 ∷ [] }) (omega arith, (omega arith, tt)) refl

supervisor-names_example :
    (t : Tree (named_spawner 7 String)) × (env' : Shared String) × (start_settled
        (named_spawner 7 String)
        default_supervisor_config
        default_actor_config
        named_children
        shared
      ≡ returns (some t, env'))
    × OnPhase (named_spawner 7 String) (IsCurrent 7 (names (sort_slots named_children))) (
        run_supervisor
          (named_spawner 7 String)
          default_supervisor_config
          (signal 11 5 ∷ shutdown ∷ [])
          t)
supervisor-names_example =
    supervisor-names 7 default_supervisor_config default_actor_config named_children shared
      (signal 11 5 ∷ shutdown ∷ []) (omega arith) (omega arith) named_children-IsDistinct
