-- ===== src/Tests/Supervisors.antt =====
-- A supervisor of two children, for the theorems on supervision.
use lane_switchboards.Base.{nat_eq, ℕ, zero, suc, ◌+◌, Option, none, some, List, [], ◌∷◌}
use lane_switchboards.Actor.Types.{ActorId}
use lane_switchboards.Supervisor.{Spawner, ChildSpec, Tree}

-- The factories give out the numbers from the environment; a factory of 0 fails.
unfoldable pub next_id : ℕ → ℕ → Option ActorId × ℕ
next_id zero env = (none, env)
next_id (suc factory) env = (some (env + 1), env + 1)

abbrev pub numbering : Spawner
numbering = record { Env = ℕ; Factory = ℕ; restart = next_id; stop = λ id env. env + 1000 }

abbrev pub child_2 : ChildSpec ℕ
child_2 = record { id = 102; order = 2; factory = 1 }

abbrev pub child_1 : ChildSpec ℕ
child_1 = record { id = 101; order = 1; factory = 1 }

abbrev pub two_children : List (ChildSpec ℕ)
two_children = child_2 ∷ child_1 ∷ []

abbrev pub started_children : List (ChildSpec ℕ)
started_children = record child_1 { id = 11 } ∷ record child_2 { id = 12 } ∷ []

abbrev pub started_tree : Tree numbering
started_tree = record {
  slots = started_children;
  current_refs = 11 ∷ 12 ∷ [];
  restart_log = [];
  env = 12;
}
