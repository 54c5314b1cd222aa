-- ===== src/Tests/Actors.antt =====
-- Two actors of the runtime, and the shared state in which they live, for the theorems on actors.
use lane_switchboards.Base.{
  nat_eq, ℕ, zero, suc, ◌+◌, ◌≤◌, ◌≡◌, refl, false, Option, none, some, List, [], ◌∷◌, arith,
  if◌then◌else◌, ◌==◌, lookup,
}
use lane_switchboards.Config.{ActorConfig, default_actor_config}
use lane_switchboards.Registry.{ActorEntry}
use lane_switchboards.Monitor.{new_cell}
use lane_switchboards.Actor.Types.{ExitReason, Envelope, error}
use lane_switchboards.Actor.World.{World}
use lane_switchboards.Actor.Message.{DynActor, Outcome, done, failed, Stuck, returned}
use lane_switchboards.Actor.Run.{Input, mail, Running}

-- It counts what it handles, fails on 0, and is too slow for 9.
unfoldable pub outcome : ℕ → Outcome
outcome zero = failed "boom"
outcome (suc m) = done

unfoldable pub stalls : ℕ → ℕ → ℕ → Option (Stuck ℕ)
stalls limit m o = if m == 9 then some (record { obj = o; elapsed = limit + 5 }) else none

pub stalls-waits : (limit m o : ℕ) (s : Stuck ℕ) → stalls limit m o ≡ some s → limit ≤ s.elapsed
unfolding stalls
stalls-waits limit m o s e = ground arith

abbrev pub counting_actor : DynActor
counting_actor = record {
  Msg = ℕ;
  Obj = ℕ;
  pre_start = λ o. returned o none;
  on_upgrade = λ id o. returned o none;
  on_handle_begin = λ m o. returned o none;
  handle = λ m o. record { obj = o + 1; outcome = outcome m; elapsed = 2000000 };
  on_handle_stuck = λ ctx o. returned o none;
  post_stop = λ o. returned o none;
  trap_exit = λ o. false;
  timeout = stalls;
  timeout_waits = stalls-waits;
}

abbrev pub timed_config : ActorConfig
timed_config = record default_actor_config { handle_timeout = some 1000000000 }

abbrev pub entry_1 : ActorEntry
entry_1 = record { control = 1; supervisor = some 100 }

abbrev pub entry_2 : ActorEntry
entry_2 = record { control = 2; supervisor = none }

abbrev pub two_actors : World
two_actors = record {
  actors = (1, entry_1) ∷ (2, entry_2) ∷ [];
  cells = (1, new_cell) ∷ (2, new_cell) ∷ [];
  controls = (1, []) ∷ (2, []) ∷ [];
  signals = (100, []) ∷ [];
  exits = [];
  counter = 3;
}

pub two_actors-lookup_1 : lookup 1 two_actors.actors ≡ some entry_1
unfolding lookup
two_actors-lookup_1 = refl

abbrev pub running_1 : Running ℕ
running_1 = record {
  id = 1;
  control = 1;
  config = timed_config;
  obj = 0;
  links = [];
  monitors = [];
}

abbrev pub running_2 : Running ℕ
running_2 = record {
  id = 2;
  control = 2;
  config = timed_config;
  obj = 0;
  links = [];
  monitors = [];
}

abbrev pub linked_1 : Running ℕ
linked_1 = record running_1 { links = 2 ∷ [] }

abbrev pub boom : ExitReason
boom = error "boom"

abbrev pub mailed : List (Input ℕ ℕ)
mailed = mail (Envelope.msg 4) ∷ mail (Envelope.msg 0) ∷ mail Envelope.stop ∷ []
