-- ===== src/Tests/OnDeadlocks.antt =====
-- The theorem on the calculator that is cut off, at a concrete input: whole numbers for `f64`.
use lane_switchboards.Base.{nat_eq, string_eq, ℕ, ◌≡◌, refl, none, some, List, [], ◌∷◌, Bool, false}
use lane_switchboards.Actor.Types.{ActorId}
use lane_switchboards.Deadlock.{
  Routes, reached, missing, AppMsg, add_msg, slow_div_msg, self_deadlock_probe_msg,
  cross_deadlock_probe_msg, last_msg, slow_div, self_deadlock_probe, Calculator, serve_all, hangs,
  from_msg,
}
use lane_switchboards.Deadlock.Journaled.{expect_all, serve_all-journaled}
use lane_switchboards.Tests.Actors.{two_actors}
use lane_switchboards.Tests.OnRecoverables.{whole_numbers}

abbrev routes : Routes
routes = record { calculator = reached; ledger = missing }

abbrev late : AppMsg ℕ → ℕ
late m = 1000

abbrev ready : AppMsg ℕ → Bool
ready m = false

abbrev idle : Calculator ℕ
idle = record {
  pending = none;
  state = record { last_result = none; stuck_actions = [] };
  registry = record { refs = []; generations = [] };
  replies = [];
}

abbrev demo : List (ActorId × AppMsg ℕ)
demo =
    (1, add_msg 10 4 7)
    ∷ (1, slow_div_msg 8 2 10 8)
    ∷ (1, slow_div_msg 9 3 500 9)
    ∷ (2, self_deadlock_probe_msg 10)
    ∷ (2, cross_deadlock_probe_msg 5 11)
    ∷ (2, last_msg 12)
    ∷ []

journal :
    expect_all whole_numbers routes late ready demo idle.state
    ≡ record { last_result = some 4; stuck_actions = slow_div 9 3 500 ∷ self_deadlock_probe ∷ [] }
unfolding hangs from_msg
journal = refl

serve_all-journaled_example :
    (serve_all whole_numbers routes late ready demo (idle, two_actors)).0.state
    ≡ expect_all whole_numbers routes late ready demo idle.state
serve_all-journaled_example =
    serve_all-journaled whole_numbers routes late ready demo idle two_actors
