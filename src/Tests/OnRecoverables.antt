-- ===== src/Tests/OnRecoverables.antt =====
-- The theorem on the recoverable calculator, at a concrete input: whole numbers in place of `f64`.
use lane_switchboards.Base.{
  nat_eq, ℕ, ◌+◌, ◌-◌, ◌*◌, ◌/◌, ◌≡◌, refl, none, some, List, [], ◌∷◌, arith, ◌==◌, length, insert,
  lookup,
}
use lane_switchboards.Recoverable.{
  Floats, add, CalcEvent, handled, cut_off, restarts, add_msg, div_msg, summary_msg, run, counts,
  new_calculator, new_journal, replay_last_result,
}
use lane_switchboards.Recoverable.Replay.{expected, run-expected}

abbrev pub whole_numbers : Floats
whole_numbers = record {
  F = ℕ;
  plus = λ a b. a + b;
  minus = λ a b. a - b;
  times = λ a b. a * b;
  over = λ a b. a / b;
  is_zero = λ b. b == 0;
}

abbrev divided_by_zero : List (CalcEvent ℕ)
divided_by_zero =
    handled (add_msg 10 4 1)
    ∷ handled (div_msg 10 0 2)
    ∷ cut_off (add 1 2)
    ∷ handled (summary_msg 3)
    ∷ restarts
    ∷ []

restores :
    let o = run whole_numbers divided_by_zero (new_calculator new_journal) in
    (o.last_result ≡ some 14) × (counts o.journal ≡ (1, 2)) × (length o.replies ≡ 2)
unfolding run new_calculator new_journal counts insert lookup
restores = (refl, refl, refl)

run-expected_example :
    let o = run whole_numbers divided_by_zero (new_calculator new_journal) in
    ((o.last_result, counts o.journal) ≡ expected whole_numbers divided_by_zero (none, (0, 0)))
    × (replay_last_result o.journal ≡ o.last_result)
run-expected_example = run-expected whole_numbers divided_by_zero (omega arith)
