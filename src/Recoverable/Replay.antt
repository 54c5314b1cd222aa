-- ===== src/Recoverable/Replay.antt =====
-- The calculator of examples/recoverable_timer_calc.rs through its restarts.
use mathlib.Core.Path.{subst}
use lane_switchboards.Base.{
  nat_eq, ℕ, suc, ◌+◌, ◌<◌, ◌^◌, String, ◌≡◌, refl, sym, ap, ◌∙◌, inl, inr, ◌⊎◌, Option, none, some,
  List, [], ◌∷◌, ◌++◌, arith, Map, inc64, length,
}
use lane_switchboards.Cluster.{Call, panics, returns}
use lane_switchboards.Recoverable.{
  Floats, OpKind, add, sub, mul, div, OpStatus, pending, ok, JournalEntry, OpJournal, new_journal,
  start_op, complete_op, if_ok, replay_last_result, count_entry, counts, CalcMsg, add_msg, sub_msg,
  mul_msg, div_msg, last_msg, summary_msg, RecoverableCalculator, CalcEvent, handled, cut_off,
  restarts, new_calculator, send_reply, replay_journal, restarted, after_compute, compute, run_op,
  handle, after_handle, on_event, run,
}
use lane_switchboards.Recoverable.Journal.{
  IsBelow, insert_new, insert_newest, lookup_newest, replay_newest, counts_newest,
}

-- The last result, and how many operations ended well and how many never ended.
abbrev pub Expected : Type 0 → Type 0
Expected F = Option F × (ℕ × ℕ)

module _ {F : Type 0} where
  abbrev pub adds : Option F → Expected F → Expected F
  adds (some v) (last, (oks, pendings)) = (some v, (oks + 1, pendings))
  adds none (last, (oks, pendings)) = (last, (oks, pendings + 1))

  abbrev pub completes : Call (F ⊎ String) → Option F
  completes panics = none
  completes (returns (inl v)) = some v
  completes (returns (inr e)) = none

  abbrev pub operation : CalcMsg F → Option (OpKind F)
  operation (add_msg a b reply) = some (add a b)
  operation (sub_msg a b reply) = some (sub a b)
  operation (mul_msg a b reply) = some (mul a b)
  operation (div_msg a b reply) = some (div a b)
  operation (last_msg reply) = none
  operation (summary_msg reply) = none

  abbrev pub seen : RecoverableCalculator F → Expected F
  seen o = (o.last_result, counts o.journal)

  -- With room for `b` more operations, and a replay that finds the last result.
  record IsSound (b : ℕ) (j : OpJournal F) (last : Option F) : Type 0 where
    below : IsBelow j.next_id j.ops
    bounded : j.next_id + b < 2 ^ 64
    replayed : replay_last_result j ≡ last

  abbrev Steps : ℕ → OpJournal F → Option F → Expected F → Type 0
  Steps b j last s = IsSound b j last × ((last, counts j) ≡ s)

  abbrev grown : OpJournal F → OpKind F → OpStatus F → OpJournal F
  grown j kind status = record {
    ops = j.ops ++ (j.next_id, record { kind = kind; status = status }) ∷ [];
    next_id = inc64 j.next_id;
  }

  start_op-grown :
      (j : OpJournal F) (kind : OpKind F)
      → IsBelow j.next_id j.ops
      → (start_op kind j).1 ≡ grown j kind pending
  unfolding start_op
  start_op-grown j kind h =
      ap (λ m. record { ops = m; next_id = inc64 j.next_id })
        (insert_new j.next_id (record { kind = kind; status = pending }) j.ops h)

  complete_op-grown :
      (j : OpJournal F) (kind : OpKind F) (v : F)
      → IsBelow j.next_id j.ops
      → complete_op j.next_id v (start_op kind j).1 ≡ grown j kind (ok v)
  unfolding complete_op
  complete_op-grown j kind v h =
      let entry : JournalEntry F = record { kind = kind; status = pending } in
      let finished : JournalEntry F = record { kind = kind; status = ok v } in
      ap (complete_op j.next_id v) (start_op-grown j kind h)
      ∙ rw (lookup_newest j.next_id entry j.ops h, complete_op)
          (ap (λ m. record { ops = m; next_id = inc64 j.next_id })
            (insert_newest j.next_id finished entry j.ops h))

  IsBelow-grown :
      (n m : ℕ) (ops : Map ℕ (JournalEntry F)) (entry : JournalEntry F)
      → n < m
      → IsBelow n ops
      → IsBelow m (ops ++ (n, entry) ∷ [])
  IsBelow-grown n m [] entry l h = (l, tt)
  IsBelow-grown n m (e ∷ ops) entry l h = (omega (arith, h.0), IsBelow-grown n m ops entry l h.1)

  grown-Steps :
      (b : ℕ) (j : OpJournal F) (kind : OpKind F) (status : OpStatus F) (last : Option F)
      → IsSound (suc b) j last
      → let entry : JournalEntry F = record { kind = kind; status = status } in
        Steps b
          (grown j kind status)
          (if_ok (some entry) last)
          (if_ok (some entry) last, count_entry entry (counts j))
  grown-Steps b j kind status last h =
      let entry : JournalEntry F = record { kind = kind; status = status } in
      (
        record {
          below =
              IsBelow-grown j.next_id (inc64 j.next_id) j.ops entry (omega (arith, h.bounded))
                h.below;
          bounded = omega (arith, h.bounded);
          replayed =
              replay_newest j.ops j.next_id (inc64 j.next_id) entry h.below
              ∙ ap (if_ok (some entry)) h.replayed;
        },
        ap (λ n. (if_ok (some entry) last, n))
            (counts_newest j.ops j.next_id (inc64 j.next_id) entry),
      )

module _ (floats : Floats) where
  open floats use {F}

  abbrev pub expect : CalcEvent F → Expected F → Expected F
  expect (handled m) s = elim (operation m) [
    | none ↦ s
    | some kind ↦ adds (completes (compute floats kind)) s
  ]
  expect (cut_off kind) s = adds none s
  expect restarts s = s

  abbrev pub expected : List (CalcEvent F) → Expected F → Expected F
  expected [] s = s
  expected (event ∷ events) s = expected events (expect event s)

  -- A restart after an operation that did not end.
  broken-Steps :
      (b : ℕ) (kind : OpKind F) (o : RecoverableCalculator F)
      → IsSound (suc b) o.journal o.last_result
      → let j = (start_op kind o.journal).1 in Steps b j (replay_last_result j) (adds none (seen o))
  unfolding if_ok count_entry
  broken-Steps b kind o h =
      subst (λ j. Steps b j (replay_last_result j) (adds none (seen o)))
        (sym (start_op-grown o.journal kind h.below))
        (let g = grown-Steps b o.journal kind pending o.last_result h in
          subst (λ l. Steps b (grown o.journal kind pending) l (adds none (seen o)))
            (sym g.0.replayed) g)

  op-Steps :
      (b : ℕ) (kind : OpKind F) (c : Call (F ⊎ String)) (reply : ℕ) (o : RecoverableCalculator F)
      → IsSound (suc b) o.journal o.last_result
      → let (op_id, journal) = start_op kind o.journal in
        let after =
          after_handle floats (after_compute op_id reply c (record o { journal = journal })) in
        Steps b after.journal after.last_result (adds (completes c) (seen o))
  unfolding after_compute after_handle restarted replay_journal new_calculator send_reply start_op
      if_ok count_entry
  op-Steps b kind panics reply o h = broken-Steps b kind o h
  op-Steps b kind (returns (inl v)) reply o h =
      subst (λ j. Steps b j (some v) (adds (some v) (seen o)))
        (sym (complete_op-grown o.journal kind v h.below))
        (grown-Steps b o.journal kind (ok v) o.last_result h)
  op-Steps b kind (returns (inr e)) reply o h =
      subst (λ j. Steps b j o.last_result (adds none (seen o)))
        (sym (start_op-grown o.journal kind h.below))
        (grown-Steps b o.journal kind pending o.last_result h)

  fewer-IsSound :
      (b : ℕ) (j : OpJournal F) (last : Option F) → IsSound (suc b) j last → IsSound b j last
  fewer-IsSound b j last h = record {
    below = h.below;
    bounded = omega (arith, h.bounded);
    replayed = h.replayed;
  }

  on_event-Steps :
      (b : ℕ) (event : CalcEvent F) (o : RecoverableCalculator F)
      → IsSound (suc b) o.journal o.last_result
      → let after = on_event floats event o in
        Steps b after.journal after.last_result (expect event (seen o))
  unfolding on_event handle run_op after_handle restarted replay_journal new_calculator send_reply
  on_event-Steps b (handled (add_msg x y reply)) o h =
      op-Steps b (add x y) (compute floats (add x y)) reply o h
  on_event-Steps b (handled (sub_msg x y reply)) o h =
      op-Steps b (sub x y) (compute floats (sub x y)) reply o h
  on_event-Steps b (handled (mul_msg x y reply)) o h =
      op-Steps b (mul x y) (compute floats (mul x y)) reply o h
  on_event-Steps b (handled (div_msg x y reply)) o h =
      op-Steps b (div x y) (compute floats (div x y)) reply o h
  on_event-Steps b (handled (last_msg reply)) o h =
      (fewer-IsSound b o.journal o.last_result h, refl)
  on_event-Steps b (handled (summary_msg reply)) o h =
      (fewer-IsSound b o.journal o.last_result h, refl)
  on_event-Steps b (cut_off kind) o h = broken-Steps b kind o h
  on_event-Steps b restarts o h =
      subst (λ l. Steps b o.journal l (seen o)) (sym h.replayed)
        (fewer-IsSound b o.journal o.last_result h, refl)

  run-Steps :
      (events : List (CalcEvent F)) (o : RecoverableCalculator F)
      → IsSound (length events) o.journal o.last_result
      → let after = run floats events o in
        Steps 0 after.journal after.last_result (expected events (seen o))
  unfolding run
  run-Steps [] o h = (h, refl)
  run-Steps (event ∷ events) o h =
      let (sound, same) = on_event-Steps (length events) event o h in
      subst
        (λ s.
          (let after = run floats events (on_event floats event o) in
            Steps 0 after.journal after.last_result (expected events s)))
        same (run-Steps events (on_event floats event o) sound)

  -- A calculator that starts with an empty journal, and is then sent messages, dropped in the middle
  -- of operations and restarted in any order, with fewer than 2 ^ 64 such events: its last result is
  -- the value of the last operation that ended well, as if nothing had gone wrong in between, so
  -- that no restart loses it; its journal counts the operations that ended well, and those that
  -- panicked or were dropped as pending; and what a replay would restore is the last result.
  pub run-expected :
      (events : List (CalcEvent F))
      → length events < 2 ^ 64
      → let o = run floats events (new_calculator new_journal) in
        ((o.last_result, counts o.journal) ≡ expected events (none, (0, 0)))
        × (replay_last_result o.journal ≡ o.last_result)
  unfolding new_calculator new_journal counts replay_last_result
  run-expected events l =
      let (sound, same) =
        run-Steps events (new_calculator new_journal)
          (record { below = tt; bounded = omega (arith, l); replayed = refl }) in
      (same, sound.replayed)
