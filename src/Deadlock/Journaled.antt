-- ===== src/Deadlock/Journaled.antt =====
-- What is in the journal of examples/handle_timeout_calculator_timer.rs.
use lane_switchboards.Base.{
  nat_eq, string_eq, ℕ, ◌+◌, String, ◌≡◌, refl, ap, ◌∙◌, inl, inr, Bool, true, false, Option, none,
  some, List, [], ◌∷◌, ◌++◌, if◌then◌else◌, arith, Bool-cases, Option-cases, ◌||◌, ltb, not, ◌&&◌,
}
use lane_switchboards.Actor.Types.{ActorId}
use lane_switchboards.Actor.World.{World}
use lane_switchboards.Actor.Message.{
  Outcome, done, failed, panicked, handle_message, begun, timed, run_handle, on_outcome, on_stuck,
  give_up, Reply, goes_on, exits, unwinds, after_stuck,
}
use lane_switchboards.Monitor.{begin_handle}
use lane_switchboards.Recoverable.{Floats}
use lane_switchboards.Deadlock.{
  Route, missing, closed, reached, Routes, AppMsg, add_msg, slow_div_msg, ping,
  self_deadlock_probe_msg, cross_deadlock_probe_msg, ledger_fetch, last_msg, stuck_journal,
  timer_start, timer_tick, StuckAction, SharedState, Calculator, from_msg, pre_start, restarted,
  on_handle_begin, on_handle_stuck, persist, reply_to, finish, probe, hangs, sleep, handle_limit,
  app_config, handle, cut, verdict, calculator, after_message, serve, serve_all,
}

module _ (floats : Floats) where
  open floats use {F, plus, over, is_zero}

  -- The value of a call that comes to its end.
  abbrev pub value : AppMsg F → Option F
  value (add_msg a b reply) = some (plus a b)
  value (slow_div_msg a b delay_ms reply) = if is_zero b then none else some (over a b)
  value m = none

  abbrev pub with_value : Option F → SharedState F → SharedState F
  with_value none s = s
  with_value (some v) s = record s { last_result = some v }

  abbrev pub with_action : Option (StuckAction F) → SharedState F → SharedState F
  with_action none s = s
  with_action (some action) s = record s { stuck_actions = s.stuck_actions ++ action ∷ [] }

  probe-state : (r : Route) (name : String) (o : Calculator F) → (probe r name o).0.state ≡ o.state
  unfolding probe
  probe-state missing name o = refl
  probe-state (closed e) name o = refl
  probe-state reached name o = refl

  handle-state :
      (routes : Routes) (m : AppMsg F) (o : Calculator F)
      → (handle floats routes m o).0.state ≡ with_value (value m) o.state
  unfolding handle finish reply_to
  handle-state routes (add_msg a b reply) o = refl
  handle-state routes (slow_div_msg a b delay_ms reply) o = elim (Bool-cases (is_zero b)) [
    | inl e ↦ rw (e, handle, finish, reply_to) refl
    | inr e ↦ rw (e, handle, finish, reply_to) refl
  ]
  handle-state routes (ping reply) o = refl
  handle-state routes (self_deadlock_probe_msg reply) o =
      probe-state routes.calculator "calculator ref missing" o
  handle-state routes (cross_deadlock_probe_msg amount reply) o =
      probe-state routes.ledger "ledger ref missing" o
  handle-state routes (ledger_fetch reply) o = refl
  handle-state routes (last_msg reply) o = refl
  handle-state routes (stuck_journal reply) o = refl
  handle-state routes (timer_start self_ref) o = refl
  handle-state routes timer_tick o = refl

  persist-state :
      (action : Option (StuckAction F)) (o : Calculator F)
      → (persist action o).state ≡ with_action action o.state
  unfolding persist
  persist-state none o = refl
  persist-state (some action) o = refl

  module _ (routes : Routes) (late : AppMsg F → ℕ) (ready : AppMsg F → Bool) where
    -- A call that waits for ever, or takes longer than the limit and is then not ready.
    abbrev pub is_cut : AppMsg F → Bool
    is_cut m = hangs routes m || (ltb handle_limit (sleep m + late m) && not (ready m))

    abbrev pub expect : AppMsg F → SharedState F → SharedState F
    expect m s = if is_cut m then with_action (from_msg m) s else with_value (value m) s

    abbrev pub expect_all : List (ActorId × AppMsg F) → SharedState F → SharedState F
    expect_all [] s = s
    expect_all ((id, m) ∷ ms) s = expect_all ms (expect m s)

    after_message-state :
        (r : Reply (calculator floats routes late ready))
        → (after_message floats routes late ready r).0.state ≡ r.0.state
    unfolding after_message restarted pre_start
    after_message-state (o, w, goes_on) = refl
    after_message-state (o, w, exits reason) = refl
    after_message-state (o, w, unwinds) = refl

    on_outcome-obj :
        (id : ActorId) (outcome : Outcome) (o : Calculator F) (elapsed : ℕ) (w : World)
        → (on_outcome (calculator floats routes late ready) id app_config outcome o elapsed w).0 ≡ o
    unfolding on_outcome give_up
    on_outcome-obj id done o elapsed w = refl
    on_outcome-obj id (failed e) o elapsed w = refl
    on_outcome-obj id panicked o elapsed w = refl

    cut-none :
        (m : AppMsg F) → cut floats routes late ready handle_limit m ≡ none → is_cut m ≡ false
    unfolding cut
    cut-none m e = ground arith

    cut-some :
        (m : AppMsg F) (n : ℕ)
        → cut floats routes late ready handle_limit m ≡ some n
        → is_cut m ≡ true
    unfolding cut
    cut-some m n e = ground arith

    handle_message-state :
        (id : ActorId) (m : AppMsg F) (o : Calculator F) (w : World)
        → (handle_message (calculator floats routes late ready) id app_config m o w).0.state
          ≡ expect m o.state
    unfolding handle_message begun timed after_stuck run_handle on_stuck give_up verdict
        on_handle_begin on_handle_stuck
    handle_message-state id m o w =
        elim (Option-cases (cut floats routes late ready handle_limit m)) [
          | inl e ↦
              rw (e, cut-none m e, handle_message, begun, timed, verdict, expect)
                (let (o', outcome) = handle floats routes m (on_handle_begin m o) in
                  ap (λ c. c.state)
                    (on_outcome-obj id outcome o' (sleep m + late m)
                      (record w { cells = begin_handle id w.cells }))
                  ∙ handle-state routes m (on_handle_begin m o))
          | inr (n, e) ↦
              rw (e, cut-some m n e, handle_message, begun, timed, verdict, expect)
                (persist-state (from_msg m) (on_handle_begin m o))
        ]

    -- Messages that come one after the other to a calculator under `handle_message` with the
    -- example's limit, and a restart after every exit: the state that the instances share is as if
    -- each call that is cut off, which is one that waits for ever, or one that takes longer than the
    -- limit and is not ready when it is polled then, had only entered its action, if it has one, into
    -- the journal, once and in order, and each other call that has a value had only made it the last
    -- result.
    pub serve_all-journaled :
        (ms : List (ActorId × AppMsg F)) (o : Calculator F) (w : World)
        → (serve_all floats routes late ready ms (o, w)).0.state ≡ expect_all ms o.state
    unfolding serve_all serve
    serve_all-journaled [] o w = refl
    serve_all-journaled ((id, m) ∷ ms) o w =
        let (o', w') = serve floats routes late ready id m (o, w) in
        serve_all-journaled ms o' w'
        ∙ ap (expect_all ms) (
            after_message-state
              (handle_message (calculator floats routes late ready) id app_config m o w)
            ∙ handle_message-state id m o w)
