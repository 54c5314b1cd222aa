-- ===== src/System/Forgotten.antt =====
-- The supervisor of src/supervisor.rs and its actors of src/actor.rs, taking their turns in any
-- order: no child is forgotten.
use lane_switchboards.Base.{
  nat_eq, by_test, ℕ, suc, ◌+◌, ◌*◌, ◌≤◌, ◌≡◌, refl, inl, inr, Option, none, some, List, [], ◌∷◌,
  arith, Eq, length, All-map, Bool, true, Option-cases, get_elem?, lookup, insert,
  lookup-insert_self,
}
use lane_switchboards.Config.{ActorConfig}
use lane_switchboards.Actor.Types.{ActorId, RestartSignal}
use lane_switchboards.Actor.World.{World}
use lane_switchboards.Actor.Message.{DynActor}
use lane_switchboards.Actor.Run.{step}
use lane_switchboards.Supervisor.{
  ChildSpec, SupervisorConfig, Phase, running, ended, on_event, SupervisorEvent,
}
use lane_switchboards.System.{
  task_spawner, System, Turn, begins, acts, supervises, stops, world, in_world, conclude, receive,
  turn, run,
}
use lane_switchboards.System.Watched.{take-Watched}
use lane_switchboards.System.Rounds.{step-Heard}
use lane_switchboards.System.Sound.{IsSound, IsSystem, begin_loop-IsSystem, after_round-IsSystem}
use lane_switchboards.System.Restarts.{IsPhase, on_signal-IsPhase, stop_all-IsTree}

module _ (channel : ℕ) {K : Type 0} {n : ℕ} {w : World} {slots : List (ChildSpec K)}
    {refs : List ActorId} {is_running : Bool} {silent : List ActorId} where
  pub fewer-IsSound :
      (b b' : ℕ)
      → b' ≤ b
      → IsSound channel n b w slots refs is_running silent
      → IsSound channel n b' w slots refs is_running silent
  fewer-IsSound b b' l h = record {
    bounded = omega (arith, h.bounded);
    many = h.many;
    paired = h.paired;
    below = h.below;
    apart = h.apart;
    listening = h.listening;
    watched = h.watched;
  }

module _ (channel : ℕ) (d : DynActor) {K : Type 0} ⦃e : Eq K⦄ (build : K → d.Obj) where
  open d use {Msg, Obj, pre_start}

  conclude-IsSystem :
      (n b : ℕ) (phase : Phase (task_spawner channel K)) (s : System channel d build)
      → s.is_running ≡ true
      → IsPhase channel n b s.silent phase
      → IsSystem channel d build n b (conclude channel d build phase s)
  unfolding conclude
  conclude-IsSystem n b (running t) s r h = rw r h
  conclude-IsSystem n b (ended t) s r h = record {
    bounded = h.bounded;
    many = h.many;
    paired = h.paired;
    below = h.below;
    apart = h.apart;
    listening = λ q. cc;
    watched = λ q. cc;
  }

  receive-IsSystem :
      (config : SupervisorConfig) (n b now : ℕ) (queue : Option (List RestartSignal))
      (s : System channel d build)
      → s.is_running ≡ true
      → lookup channel (world channel d build s).signals ≡ queue
      → IsSystem channel d build n (n + b) s
      → IsSystem channel d build n b (receive channel d build config now queue s)
  unfolding receive on_event
  receive-IsSystem config n b now none s r l h = fewer-IsSound channel (n + b) b (omega arith) h
  receive-IsSystem config n b now (some []) s r l h =
      fewer-IsSound channel (n + b) b (omega arith) h
  receive-IsSystem config n b now (some (sig ∷ queue)) s r l h =
      let w = world channel d build s in
      let v : World = record w { signals = insert channel queue w.signals } in
      conclude-IsSystem n b _ s r (
        on_signal-IsPhase channel config n b sig.child_id now s.silent
          (in_world channel d build v s.tree)
          (record {
            bounded = h.bounded;
            many = h.many;
            paired = h.paired;
            below = h.below;
            apart = h.apart;
            listening = (queue, lookup-insert_self channel queue w.signals);
            watched =
                All-map s.tree.slots
                  (λ x k ne. take-Watched channel sig queue w s.silent x.id l ne k) (h.watched r);
          }))

  pub turn-IsSystem :
      (config : SupervisorConfig) (actor_config : ActorConfig) (t : Turn Msg Obj) (n b : ℕ)
      (s : System channel d build)
      → IsSystem channel d build n (n + b) s
      → IsSystem channel d build n b (turn channel d build config actor_config t s)
  unfolding turn on_event
  turn-IsSystem config actor_config (begins k) n b s h =
      let h' = fewer-IsSound channel (n + b) b (omega arith) h in
      elim (Option-cases (get_elem? s.tree.env.born k)) [
        | inl q ↦ rw (q, turn) h'
        | inr (a, q) ↦
            rw (q, turn)
              (begin_loop-IsSystem channel d build actor_config a.1 (pre_start (build a.0)) n b _
                h')
      ]
  turn-IsSystem config actor_config (acts k i) n b s h =
      let h' = fewer-IsSound channel (n + b) b (omega arith) h in
      elim (Option-cases (get_elem? s.live k)) [
        | inl q ↦ rw (q, turn) h'
        | inr (r, q) ↦
            rw (q, turn)
              (after_round-IsSystem channel d build k i r (step d i r (world channel d build s)) n b
                s (step-Heard d i r (world channel d build s)) h')
      ]
  turn-IsSystem config actor_config (supervises now) n b s h =
      by_test (IsSystem channel d build n b) s.is_running _ s
        (λ r.
          receive-IsSystem config n b now (lookup channel (world channel d build s).signals) s r
            refl h)
        (λ r. fewer-IsSound channel (n + b) b (omega arith) h)
  turn-IsSystem config actor_config stops n b s h =
      by_test (IsSystem channel d build n b) s.is_running _ s
        (λ r.
          conclude-IsSystem n b
            (on_event (task_spawner channel K) config SupervisorEvent.shutdown s.tree) s r
            (stop_all-IsTree channel n b s.silent s.tree (omega (arith, h.bounded)) h.many h.paired
              h.below h.apart))
        (λ r. fewer-IsSound channel (n + b) b (omega arith) h)

  pub run-IsSystem :
      (config : SupervisorConfig) (actor_config : ActorConfig) (turns : List (Turn Msg Obj))
      (n b : ℕ) (s : System channel d build)
      → IsSystem channel d build n (length turns * n + b) s
      → IsSystem channel d build n b (run channel d build config actor_config turns s)
  unfolding run
  run-IsSystem config actor_config [] n b s h = fewer-IsSound channel (0 * n + b) b (grind arith) h
  run-IsSystem config actor_config (t ∷ turns) n b s h =
      run-IsSystem config actor_config turns n b (turn channel d build config actor_config t s) (
        turn-IsSystem config actor_config t n (length turns * n + b) s (
          fewer-IsSound channel (suc (length turns) * n + b) (n + (length turns * n + b))
            (grind arith) h))
