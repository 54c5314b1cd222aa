-- ===== src/System/Settled.antt =====
-- The supervisor of src/supervisor.rs when it reads what is pending: every child that it was told of
-- is dealt with.
use mathlib.Core.Path.{subst}
use lane_switchboards.Base.{
  by_test, nat_eq, ℕ, suc, ◌+◌, ◌*◌, ◌≡◌, refl, ◌^◌, ◌<◌, ap, ◌==◌, inl, inr, ◌⊎◌, some, List, [],
  ◌∷◌, arith, Eq, length, All, All-map, true, false, Bool-cases, lookup, insert, lookup-insert_self,
  ltb, any, from_secs, ◌≤◌,
}
use lane_switchboards.Config.{ActorConfig}
use lane_switchboards.Cluster.{returns}
use lane_switchboards.Actor.Types.{ActorId, dead, RestartSignal}
use lane_switchboards.Actor.World.{World}
use lane_switchboards.Registry.{ActorEntry}
use lane_switchboards.Actor.Message.{DynActor}
use lane_switchboards.Supervisor.{
  RestartStrategy, shutdown_supervisor, abandon_child, SupervisorConfig, ChildSpec, Tree, Phase,
  running, ended, note_signal, restart_by, exceeded, on_signal, on_event, SupervisorEvent,
  count_signal,
}
use lane_switchboards.Supervisor.Strategy.{restart_by-swept}
use lane_switchboards.System.{
  task_spawner, System, Turn, Runtime, start, supervises, world, in_world, conclude, receive, turn,
  run,
}
use lane_switchboards.System.Watched.{Watched, buried, registered, reported, ended_silently}
use lane_switchboards.System.Passes.{swept_by-Pass, AreApart}
use lane_switchboards.System.Kept.{Pass-signals}
use lane_switchboards.System.Sound.{IsSystem}
use lane_switchboards.System.Started.{start-IsSystem}
use lane_switchboards.System.Forgotten.{run-IsSystem, turn-IsSystem, fewer-IsSound}

module _ (channel : ℕ) {K : Type 0} ⦃e : Eq K⦄ where
  -- What is pending, while the task goes on.
  abbrev IsPending : List RestartSignal → Phase (task_spawner channel K) → Type 0
  IsPending queue (running t) = lookup channel t.env.shared.world.signals ≡ some queue
  IsPending queue (ended t) = Unit {0}

  restart_by-IsPending :
      (strategy : RestartStrategy) (id : ActorId) (queue : List RestartSignal)
      (t : Tree (task_spawner channel K))
      → length t.slots ≡ length t.current_refs
      → AreApart t.slots
      → lookup channel t.env.shared.world.signals ≡ some queue
      → IsPending queue (running (restart_by (task_spawner channel K) strategy id t))
  restart_by-IsPending strategy id queue t l a h =
      let p = swept_by-Pass channel strategy id t.slots t.current_refs t.env l a in
      rw (restart_by-swept (task_spawner channel K) strategy id t l)
        (cc (Pass-signals channel id p, h))

  count_signal-IsPending :
      (config : SupervisorConfig) (id now : ℕ) (queue : List RestartSignal)
      (t : Tree (task_spawner channel K))
      → length t.slots ≡ length t.current_refs
      → AreApart t.slots
      → lookup channel t.env.shared.world.signals ≡ some queue
      → IsPending queue (count_signal (task_spawner channel K) config id now t)
  unfolding count_signal exceeded
  count_signal-IsPending config id now queue t l a h =
      let log = note_signal config.within_secs now t.restart_log in
      let t' : Tree (task_spawner channel K) = record t { restart_log = log } in
      elim (Bool-cases (ltb config.max_restarts (length log))) [
        | inl q ↦
            rw q
              (elim config.intensity_action
                as (λ a. IsPending queue (exceeded (task_spawner channel K) a id t')) [
                  | shutdown_supervisor ↦ tt
                  | abandon_child ↦ h
                ])
        | inr q ↦ rw q (restart_by-IsPending config.strategy id queue t' l a h)
      ]

  on_signal-IsPending :
      (config : SupervisorConfig) (id now : ℕ) (queue : List RestartSignal)
      (t : Tree (task_spawner channel K))
      → length t.slots ≡ length t.current_refs
      → AreApart t.slots
      → lookup channel t.env.shared.world.signals ≡ some queue
      → IsPending queue (on_signal (task_spawner channel K) config id now t)
  unfolding on_signal
  on_signal-IsPending config id now queue t l a h =
      by_test (IsPending queue) (ltb now (from_secs config.within_secs)) (ended t) _ (λ q. tt)
        (λ q. count_signal-IsPending config id now queue t l a h)

module _ (channel : ℕ) (d : DynActor) {K : Type 0} ⦃e : Eq K⦄ (build : K → d.Obj) where
  open d use {Msg, Obj}

  -- The supervisor reads what is pending, one signal after the other, by a clock.
  abbrev pub reads : (ℕ → ℕ) → List RestartSignal → List (Turn Msg Obj)
  reads clock [] = []
  reads clock (sig ∷ queue) = supervises (clock (length queue)) ∷ reads clock queue

  -- The task has ended, or exactly this is pending.
  abbrev HasLeft : List RestartSignal → System channel d build → Type 0
  HasLeft queue s =
      (s.is_running ≡ false) ⊎ (lookup channel (world channel d build s).signals ≡ some queue)

  conclude-HasLeft :
      (queue : List RestartSignal) (phase : Phase (task_spawner channel K))
      (s : System channel d build)
      → IsPending channel queue phase
      → HasLeft queue (conclude channel d build phase s)
  unfolding conclude
  conclude-HasLeft queue (running t) s h = inr h
  conclude-HasLeft queue (ended t) s h = inl refl

  turn-HasLeft :
      (config : SupervisorConfig) (actor_config : ActorConfig) (now n b : ℕ) (sig : RestartSignal)
      (queue : List RestartSignal) (s : System channel d build)
      → lookup channel (world channel d build s).signals ≡ some (sig ∷ queue)
      → IsSystem channel d build n b s
      → HasLeft queue (turn channel d build config actor_config (supervises now) s)
  unfolding turn receive on_event
  turn-HasLeft config actor_config now n b sig queue s l h =
      by_test (HasLeft queue) s.is_running _ s
        (λ r.
          let w = world channel d build s in
          let v : World = record w { signals = insert channel queue w.signals } in
          let t = in_world channel d build v s.tree in
          rw (l, receive)
            (conclude-HasLeft queue
              (on_event (task_spawner channel K) config (SupervisorEvent.signal sig.child_id now) t)
              s
              (on_signal-IsPending channel config sig.child_id now queue t h.paired h.apart
                (lookup-insert_self channel queue w.signals))))
        (λ r. inl r)

  length-reads :
      (clock : ℕ → ℕ) (queue : List RestartSignal) → length (reads clock queue) ≡ length queue
  length-reads clock [] = refl
  length-reads clock (sig ∷ queue) = ap suc (length-reads clock queue)

  run_ended :
      (config : SupervisorConfig) (actor_config : ActorConfig) (clock : ℕ → ℕ)
      (queue : List RestartSignal) (s : System channel d build)
      → s.is_running ≡ false
      → (run channel d build config actor_config (reads clock queue) s).is_running ≡ false
  unfolding run turn
  run_ended config actor_config clock [] s h = h
  run_ended config actor_config clock (sig ∷ queue) s h =
      by_test
        (λ x. (run channel d build config actor_config (reads clock queue) x).is_running ≡ false)
        s.is_running _ s (λ r. cc) (λ r. run_ended config actor_config clock queue s r)

  reads-HasLeft :
      (config : SupervisorConfig) (actor_config : ActorConfig) (clock : ℕ → ℕ) (n : ℕ)
      (queue : List RestartSignal) (s : System channel d build)
      → lookup channel (world channel d build s).signals ≡ some queue
      → IsSystem channel d build n (length queue * n) s
      → HasLeft [] (run channel d build config actor_config (reads clock queue) s)
  unfolding run
  reads-HasLeft config actor_config clock n [] s l h = inr l
  reads-HasLeft config actor_config clock n (sig ∷ queue) s l h =
      let now = clock (length queue) in
      let s' = turn channel d build config actor_config (supervises now) s in
      elim (turn-HasLeft config actor_config now n _ sig queue s l h) [
        | inl r ↦ inl (run_ended config actor_config clock queue s' r)
        | inr l' ↦ reads-HasLeft config actor_config clock n queue s' l' (
            turn-IsSystem channel d build config actor_config (supervises now) n (length queue * n)
              s
              (fewer-IsSound channel (suc (length queue) * n) (n + length queue * n) (grind arith)
                h))
      ]

  -- A child is marked dead; or registered with the supervisor's channel, and not one of those that
  -- ended without a word; or one of those.
  abbrev pub IsDealt : System channel d build → ActorId → Type 0
  IsDealt s id =
      (id ≡ dead)
      ⊎ ((a : ActorEntry) × (lookup id (world channel d build s).actors ≡ some a)
          × (a.supervisor ≡ some channel)
          × (any (λ i. i == id) s.silent ≡ false))
      ⊎ (any (λ i. i == id) s.silent ≡ true)

  Watched-IsDealt :
      (s : System channel d build) (id : ActorId)
      → lookup channel (world channel d build s).signals ≡ some []
      → Watched channel (world channel d build s) s.silent id
      → IsDealt s id
  Watched-IsDealt s id l (buried z) = inl z
  Watched-IsDealt s id l (registered a f g) = elim (Bool-cases (any (λ i. i == id) s.silent)) [
    | inl t ↦ inr (inr t)
    | inr t ↦ inr (inl (a, f, g, t))
  ]
  Watched-IsDealt s id l (reported queue f g) = absurd (ground arith)
  Watched-IsDealt s id l (ended_silently f) = inr (inr f)

  -- After a start, with capacities that are not 0, and any turns, the supervisor reads the signals
  -- that are pending, at any times. Then its task has ended; or none is pending, and every child has
  -- been dealt with: its slot is marked dead; or it holds an actor that is registered with the
  -- supervisor and has not ended without a word to it; or one that has ended without a word:
  -- otherwise than on a message, or by a panic of a callback outside `handle`.
  pub reads-settle :
      (config : SupervisorConfig) (actor_config : ActorConfig) (children : List (ChildSpec K))
      (env : Runtime K) (turns : List (Turn Msg Obj)) (clock : ℕ → ℕ) (queue : List RestartSignal)
      (s : System channel d build)
      → 1 ≤ config.mailbox_capacity
      → 1 ≤ actor_config.mailbox_capacity
      → env.shared.world.counter + (1 + (length turns + length queue)) * length children < 2 ^ 64
      → start channel d build config actor_config children env ≡ returns (some s)
      → lookup channel
          (world channel d build (run channel d build config actor_config turns s)).signals
        ≡ some queue
      → let s₁ = run channel d build config actor_config turns s in
        let s₂ = run channel d build config actor_config (reads clock queue) s₁ in
        (s₂.is_running ≡ false)
        ⊎ ((lookup channel (world channel d build s₂).signals ≡ some [])
            × All (λ c. IsDealt s₂ c.id) s₂.tree.slots)
  reads-settle config actor_config children env turns clock queue s cap cap' room q l =
      let n = length children in
      let s₁ = run channel d build config actor_config turns s in
      let s₂ = run channel d build config actor_config (reads clock queue) s₁ in
      let (s', q', sound) =
        start-IsSystem channel d build config actor_config children env _ cap cap' room in
      let same : s' ≡ s = cc (q, q') in
      let sound₀ : IsSystem channel d build n ((length turns + length queue) * n) s =
        subst (IsSystem channel d build n ((length turns + length queue) * n)) same sound in
      let sound₁ = run-IsSystem channel d build config actor_config turns n (length queue * n) s (
        fewer-IsSound channel ((length turns + length queue) * n)
          (length turns * n + length queue * n) (grind arith) sound₀) in
      let sound₂ = run-IsSystem channel d build config actor_config (reads clock queue) n 0 s₁ (
        fewer-IsSound channel (length queue * n) (length (reads clock queue) * n + 0)
          (grind (arith, length-reads clock queue)) sound₁) in
      elim (Bool-cases s₂.is_running) [
        | inr r ↦ inl r
        | inl r ↦ elim (reads-HasLeft config actor_config clock n queue s₁ l sound₁) [
          | inl r' ↦ inl r'
          | inr l' ↦
              inr
                (l', All-map s₂.tree.slots (λ x w. Watched-IsDealt s₂ x.id l' w) (sound₂.watched r))
        ]
      ]
