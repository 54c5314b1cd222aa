-- ===== src/System/Started.antt =====
-- A supervisor of src/supervisor.rs from its start on, with its actors of src/actor.rs: no child is
-- forgotten.
use lane_switchboards.Base.{
  nat_eq, ℕ, suc, ◌+◌, ◌*◌, ◌^◌, ◌<◌, ◌≤◌, ◌≡◌, refl, ◌∙◌, ap, ◌⊎◌, inl, inr, some, List, [], ◌∷◌,
  arith, Eq, length, All, All-map, true, false, Bool-cases, insert, lookup-insert_self,
}
use lane_switchboards.Config.{ActorConfig}
use lane_switchboards.Cluster.{returns}
use lane_switchboards.Actor.Types.{ActorId}
use lane_switchboards.Actor.World.{World}
use lane_switchboards.Actor.Spawn.{spawned}
use lane_switchboards.Actor.Message.{DynActor}
use lane_switchboards.Supervisor.{
  ChildSpec, set_id, insert_slot, sort_slots, SupervisorConfig, Tree,
}
use lane_switchboards.Supervisor.Start.{
  spawn_pass, spawn_next, prepend, begin_task, start_settled-begins,
}
use lane_switchboards.System.{
  Runtime, task_spawner, spawn_task, System, Turn, start, run, world, begin_system,
}
use lane_switchboards.System.Watched.{Watched, spawn-Watched, spawn-keeps, IsKnown, Watched-IsKnown}
use lane_switchboards.System.Passes.{AreApart, AreBelow, spawn_task_lem}
use lane_switchboards.System.Kept.{spawn_task-counter}
use lane_switchboards.System.Sound.{IsSystem}
use lane_switchboards.System.Forgotten.{fewer-IsSound, run-IsSystem}

more_room : (k n : ℕ) → (1 + k) * n ≡ n + k * n
more_room k n = grind arith

module _ {Factory : Type 0} where
  length-insert_slot :
      (s : ChildSpec Factory) (slots : List (ChildSpec Factory))
      → length (insert_slot s slots) ≡ suc (length slots)
  unfolding insert_slot
  length-insert_slot s [] = refl
  length-insert_slot s (x ∷ slots) = ground (arith, length-insert_slot s slots)

  length-sort_slots : (slots : List (ChildSpec Factory)) → length (sort_slots slots) ≡ length slots
  unfolding sort_slots
  length-sort_slots [] = refl
  length-sort_slots (s ∷ slots) =
      length-insert_slot s (sort_slots slots) ∙ ap suc (length-sort_slots slots)

module _ (channel : ℕ) {K : Type 0} ⦃e : Eq K⦄ where
  -- What the initial pass comes to.
  record IsSpawned (slots : List (ChildSpec K)) (env : Runtime K) (slots' : List (ChildSpec K))
      (refs : List ActorId) (env' : Runtime K) : Type 0 where
    succeeds : spawn_pass (task_spawner channel K) slots env ≡ (some (slots', refs), env')
    many : length slots' ≡ length slots
    paired : length slots' ≡ length refs
    counted :
        (env.shared.world.counter ≤ env'.shared.world.counter)
        × (env'.shared.world.counter ≤ env.shared.world.counter + length slots)
    below : AreBelow env'.shared.world.counter slots'
    apart : AreApart slots'
    new : All (λ s. env.shared.world.counter ≤ s.id) slots'
    signals : env'.shared.world.signals ≡ env.shared.world.signals
    kept :
        (j : ActorId)
        → Watched channel env.shared.world [] j
        → Watched channel env'.shared.world [] j
    watched : All (λ s. Watched channel env'.shared.world [] s.id) slots'

  IsSpawned-cons :
      (s : ChildSpec K) (slots : List (ChildSpec K)) (env : Runtime K) (slots' : List (ChildSpec K))
      (refs : List ActorId) (env' : Runtime K)
      → env.shared.world.counter + length (s ∷ slots) < 2 ^ 64
      → IsSpawned slots (spawn_task channel s.factory env).1 slots' refs env'
      → let id = env.shared.world.counter in
        IsSpawned (s ∷ slots) env (set_id id s ∷ slots') (id ∷ refs) env'
  unfolding spawn_pass spawn_next prepend set_id spawned
  IsSpawned-cons s slots env slots' refs env' room h =
      let id = env.shared.world.counter in
      let (q, f) = spawn_task_lem channel s.factory env in
      let g = spawn_task-counter channel s.factory env (omega arith) in
      record {
        succeeds = rw (q, spawn_pass, spawn_next) (rw (h.succeeds, prepend) refl);
        many = ap suc h.many;
        paired = ap suc h.paired;
        counted = omega (arith, g, h.counted.0, h.counted.1);
        below = (omega (arith, g, h.counted.0), h.below);
        apart = (λ z. All-map slots' (λ x b n. absurd (omega (arith, g, b, n))) h.new, h.apart);
        new = (omega arith, All-map slots' (λ x b. omega (arith, g, b)) h.new);
        signals = h.signals ∙ ap (λ w. World.signals w) f;
        kept = λ j v. h.kept j (rw f (spawn-keeps channel env.shared.world [] j v));
        watched = (h.kept id (rw f (spawn-Watched channel env.shared.world [])), h.watched);
      }

  spawn_pass-IsSpawned :
      (slots : List (ChildSpec K)) (env : Runtime K)
      → env.shared.world.counter + length slots < 2 ^ 64
      → (slots' : List (ChildSpec K)) × (refs : List ActorId) × (env' : Runtime K) × IsSpawned slots
          env slots' refs env'
  unfolding spawn_pass
  spawn_pass-IsSpawned [] env room = (
    [],
    [],
    env,
    record {
      succeeds = refl;
      many = refl;
      paired = refl;
      counted = omega arith;
      below = tt;
      apart = tt;
      new = tt;
      signals = refl;
      kept = λ j h. h;
      watched = tt;
    },
  )
  spawn_pass-IsSpawned (s ∷ slots) env room =
      let id = env.shared.world.counter in
      let env₁ = (spawn_task channel s.factory env).1 in
      let g = spawn_task-counter channel s.factory env (omega arith) in
      let (slots', refs, env', h) = spawn_pass-IsSpawned slots env₁ (omega (arith, g)) in
      (set_id id s ∷ slots', id ∷ refs, env', IsSpawned-cons s slots env slots' refs env' room h)

module _ (channel : ℕ) (d : DynActor) {K : Type 0} ⦃e : Eq K⦄ (build : K → d.Obj) where
  open d use {Msg, Obj}

  -- A supervisor of named children starts, with room for the identifiers of `k` turns.
  pub start-IsSystem :
      (config : SupervisorConfig) (actor_config : ActorConfig) (children : List (ChildSpec K))
      (env : Runtime K) (k : ℕ)
      → 1 ≤ config.mailbox_capacity
      → 1 ≤ actor_config.mailbox_capacity
      → env.shared.world.counter + (1 + k) * length children < 2 ^ 64
      → (s : System channel d build) × (start channel d build config actor_config children env
          ≡ returns (some s))
        × IsSystem channel d build (length children) (k * length children) s
  unfolding start begin_task begin_system
  start-IsSystem config actor_config children env k cap cap' room =
      let w = env.shared.world in
      let env₀ : Runtime K = record env {
        shared = record env.shared { world = record w { signals = insert channel [] w.signals } };
      } in
      let l = length-sort_slots children in
      let (slots, refs, env', h) =
        spawn_pass-IsSpawned channel (sort_slots children) env₀
          (omega (arith, l, room, more_room k (length children))) in
      let t : Tree (task_spawner channel K) = record {
        slots = slots;
        current_refs = refs;
        restart_log = [];
        env = env';
      } in
      (
        record { tree = t; is_running = true; live = []; silent = [] },
        ap (begin_system channel d build) (
            start_settled-begins (task_spawner channel K) config actor_config children env₀ cap cap'
            ∙ ap (λ r. returns (begin_task (task_spawner channel K) r)) h.succeeds),
        record {
          bounded = omega (arith, h.counted.1, l, room, more_room k (length children));
          many = h.many ∙ l;
          paired = h.paired;
          below = h.below;
          apart = h.apart;
          listening = λ r. ([], cc (h.signals, lookup-insert_self channel [] w.signals));
          watched = λ r. h.watched;
        },
      )

  -- A supervisor of named children, with capacities of its channel and of the mailboxes that are not
  -- 0, starts; and then its task, the tasks of the actors it has spawned and those of the actors that
  -- replace them take their turns in any order, with any messages, failures, panics, links and stops,
  -- at any times, with any strategy and intensity, as long as the identifiers do not wrap around.
  -- Either the supervisor's task has then ended; or it has as many slots as children, and no child is
  -- forgotten: its slot is marked dead; or it holds an actor that is registered with the supervisor's
  -- channel and has not ended without a word to it; or one whose signal waits in that channel; or one
  -- that has ended without a word, of which the code does not tell the supervisor: otherwise than on
  -- a message, or by a panic of a callback outside `handle`.
  pub run-forgets_none :
      (config : SupervisorConfig) (actor_config : ActorConfig) (children : List (ChildSpec K))
      (env : Runtime K) (turns : List (Turn Msg Obj))
      → 1 ≤ config.mailbox_capacity
      → 1 ≤ actor_config.mailbox_capacity
      → env.shared.world.counter + (1 + length turns) * length children < 2 ^ 64
      → (s : System channel d build) × (start channel d build config actor_config children env
          ≡ returns (some s))
        × (let s' = run channel d build config actor_config turns s in
            (s'.is_running ≡ false)
            ⊎ ((length s'.tree.slots ≡ length children)
                × All
                    (λ c. IsKnown channel (world channel d build s') s'.silent c.id)
                    s'.tree.slots))
  run-forgets_none config actor_config children env turns cap cap' room =
      let (s, q, sound) =
        start-IsSystem config actor_config children env (length turns) cap cap' room in
      let after = run-IsSystem channel d build config actor_config turns (length children) 0 s (
        fewer-IsSound channel (length turns * length children) (length turns * length children + 0)
          (omega arith) sound) in
      let last = run channel d build config actor_config turns s in
      let w = world channel d build last in
      (
        s,
        q,
        elim (Bool-cases last.is_running) [
          | inl r ↦ inr (
            after.many,
            All-map last.tree.slots (λ c k. Watched-IsKnown channel w last.silent c.id k)
                (after.watched r),
          )
          | inr r ↦ inl r
        ],
      )
