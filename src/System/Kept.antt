-- ===== src/System/Kept.antt =====
-- What a pass of the supervisor of src/supervisor.rs over its children keeps.
use lane_switchboards.Base.{
  nat_eq, ℕ, suc, ◌+◌, ◌^◌, ◌<◌, ◌≤◌, ◌≡◌, refl, ◌∙◌, ◌≢◌, inl, inr, some, List, arith, Eq, length,
  All, All-map, Bool-cases, ◌==◌, ==_iff, ap, ap,
}
use lane_switchboards.Actor.Types.{ActorId, new_actor_id}
use lane_switchboards.Actor.World.{World}
use lane_switchboards.Actor.Spawn.{spawned}
use lane_switchboards.Supervisor.{ChildSpec, set_id}
use lane_switchboards.System.{Runtime, spawn_task}
use lane_switchboards.System.Watched.{Watched, buried, spawn-Watched, spawn-keeps}
use lane_switchboards.System.Passes.{
  Differ, AreApart, AreBelow, Pass, finished, kept, restarted, spawn_task_lem,
}

spawn-counter :
    (channel : ℕ) (w : World)
    → w.counter + 1 < 2 ^ 64
    → (spawned (some channel) w).1.counter ≡ w.counter + 1
unfolding spawned new_actor_id
spawn-counter channel w h = omega arith

module _ (channel : ℕ) {K : Type 0} ⦃e : Eq K⦄ where
  pub spawn_task-counter :
      (name : K) (env : Runtime K)
      → env.shared.world.counter + 1 < 2 ^ 64
      → (spawn_task channel name env).1.shared.world.counter ≡ env.shared.world.counter + 1
  spawn_task-counter name env h =
      ap (λ w. World.counter w) (spawn_task_lem channel name env).1
      ∙ spawn-counter channel env.shared.world h

  -- One identifier is given out for each child at most.
  pub Pass-counter :
      (id : ActorId) {slots slots' : List (ChildSpec K)} {env env' : Runtime K}
      → Pass channel id slots env slots' env'
      → env.shared.world.counter + length slots < 2 ^ 64
      → (env.shared.world.counter ≤ env'.shared.world.counter)
        × (env'.shared.world.counter ≤ env.shared.world.counter + length slots)
  Pass-counter id (finished env) h = omega arith
  Pass-counter id (kept s p q) h =
      let ih = Pass-counter id q (omega arith) in omega (arith, ih.0, ih.1)
  Pass-counter id {env = env} (restarted s q) h =
      let c = spawn_task-counter s.factory env (omega arith) in
      let ih = Pass-counter id q (omega (arith, c)) in omega (arith, c, ih.0, ih.1)

  pub Pass-length :
      (id : ActorId) {slots slots' : List (ChildSpec K)} {env env' : Runtime K}
      → Pass channel id slots env slots' env'
      → length slots' ≡ length slots
  Pass-length id (finished env) = refl
  Pass-length id (kept s p q) = ap suc (Pass-length id q)
  Pass-length id (restarted s q) = ap suc (Pass-length id q)

  pub Pass-signals :
      (id : ActorId) {slots slots' : List (ChildSpec K)} {env env' : Runtime K}
      → Pass channel id slots env slots' env'
      → env'.shared.world.signals ≡ env.shared.world.signals
  unfolding spawned
  Pass-signals id (finished env) = refl
  Pass-signals id (kept s p q) = Pass-signals id q
  Pass-signals id {env = env} (restarted s q) =
      Pass-signals id q ∙ ap (λ w. World.signals w) (spawn_task_lem channel s.factory env).1

  Pass-keeps :
      (id j : ActorId) (silent : List ActorId) {slots slots' : List (ChildSpec K)}
      {env env' : Runtime K}
      → Pass channel id slots env slots' env'
      → Watched channel env.shared.world silent j
      → Watched channel env'.shared.world silent j
  Pass-keeps id j silent (finished env) h = h
  Pass-keeps id j silent (kept s p q) h = Pass-keeps id j silent q h
  Pass-keeps id j silent {env = env} (restarted s q) h = Pass-keeps id j silent q (
      rw (spawn_task_lem channel s.factory env).1 (spawn-keeps channel env.shared.world silent j h))

  -- No child is forgotten by a pass: those that it keeps are watched as before, and those that it
  -- restarts are registered.
  pub Pass-Watched :
      (id : ActorId) (silent : List ActorId) {slots slots' : List (ChildSpec K)}
      {env env' : Runtime K}
      → Pass channel id slots env slots' env'
      → All (λ s. (s.id ≢ id) → Watched channel env.shared.world silent s.id) slots
      → All (λ s. Watched channel env'.shared.world silent s.id) slots'
  unfolding set_id spawned
  Pass-Watched id silent (finished env) h = tt
  Pass-Watched id silent (kept s p q) h = (
    elim (Bool-cases (s.id == id)) [
      | inl t ↦ buried (p ((==_iff s.id id).0 t))
      | inr t ↦ Pass-keeps id s.id silent q (h.0 (λ n. ground (arith, ==_iff s.id id)))
    ],
    Pass-Watched id silent q h.1,
  )
  Pass-Watched id silent {env = env} (restarted s q) h = (
    Pass-keeps id env.shared.world.counter silent q (
        rw (spawn_task_lem channel s.factory env).1
          (spawn-Watched channel env.shared.world silent)),
    Pass-Watched id silent q (
        All-map _
          (λ x f n.
            rw (spawn_task_lem channel s.factory env).1
              (spawn-keeps channel env.shared.world silent x.id (f n)))
          h.1),
  )

  pub Pass-AreBelow :
      (id : ActorId) {slots slots' : List (ChildSpec K)} {env env' : Runtime K}
      → Pass channel id slots env slots' env'
      → env.shared.world.counter + length slots < 2 ^ 64
      → AreBelow env.shared.world.counter slots
      → AreBelow env'.shared.world.counter slots'
  unfolding set_id
  Pass-AreBelow id (finished env) l h = tt
  Pass-AreBelow id {env = env} (kept s p q) l h =
      let c = Pass-counter id q (omega arith) in
      (omega (arith, c.0, h.0), Pass-AreBelow id q (omega arith) h.1)
  Pass-AreBelow id {env = env} (restarted s q) l h =
      let g = spawn_task-counter s.factory env (omega arith) in
      let c = Pass-counter id q (omega (arith, g)) in
      (
        omega (arith, c.0, g),
        Pass-AreBelow id q (omega (arith, g)) (All-map _ (λ x b. omega (arith, b, g)) h.1),
      )

  Pass-Differ :
      (id j : ActorId) {slots slots' : List (ChildSpec K)} {env env' : Runtime K}
      → Pass channel id slots env slots' env'
      → env.shared.world.counter + length slots < 2 ^ 64
      → j < env.shared.world.counter
      → Differ j slots
      → Differ j slots'
  unfolding set_id
  Pass-Differ id j (finished env) l b h = tt
  Pass-Differ id j (kept s p q) l b h = (h.0, Pass-Differ id j q (omega arith) b h.1)
  Pass-Differ id j {env = env} (restarted s q) l b h =
      let g = spawn_task-counter s.factory env (omega arith) in
      (
        λ n. absurd (omega (arith, n, b)),
        Pass-Differ id j q (omega (arith, g)) (omega (arith, g, b)) h.1,
      )

  pub Pass-AreApart :
      (id : ActorId) {slots slots' : List (ChildSpec K)} {env env' : Runtime K}
      → Pass channel id slots env slots' env'
      → env.shared.world.counter + length slots < 2 ^ 64
      → AreBelow env.shared.world.counter slots
      → AreApart slots
      → AreApart slots'
  unfolding set_id
  Pass-AreApart id (finished env) l b h = tt
  Pass-AreApart id (kept s p q) l b h = (
    λ z. Pass-Differ id s.id q (omega arith) b.0 (h.0 z),
    Pass-AreApart id q (omega arith) b.1 h.1,
  )
  Pass-AreApart id {env = env} (restarted s q) l b h =
      let g = spawn_task-counter s.factory env (omega arith) in
      (
        λ z.
            Pass-Differ id env.shared.world.counter q (omega (arith, g)) (omega (arith, g))
              (All-map _ (λ x c n. absurd (omega (arith, c, n))) b.1),
        Pass-AreApart id q (omega (arith, g)) (All-map _ (λ x c. omega (arith, c, g)) b.1) h.1,
      )
