-- ===== src/Supervisor/Names.antt =====
-- A supervisor of src/supervisor.rs whose children are made by `spawn_child_spec`: what the child
-- registry says of their names while the tree runs.
use lane_switchboards.Base.{
  nat_eq, ℕ, suc, ◌≡◌, refl, ap, ◌∙◌, ◌≢◌, inl, inr, Bool, some, List, [], ◌∷◌, map, arith,
  if◌then◌else◌, Bool-cases, Eq, ◌==◌, ==_iff, ==_refl, length, All, lookup-insert,
}
use lane_switchboards.Actor.Types.{ActorId}
use lane_switchboards.Actor.World.{World}
use lane_switchboards.Actor.Spawn.{spawned}
use lane_switchboards.Supervisor.{ChildSpec, set_id}
use lane_switchboards.Supervisor.Children.{
  ChildRegistry, Shared, get, track, bump_generation, track_and_bump, spawn_named, named_spawner,
}
use lane_switchboards.Supervisor.Start.{spawn_pass, spawn_next, prepend}
use lane_switchboards.Supervisor.Sweep.{sweep, sweep_first}

module _ {K : Type 0} where
  abbrev pub names : List (ChildSpec K) → List K
  names slots = map (λ s. s.factory) slots

  abbrev pub Apart : K → List K → Type 0
  Apart name ks = All (λ k. name ≢ k) ks

  -- No name comes twice.
  abbrev pub IsDistinct : List K → Type 0
  IsDistinct [] = Unit {0}
  IsDistinct (k ∷ ks) = Apart k ks × IsDistinct ks

  pub length-names : (slots : List (ChildSpec K)) → length (names slots) ≡ length slots
  length-names [] = refl
  length-names (s ∷ slots) = ap suc (length-names slots)

module _ {K : Type 0} ⦃e : Eq K⦄ where
  -- Each name has its reference in the registry.
  abbrev pub IsTracked : List K → List ActorId → ChildRegistry K → Type 0
  IsTracked [] [] reg = Unit {0}
  IsTracked (k ∷ ks) (r ∷ refs) reg = (get k reg ≡ some r) × IsTracked ks refs reg
  IsTracked _ _ reg = ⊥

  pub get-track_and_bump :
      (name k : K) (id : ActorId) (reg : ChildRegistry K)
      → get k (track_and_bump name id reg) ≡ (if name == k then some id else get k reg)
  unfolding get track_and_bump track bump_generation
  get-track_and_bump name k id reg = lookup-insert name k id reg.refs

  pub IsTracked-keeps :
      (name : K) (id : ActorId) (ks : List K) (refs : List ActorId) (reg : ChildRegistry K)
      → Apart name ks
      → IsTracked ks refs reg
      → IsTracked ks refs (track_and_bump name id reg)
  IsTracked-keeps name id [] [] reg a h = tt
  IsTracked-keeps name id (k ∷ ks) (r ∷ refs) reg a h = (
    ground (arith, get-track_and_bump name k id reg, ==_iff name k, a.0, h.0),
    IsTracked-keeps name id ks refs reg a.1 h.1,
  )
  IsTracked-keeps name id [] (r ∷ refs) reg a h = absurd h
  IsTracked-keeps name id (k ∷ ks) [] reg a h = absurd h

  pub IsTracked-length :
      (ks : List K) (refs : List ActorId) (reg : ChildRegistry K)
      → IsTracked ks refs reg
      → length ks ≡ length refs
  IsTracked-length [] [] reg h = refl
  IsTracked-length (k ∷ ks) (r ∷ refs) reg h = ap suc (IsTracked-length ks refs reg h.1)
  IsTracked-length [] (r ∷ refs) reg h = absurd h
  IsTracked-length (k ∷ ks) [] reg h = absurd h

  -- What a pass over the children does to the registry.
  abbrev pub IsPass : List K → Shared K → List (ChildSpec K) → List ActorId → Shared K → Type 0
  IsPass ks env slots refs env' =
      (names slots ≡ ks)
      × IsTracked ks refs env'.registry
      × ((k : K) → Apart k ks → get k env'.registry ≡ get k env.registry)

module _ (channel : ℕ) {K : Type 0} ⦃e : Eq K⦄ where
  -- Restarting a child by name gives it a new reference, which the registry has.
  pub spawn_named-tracks :
      (name : K) (env : Shared K)
      → (id : ActorId) × (world : World) × (spawn_named channel name env
          ≡ (some id, record env { world = world; registry = track_and_bump name id env.registry }))
  unfolding spawn_named
  spawn_named-tracks name env =
      let (id, world) = spawned (some channel) env.world in (id, world, refl)

  pub sweep-IsPass :
      (test : ChildSpec K → Bool) (slots : List (ChildSpec K)) (refs : List ActorId)
      (env : Shared K)
      → IsTracked (names slots) refs env.registry
      → IsDistinct (names slots)
      → let w = sweep (named_spawner channel K) test slots refs env in
        IsPass (names slots) env w.slots w.refs w.env
  unfolding sweep set_id
  sweep-IsPass test [] [] env h d = (refl, tt, λ k a. refl)
  sweep-IsPass test (s ∷ slots) (r ∷ refs) env h d = elim (Bool-cases (test s)) [
    | inl t ↦
        let (id, world, q) = spawn_named-tracks s.factory env in
        let env₁ : Shared K = record env {
          world = world;
          registry = track_and_bump s.factory id env.registry;
        } in
        let (e1, h1, f) =
          sweep-IsPass test slots refs env₁
            (IsTracked-keeps s.factory id (names slots) refs env.registry d.0 h.1) d.1 in
        rw (t, q)
          (
            ap (λ l. s.factory ∷ l) e1,
            (
              f s.factory d.0
                  ∙ ground (
                    arith,
                    get-track_and_bump s.factory s.factory id env.registry,
                    ==_refl s.factory,
                  ),
              h1,
            ),
            λ k a.
                f k a.1
                ∙ ground (
                  arith,
                  get-track_and_bump s.factory k id env.registry,
                  ==_iff s.factory k,
                  a.0,
                ),
          )
    | inr t ↦
        let (e1, h1, f) = sweep-IsPass test slots refs env h.1 d.1 in
        rw t (ap (λ l. s.factory ∷ l) e1, (f s.factory d.0 ∙ h.0, h1), λ k a. f k a.1)
  ]
  sweep-IsPass test [] (r ∷ refs) env h d = absurd h
  sweep-IsPass test (s ∷ slots) [] env h d = absurd h

  pub sweep_first-IsPass :
      (test : ChildSpec K → Bool) (slots : List (ChildSpec K)) (refs : List ActorId)
      (env : Shared K)
      → IsTracked (names slots) refs env.registry
      → IsDistinct (names slots)
      → let w = sweep_first (named_spawner channel K) test slots refs env in
        IsPass (names slots) env w.slots w.refs w.env
  unfolding sweep_first set_id
  sweep_first-IsPass test [] [] env h d = (refl, tt, λ k a. refl)
  sweep_first-IsPass test (s ∷ slots) (r ∷ refs) env h d = elim (Bool-cases (test s)) [
    | inl t ↦
        let (id, world, q) = spawn_named-tracks s.factory env in
        rw (t, q)
          (
            refl,
            (
              ground (
                arith,
                get-track_and_bump s.factory s.factory id env.registry,
                ==_refl s.factory,
              ),
              IsTracked-keeps s.factory id (names slots) refs env.registry d.0 h.1,
            ),
            λ k a.
                ground
                  (arith, get-track_and_bump s.factory k id env.registry, ==_iff s.factory k, a.0),
          )
    | inr t ↦
        let (e1, h1, f) = sweep_first-IsPass test slots refs env h.1 d.1 in
        rw t (ap (λ l. s.factory ∷ l) e1, (f s.factory d.0 ∙ h.0, h1), λ k a. f k a.1)
  ]
  sweep_first-IsPass test [] (r ∷ refs) env h d = absurd h
  sweep_first-IsPass test (s ∷ slots) [] env h d = absurd h

  -- The initial pass never fails, and tracks each name.
  pub spawn_pass-IsPass :
      (slots : List (ChildSpec K)) (env : Shared K)
      → IsDistinct (names slots)
      → (slots' : List (ChildSpec K)) × (refs : List ActorId) × (env' : Shared K) × (spawn_pass
            (named_spawner channel K)
            slots
            env
          ≡ (some (slots', refs), env'))
        × IsPass (names slots) env slots' refs env'
  unfolding spawn_pass spawn_next prepend set_id
  spawn_pass-IsPass [] env d = ([], [], env, refl, (refl, tt, λ k a. refl))
  spawn_pass-IsPass (s ∷ slots) env d =
      let (id, world, q) = spawn_named-tracks s.factory env in
      let env₁ : Shared K = record env {
        world = world;
        registry = track_and_bump s.factory id env.registry;
      } in
      let (slots', refs, env', q', (e1, h1, f)) = spawn_pass-IsPass slots env₁ d.1 in
      (
        set_id id s ∷ slots',
        id ∷ refs,
        env',
        rw (q, spawn_pass, spawn_next) (rw (q', prepend) refl),
        (
          ap (λ l. s.factory ∷ l) e1,
          (
            f s.factory d.0
                ∙ ground (
                  arith,
                  get-track_and_bump s.factory s.factory id env.registry,
                  ==_refl s.factory,
                ),
            h1,
          ),
          λ k a.
              f k a.1
              ∙ ground
                  (arith, get-track_and_bump s.factory k id env.registry, ==_iff s.factory k, a.0),
        ),
      )
