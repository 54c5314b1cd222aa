-- ===== src/Supervisor/Children.antt =====
-- src/supervisor.rs: `ChildRegistry` and `ChildSlot`, the references that outlive a restart, and
-- the factories that keep them current. An `ActorRef` is its identifier; the mutex makes each
-- method one step.
use lane_switchboards.Base.{
  nat_eq, ℕ, ◌+◌, ◌<◌, String, ◌≡◌, Option, none, some, [], arith, if◌then◌else◌, Eq, ◌==◌, Map,
  lookup, insert, lookup-insert, inc64, u64_max,
}
use lane_switchboards.Actor.Types.{ActorId}
use lane_switchboards.Actor.World.{World}
use lane_switchboards.Actor.Spawn.{spawned}
use lane_switchboards.Supervisor.{Spawner}

-- `RegistryInner`.
pub record ChildRegistry {ℓ} (K : Type ℓ) : Type ℓ where
  pub refs : Map K ActorId
  pub generations : Map K ℕ

unfoldable pub new_registry {ℓ} : {K : Type ℓ} → ChildRegistry K
new_registry = record { refs = []; generations = [] }

module _ {ℓ} {K : Type ℓ} ⦃e : Eq K⦄ where
  unfoldable pub get : K → ChildRegistry K → Option ActorId
  get name r = lookup name r.refs

  unfoldable pub track : K → ActorId → ChildRegistry K → ChildRegistry K
  track name actor_ref r = record r { refs = insert name actor_ref r.refs }

  -- `.get(name).copied().unwrap_or(0)`.
  unfoldable pub generation : K → ChildRegistry K → ℕ
  generation name r = elim (lookup name r.generations) [ none ↦ 0 | some n ↦ n ]

  -- `*entry(name).or_insert(0) += 1`; the source panics on overflow in a debug build and wraps in a
  -- release build, as here.
  unfoldable pub bump_generation : K → ChildRegistry K → ChildRegistry K
  unfolding generation
  bump_generation name r = record r {
    generations = insert name (inc64 (generation name r)) r.generations;
  }

  unfoldable pub track_and_bump : K → ActorId → ChildRegistry K → ChildRegistry K
  unfolding track bump_generation
  track_and_bump name actor_ref r = bump_generation name (track name actor_ref r)

  unfoldable pub get_with_generation : K → ChildRegistry K → Option (ActorId × ℕ)
  unfolding generation
  get_with_generation name r = elim (lookup name r.refs) [
    | none ↦ none
    | some actor_ref ↦ some (actor_ref, generation name r)
  ]

  -- The child's new instance, under its name: what the references and the generations say
  -- afterwards, of this name and of every other. The generation is below the largest `u64`.
  pub track_and_bump-updates :
      (name j : K) (actor_ref : ActorId) (r : ChildRegistry K)
      → generation name r < u64_max
      → get_with_generation j (track_and_bump name actor_ref r)
        ≡ (if name == j then some (actor_ref, generation name r + 1) else get_with_generation j r)
  unfolding track_and_bump get_with_generation
  track_and_bump-updates name j actor_ref r h = ground (
    arith,
    lookup-insert name j actor_ref r.refs,
    lookup-insert name j (inc64 (generation name r)) r.generations,
  )

-- `ChildSlot`.
abbrev pub ChildSlot : Type 0
ChildSlot = Option ActorId

unfoldable pub require : ChildSlot → Option ActorId × Option String
require none = (none, some "supervised child not running")
require (some actor_ref) = (some actor_ref, none)

-- What the factories act on: the runtime's shared state, and the registry of the children's names.
pub record Shared {ℓ} (K : Type ℓ) : Type ℓ where
  pub world : World
  pub registry : ChildRegistry K
  pub slot : ChildSlot

module _ (supervisor_channel : ℕ) {K : Type 0} ⦃e : Eq K⦄ where
  -- The closure of `spawn_child_spec` for a name. A spawn does not fail, nor does it panic: the actors'
  -- mailbox capacity is not 0, or `start_settled` would have panicked in its first spawn.
  unfoldable pub spawn_named : K → Shared K → Option ActorId × Shared K
  spawn_named name s =
      let (id, world) = spawned (some supervisor_channel) s.world in
      (some id, record s { world = world; registry = track_and_bump name id s.registry })

  -- The closure of `ChildSlot::child_spec`.
  unfoldable pub spawn_slot : Shared K → Option ActorId × Shared K
  spawn_slot s =
      let (id, world) = spawned (some supervisor_channel) s.world in
      (some id, record s { world = world; slot = some id })

-- The supervisor's interface, filled by the runtime: the factories are names, and a stop goes to
-- the actor's mailbox, of which the shared state keeps nothing.
abbrev pub named_spawner : ℕ → (K : Type 0) ⦃e : Eq K⦄ → Spawner
named_spawner supervisor_channel K = record {
  Env = Shared K;
  Factory = K;
  restart = spawn_named supervisor_channel;
  stop = λ id s. s;
}
