-- ===== src/Registry.antt =====
-- src/registry.rs: the global index `ACTORS`. A channel's sender is the number of the channel.
use lane_switchboards.Base.{
  nat_eq, ℕ, Option, none, some, List, Map, lookup, insert, remove, keys, length,
}
use lane_switchboards.Actor.Types.{ActorId}

pub record ActorEntry : Type 0 where
  pub control : ℕ
  pub supervisor : Option ℕ

unfoldable pub register_actor :
    ActorId → ℕ → Option ℕ → Map ActorId ActorEntry → Map ActorId ActorEntry
register_actor id control supervisor actors =
    insert id (record { control = control; supervisor = supervisor }) actors

unfoldable pub unregister_actor : ActorId → Map ActorId ActorEntry → Map ActorId ActorEntry
unregister_actor id actors = remove id actors

unfoldable pub get_control_sender : ActorId → Map ActorId ActorEntry → Option ℕ
get_control_sender id actors = elim (lookup id actors) [ none ↦ none | some e ↦ some e.control ]

unfoldable pub get_supervisor_sender : ActorId → Map ActorId ActorEntry → Option ℕ
get_supervisor_sender id actors = elim (lookup id actors) [ none ↦ none | some e ↦ e.supervisor ]

unfoldable pub actor_count : Map ActorId ActorEntry → ℕ
actor_count actors = length actors

unfoldable pub registered_ids : Map ActorId ActorEntry → List ActorId
registered_ids actors = keys actors
