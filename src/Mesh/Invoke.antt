-- ===== src/Mesh/Invoke.antt =====
-- The calls of src/mesh.rs that pass to a service's roster: `ring`, `invoke_all`, `invoke_any` and
-- `ref_for_key` of `ServiceMesh`, and those of `MeshRouter`.
use lane_switchboards.Base.{
  nat_eq, string_eq, ℕ, String, Option, none, some, List, [], lookup, insert,
}
use lane_switchboards.HashRing.{Hashing, HashRing}
use lane_switchboards.Cluster.{RemoteActorRef, PeerWriter, Call, panics, returns, Sent, ref_for_key}
use lane_switchboards.Cluster.Send.{Results, send_all, send_round_robin}
use lane_switchboards.Mesh.{ServiceMesh}

unfoldable pub ring_of : String → ServiceMesh → Option HashRing
ring_of service mesh = elim (lookup service mesh.routes) [ none ↦ none | some c ↦ some c.ring ]

module _ {M : Type 0} where
  unfoldable pub invoke_all :
      String → M → ServiceMesh → List (PeerWriter M) → Results × List (PeerWriter M)
  unfolding send_all
  invoke_all service msg mesh writers = elim (lookup service mesh.routes) [
    | none ↦ ([], writers)
    | some c ↦ send_all msg c writers
  ]

  -- It fails with `NotFound` on a service without a route; the roster's turn has moved afterwards.
  unfoldable pub invoke_any :
      String
      → M
      → ServiceMesh
      → List (PeerWriter M)
      → Option (Call (ServiceMesh × Sent × List (PeerWriter M)))
  unfolding send_round_robin
  invoke_any service msg mesh writers = elim (lookup service mesh.routes) [
    | none ↦ none
    | some c ↦ some (elim (send_round_robin msg c writers) [
      | panics ↦ panics
      | returns (c', result, writers') ↦
          returns (record { routes = insert service c' mesh.routes }, result, writers')
    ])
  ]

unfoldable pub service_ref_for_key :
    Hashing → String → List ℕ → ServiceMesh → Call (Option RemoteActorRef)
unfolding ref_for_key
service_ref_for_key hs service key mesh = elim (lookup service mesh.routes) [
  | none ↦ returns none
  | some c ↦ ref_for_key hs key c
]
