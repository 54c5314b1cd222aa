-- ===== src/Mesh.antt =====
-- The service mesh of src/mesh.rs: `ServiceMesh`, one roster of instances to each service. The hash
-- maps are their lists of entries.
pub mod Registry
pub mod Lease
pub mod View
pub mod Sound
pub mod Routes
pub mod Stale
pub mod Latest
pub mod Snapshot
pub mod Invoke
pub mod Control
pub mod Server
pub mod Client
pub mod Service
pub mod Router
pub mod Wire
pub mod Keyed
pub mod Request
pub mod Synced
use lane_switchboards.Base.{
  nat_eq, string_eq, pair_eq, ℕ, String, not, Option, none, some, List, [], ◌∷◌, map, if◌then◌else◌,
  ◌==◌, filter_by, any, Map, keys, values, lookup, insert, remove, contains_key,
}
use lane_switchboards.HashRing.{Hashing}
use lane_switchboards.Cluster.{
  Cluster, ClusterMember, PeerWriter, Call, panics, returns, new_cluster, len, is_empty, join,
  leave, Sent,
}
use lane_switchboards.Cluster.Send.{send_by_key}

-- A running instance of a service; `registered_at` is in seconds.
pub record ServiceRecord : Type 0 where
  pub service : String
  pub instance_id : String
  pub address : String
  pub target : String
  pub registered_at : ℕ

unfoldable pub member : ServiceRecord → ClusterMember
member r = record { name = r.instance_id; node_addr = r.address; target = r.target }

-- The record that the mesh gives for a member of a service's roster.
unfoldable pub record_of : String → ClusterMember → ServiceRecord
record_of service m = record {
  service = service;
  instance_id = m.name;
  address = m.node_addr;
  target = m.target;
  registered_at = 0;
}

pub record ServiceMesh : Type 0 where
  pub routes : Map String Cluster

unfoldable pub new_mesh : ServiceMesh
new_mesh = record { routes = [] }

unfoldable pub instance_count : String → ServiceMesh → ℕ
unfolding len
instance_count service mesh = elim (lookup service mesh.routes) [ none ↦ 0 | some c ↦ len c ]

unfoldable pub records : String → ServiceMesh → List ServiceRecord
unfolding record_of
records service mesh = elim (lookup service mesh.routes) [
  | none ↦ []
  | some c ↦ map (record_of service) c.members
]

-- `entry(service).or_insert_with(..)`.
unfoldable pub route_or_new : String → ServiceMesh → Cluster
unfolding new_cluster
route_or_new service mesh = elim (lookup service mesh.routes) [ none ↦ new_cluster | some c ↦ c ]

module _ (hs : Hashing) where
  -- The old instance of the same identifier leaves the roster, if there is one.
  unfoldable pub displace : String → Cluster → Call (Cluster × Option ClusterMember)
  unfolding leave
  displace instance_id c =
      if any (λ m. m.name == instance_id) c.members
      then leave hs instance_id c
      else returns (c, none)

module _ {M : Type 0} (hs : Hashing) where
  -- `ServiceMesh::register`.
  unfoldable pub register_instance :
      ServiceRecord
      → ServiceMesh
      → List (PeerWriter M)
      → Call (ServiceMesh × Option ServiceRecord × List (PeerWriter M))
  unfolding displace join member route_or_new record_of
  register_instance r mesh writers =
      elim (displace hs r.instance_id (route_or_new r.service mesh)) [
        | panics ↦ panics
        | returns (c, left) ↦ elim (join hs (member r) c writers) [
          | panics ↦ panics
          | returns (c', writers') ↦ returns (
            record { routes = insert r.service c' mesh.routes },
            elim left [ none ↦ none | some m ↦ some (record_of r.service m) ],
            writers',
          )
        ]
      ]

module _ (hs : Hashing) where
  -- `ServiceMesh::deregister`: a roster without instances goes from the routes.
  unfoldable pub deregister_instance :
      String → String → ServiceMesh → Call (ServiceMesh × Option ServiceRecord)
  unfolding leave is_empty record_of
  deregister_instance service instance_id mesh = elim (lookup service mesh.routes) [
    | none ↦ returns (mesh, none)
    | some c ↦ elim (leave hs instance_id c) [
      | panics ↦ panics
      | returns (c', none) ↦ returns (record { routes = insert service c' mesh.routes }, none)
      | returns (c', some m) ↦ returns (
        record {
          routes =
              if is_empty c' then remove service mesh.routes else insert service c' mesh.routes;
        },
        some (record_of service m),
      )
    ]
  ]

  -- The inner loop of `apply_snapshot_diff`: each stale instance leaves.
  unfoldable pub leave_each : List String → Cluster → Call Cluster
  unfolding leave
  leave_each [] c = returns c
  leave_each (id ∷ ids) c = elim (leave hs id c) [
    | panics ↦ panics
    | returns (c', left) ↦ leave_each ids c'
  ]

  -- The outer loop, over the services that the mesh had.
  unfoldable pub drop_stale :
      Map (String × String) ServiceRecord → List String → ServiceMesh → Call ServiceMesh
  unfolding leave_each is_empty
  drop_stale incoming [] mesh = returns mesh
  drop_stale incoming (service ∷ services) mesh =
      let next = drop_stale incoming services in
      elim (lookup service mesh.routes) [
        | none ↦ next mesh
        | some c ↦
            let stale = filter_by (λ m. not (contains_key (service, m.name) incoming)) c.members in
            elim (leave_each (map (λ m. m.name) stale) c) [
              | panics ↦ panics
              | returns c' ↦ next (record {
                routes =
                    if is_empty c'
                    then remove service mesh.routes
                    else insert service c' mesh.routes;
              })
            ]
      ]

-- The snapshot under the records' keys: the last record of a key counts.
unfoldable pub incoming_of :
    List ServiceRecord → Map (String × String) ServiceRecord → Map (String × String) ServiceRecord
incoming_of [] incoming = incoming
incoming_of (r ∷ rs) incoming = incoming_of rs (insert (r.service, r.instance_id) r incoming)

module _ {M : Type 0} (hs : Hashing) where
  unfoldable pub register_each :
      List ServiceRecord
      → ServiceMesh
      → List (PeerWriter M)
      → Call (ServiceMesh × List (PeerWriter M))
  unfolding register_instance
  register_each [] mesh writers = returns (mesh, writers)
  register_each (r ∷ rs) mesh writers = elim (register_instance hs r mesh writers) [
    | panics ↦ panics
    | returns (mesh', displaced, writers') ↦ register_each rs mesh' writers'
  ]

  unfoldable pub apply_snapshot_diff :
      List ServiceRecord
      → ServiceMesh
      → List (PeerWriter M)
      → Call (ServiceMesh × List (PeerWriter M))
  unfolding incoming_of drop_stale register_each
  apply_snapshot_diff rs mesh writers =
      let incoming = incoming_of rs [] in
      elim (drop_stale hs incoming (keys mesh.routes) mesh) [
        | panics ↦ panics
        | returns mesh' ↦ register_each (values incoming) mesh' writers
      ]

  -- `invoke`, which fails with `NotFound` on a service without a route.
  unfoldable pub invoke :
      String
      → List ℕ
      → M
      → ServiceMesh
      → List (PeerWriter M)
      → Option (Call (Sent × List (PeerWriter M)))
  unfolding send_by_key
  invoke service key msg mesh writers = elim (lookup service mesh.routes) [
    | none ↦ none
    | some c ↦ some (send_by_key hs key msg c writers)
  ]
