-- ===== src/Cluster.antt =====
-- The roster of src/distributed.rs: `RemoteActorRef` and `Cluster`. A reference sends into the
-- channel of its writer task, which stands in a store of writers; the task itself (connecting,
-- framing, and writing to TCP) is not modelled, only whether it still receives. A call that panics
-- is `panics`.
pub mod Swap
pub mod Index
pub mod Find
pub mod Roster
pub mod Send
pub mod Dispatch
use lane_switchboards.Base.{
  nat_eq, string_eq, ℕ, ◌+◌, ◌%◌, ◌^◌, String, Bool, false, Option, none, some, List, [], ◌∷◌, ◌++◌,
  if◌then◌else◌, ◌==◌, length, get_elem?, set, find, Map, lookup, insert, remove,
}
use lane_switchboards.Config.{DistributedConfig, default_distributed_config}
use lane_switchboards.HashRing.{Hashing, RingNode, HashRing, new, add_node, remove_node, get_node}
use lane_switchboards.HashRing.Address.{ok, err, parse_host_port}
use lane_switchboards.Cluster.Swap.{swap_remove}

-- What a call comes to: it returns, or it panics.
pub data Call {ℓ} (A : Type ℓ) : Type ℓ where
  panics : Call A
  returns : A → Call A

-- `&xs[i]`.
unfoldable pub index {ℓ} : {A : Type ℓ} → List A → ℕ → Call A
index xs i = elim (get_elem? xs i) [ some a ↦ returns a | none ↦ panics ]

-- The result of a send: done, or an error with the kind `NotConnected`.
pub data Sent : Type 0 where
  sent not_connected : Sent

-- A writer task: what its channel was given, and whether the task has gone.
pub record PeerWriter (M : Type 0) : Type 0 where
  pub taken : List M
  pub gone : Bool

pub record RemoteActorRef : Type 0 where
  pub node_addr : String
  pub target : String
  pub writer : ℕ

pub record ClusterMember : Type 0 where
  pub name : String
  pub node_addr : String
  pub target : String

pub record Cluster : Type 0 where
  pub members : List ClusterMember
  pub refs : List RemoteActorRef
  pub refs_by_id : Map String ℕ
  pub ring : HashRing
  pub next : ℕ
  pub distributed_config : DistributedConfig

unfoldable pub with_virtual_nodes : ℕ → Cluster
unfolding new
with_virtual_nodes virtual_nodes = record {
  members = [];
  refs = [];
  refs_by_id = [];
  ring = new virtual_nodes;
  next = 0;
  distributed_config = default_distributed_config;
}

unfoldable pub new_cluster : Cluster
unfolding with_virtual_nodes
new_cluster = with_virtual_nodes 150

unfoldable pub len : Cluster → ℕ
len c = length c.refs

unfoldable pub is_empty : Cluster → Bool
is_empty c = length c.refs == 0

-- `RingNode::from_socket_addr`, which panics where the address does not parse.
unfoldable pub ring_node : ClusterMember → Call RingNode
unfolding parse_host_port
ring_node m = elim (parse_host_port m.node_addr) [
  | ok (host, port) ↦ returns (record { id = m.name; host = host; port = port })
  | err e ↦ panics
]

module _ {M : Type 0} where
  -- `with_config`: a new channel and its writer task.
  unfoldable pub remote_ref_with :
      ClusterMember → List (PeerWriter M) → RemoteActorRef × List (PeerWriter M)
  remote_ref_with m writers = (
    record { node_addr = m.node_addr; target = m.target; writer = length writers },
    writers ++ record { taken = []; gone = false } ∷ [],
  )

  -- `RemoteActorRef::send`.
  unfoldable pub send : RemoteActorRef → M → List (PeerWriter M) → Sent × List (PeerWriter M)
  send r msg writers = elim (get_elem? writers r.writer) [
    | none ↦ (not_connected, writers)
    | some w ↦
        if w.gone
        then (not_connected, writers)
        else (sent, set writers r.writer (record w { taken = w.taken ++ msg ∷ [] }))
  ]

-- What `join` does once the member's address is parsed.
unfoldable pub enrol : Hashing → RingNode → ClusterMember → RemoteActorRef → Cluster → Cluster
unfolding add_node
enrol hs node m r c = record c {
  ring = add_node hs node c.ring;
  refs_by_id = insert m.name (length c.refs) c.refs_by_id;
  refs = c.refs ++ r ∷ [];
  members = c.members ++ m ∷ [];
}

module _ {M : Type 0} (hs : Hashing) where
  unfoldable pub join :
      ClusterMember → Cluster → List (PeerWriter M) → Call (Cluster × List (PeerWriter M))
  unfolding enrol remote_ref_with ring_node
  join m c writers =
      let (r, writers') = remote_ref_with m writers in
      elim (ring_node m) [
        | panics ↦ panics
        | returns node ↦ returns (enrol hs node m r c, writers')
      ]

-- The member that was moved into the place of the one that left is entered at its new place.
unfoldable pub reindex : ℕ → List ClusterMember → Map String ℕ → Map String ℕ
reindex idx members refs_by_id = elim (get_elem? members idx) [
  | none ↦ refs_by_id
  | some moved ↦ insert moved.name idx refs_by_id
]

module _ (hs : Hashing) where
  unfoldable pub leave : String → Cluster → Call (Cluster × Option ClusterMember)
  unfolding remove_node swap_remove reindex
  leave node_id c =
      let (ring, removed) = remove_node hs node_id c.ring in
      let without = remove node_id c.refs_by_id in
      elim removed [
        | none ↦ returns (record c { ring = ring }, none)
        | some node ↦ elim (lookup node_id c.refs_by_id) [
          | none ↦ returns (record c { ring = ring }, none)
          | some idx ↦ elim (swap_remove idx c.refs) [
            | none ↦ panics
            | some (r, refs) ↦ elim (swap_remove idx c.members) [
              | none ↦ panics
              | some (member, members) ↦ returns (
                record c {
                  ring = ring;
                  refs = refs;
                  members = members;
                  refs_by_id = reindex idx members without;
                },
                some member,
              )
            ]
          ]
        ]
      ]

  unfoldable pub member_for_key : List ℕ → Cluster → Option ClusterMember
  unfolding get_node
  member_for_key key c = elim (get_node hs key c.ring) [
    | none ↦ none
    | some node ↦ find (λ m. m.name == node.id) c.members
  ]

unfoldable pub ref_by_name : String → Cluster → Call (Option RemoteActorRef)
unfolding index
ref_by_name name c = elim (lookup name c.refs_by_id) [
  | none ↦ returns none
  | some i ↦ elim (index c.refs i) [ panics ↦ panics | returns r ↦ returns (some r) ]
]

module _ (hs : Hashing) where
  unfoldable pub ref_for_key : List ℕ → Cluster → Call (Option RemoteActorRef)
  unfolding get_node ref_by_name
  ref_for_key key c = elim (get_node hs key c.ring) [
    | none ↦ returns none
    | some node ↦ ref_by_name node.id c
  ]

-- The next reference in turn, and the counter's new value; an error on an empty roster.
unfoldable pub next_ref : Cluster → Call (Cluster × Option RemoteActorRef)
unfolding index
next_ref c =
    if length c.refs == 0 then returns (c, none) else elim (index c.refs (c.next % length c.refs)) [
      | panics ↦ panics
      | returns r ↦ returns (record c { next = (c.next + 1) % 2 ^ 64 }, some r)
    ]
