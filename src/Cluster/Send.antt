-- ===== src/Cluster/Send.antt =====
-- How src/distributed.rs sends to the members of the roster: to all, to some, to a key's node and
-- its replicas, and in turn.
use lane_switchboards.Base.{nat_eq, string_eq, ℕ, String, none, some, List, [], ◌∷◌, map}
use lane_switchboards.HashRing.{Hashing, get_nodes}
use lane_switchboards.Cluster.{
  Cluster, ClusterMember, RemoteActorRef, PeerWriter, Call, panics, returns, Sent, sent,
  not_connected, send, ref_by_name, ref_for_key, next_ref,
}

-- What each send came to, under the name of its member.
abbrev pub Results : Type 0
Results = List (String × Sent)

module _ {M : Type 0} where
  -- The loop of `send_all`, over the members and their references side by side.
  unfoldable pub send_each :
      M
      → List ClusterMember
      → List RemoteActorRef
      → List (PeerWriter M)
      → Results × List (PeerWriter M)
  unfolding send
  send_each msg [] refs writers = ([], writers)
  send_each msg (m ∷ members) [] writers = ([], writers)
  send_each msg (m ∷ members) (r ∷ refs) writers =
      let (result, writers') = send r msg writers in
      let (results, last) = send_each msg members refs writers' in
      ((m.name, result) ∷ results, last)

  unfoldable pub send_all : M → Cluster → List (PeerWriter M) → Results × List (PeerWriter M)
  unfolding send_each
  send_all msg c writers = send_each msg c.members c.refs writers

-- `first_err.get_or_insert(e)` over the results.
unfoldable pub first_error : Results → Sent
first_error [] = sent
first_error ((name, sent) ∷ results) = first_error results
first_error ((name, not_connected) ∷ results) = not_connected

module _ {M : Type 0} where
  unfoldable pub broadcast : M → Cluster → List (PeerWriter M) → Sent × List (PeerWriter M)
  unfolding send_all first_error
  broadcast msg c writers =
      let (results, writers') = send_all msg c writers in (first_error results, writers')

  -- The loop of `send_to` and of `send_replicas`: a name that is not on the roster is passed over.
  unfoldable pub send_to :
      M → List String → Cluster → List (PeerWriter M) → Call (Results × List (PeerWriter M))
  unfolding ref_by_name send
  send_to msg [] c writers = returns ([], writers)
  send_to msg (name ∷ names) c writers =
      let skip = send_to msg names c writers in
      let next = λ (r : RemoteActorRef). send_to msg names c (send r msg writers).1 in
      elim (ref_by_name name c) [
        | panics ↦ panics
        | returns none ↦ skip
        | returns (some r) ↦ elim (next r) [
          | panics ↦ panics
          | returns (results, last) ↦ returns ((name, (send r msg writers).0) ∷ results, last)
        ]
      ]

module _ {M : Type 0} (hs : Hashing) where
  unfoldable pub send_replicas :
      List ℕ → ℕ → M → Cluster → List (PeerWriter M) → Call (Results × List (PeerWriter M))
  unfolding send_to get_nodes
  send_replicas key count msg c writers =
      send_to msg (map (λ node. node.id) (get_nodes hs key count c.ring)) c writers

  unfoldable pub send_by_key :
      List ℕ → M → Cluster → List (PeerWriter M) → Call (Sent × List (PeerWriter M))
  unfolding ref_for_key send
  send_by_key key msg c writers = elim (ref_for_key hs key c) [
    | panics ↦ panics
    | returns none ↦ returns (not_connected, writers)
    | returns (some r) ↦ returns (send r msg writers)
  ]

module _ {M : Type 0} where
  unfoldable pub send_round_robin :
      M → Cluster → List (PeerWriter M) → Call (Cluster × Sent × List (PeerWriter M))
  unfolding next_ref send
  send_round_robin msg c writers = elim (next_ref c) [
    | panics ↦ panics
    | returns (c', none) ↦ returns (c', not_connected, writers)
    | returns (c', some r) ↦
        let (result, writers') = send r msg writers in returns (c', result, writers')
  ]
