-- ===== src/Tests/Meshes.antt =====
-- A format of control messages, a registry with one record, and a node, for the theorems on what
-- the parts of the mesh do together.
use mathlib.Core.Path.{subst}
use lane_switchboards.Base.{
  nat_eq, string_eq, pair_eq, ℕ, String, ◌≡◌, Bool, true, ◌&&◌, Option, none, some, List, [], ◌∷◌,
  arith, if◌then◌else◌, ◌==◌, ==_iff, ◌<◌, refl, ap, ◌∙◌, inl, inr, false, Bool-cases, length,
  lookup,
}
use lane_switchboards.HashRing.Address.{parse_host_port}
use lane_switchboards.Frames.Node.{Node, Channel, Host}
use lane_switchboards.Frames.Writer.{Attempt, refused, whole, cut, accepted}
use lane_switchboards.Mesh.{ServiceRecord}
use lane_switchboards.Mesh.Registry.{
  MeshControlMsg, register_msg, deregister_msg, list_msg, list_reply, ping, pong, Arrival, message,
}
use lane_switchboards.Mesh.Control.{ControlJson}
use lane_switchboards.Mesh.Client.{MeshRegistryClient}
use lane_switchboards.Mesh.Keyed.{IsRegistry}
use lane_switchboards.Mesh.Snapshot.{IsAddressed}
use lane_switchboards.Mesh.Wire.{IsControlCodec}
use lane_switchboards.Tests.Clusters.{record_b, registry_b}

abbrev is_b : ServiceRecord → Bool
is_b r =
    r.service == "orders"
    && r.instance_id == "bb"
    && r.address == "10.0.0.2:9002"
    && r.target == "worker"

is_b_lem :
    (s i a t : String) (n : ℕ)
    → is_b (record { service = s; instance_id = i; address = a; target = t; registered_at = n })
      ≡ true
    → (("orders" ≡ s) × ("bb" ≡ i) × ("10.0.0.2:9002" ≡ a) × ("worker" ≡ t))
is_b_lem s i a t n h = (
  ground (arith, ==_iff s "orders"),
  ground (arith, ==_iff i "bb"),
  ground (arith, ==_iff a "10.0.0.2:9002"),
  ground (arith, ==_iff t "worker"),
)

is_b-record_b :
    (r : ServiceRecord) → is_b r ≡ true → record record_b { registered_at = r.registered_at } ≡ r
is_b-record_b r h =
    let (e1, e2, e3, e4) = is_b_lem r.service r.instance_id r.address r.target r.registered_at h in
    ap (λ x. record record_b { service = x; registered_at = r.registered_at }) e1
    ∙ ap
        (λ x. record record_b {
          service = r.service;
          instance_id = x;
          registered_at = r.registered_at;
        })
        e2
    ∙ ap (λ x. record r { address = x; target = "worker" }) e3
    ∙ ap (λ x. record r { target = x }) e4

unfoldable pub encode_control : MeshControlMsg → Option (List ℕ)
encode_control list_msg = some (1 ∷ [])
encode_control pong = some (2 ∷ [])
encode_control ping = none
encode_control (deregister_msg service instance_id) = none
encode_control (register_msg r) = if is_b r then some (6 ∷ r.registered_at ∷ []) else none
encode_control (list_reply []) = none
encode_control (list_reply (r ∷ [])) = if is_b r then some (5 ∷ r.registered_at ∷ []) else none
encode_control (list_reply (r ∷ q ∷ rs)) = none

unfoldable pub parse_control_bytes : List ℕ → Option MeshControlMsg
parse_control_bytes [] = none
parse_control_bytes (k ∷ []) = if k == 1 then some list_msg else some pong
parse_control_bytes (k ∷ n ∷ []) =
    let r : ServiceRecord = record record_b { registered_at = n } in
    if k == 5 then some (list_reply (r ∷ [])) else some (register_msg r)
parse_control_bytes (k ∷ n ∷ m ∷ bytes) = none

abbrev pub small_json : ControlJson
small_json = record { to_vec = encode_control; from_slice = parse_control_bytes }

pub small_json-IsControlCodec : IsControlCodec small_json
unfolding encode_control parse_control_bytes
small_json-IsControlCodec list_msg body e = ground arith
small_json-IsControlCodec pong body e = ground arith
small_json-IsControlCodec ping body e = cc
small_json-IsControlCodec (deregister_msg service instance_id) body e = cc
small_json-IsControlCodec (register_msg r) body e = elim (Bool-cases (is_b r)) [
  | inl t ↦
      let same : 6 ∷ r.registered_at ∷ [] ≡ body = ground arith in
      subst (λ (b : List ℕ). (0 < length b) × (parse_control_bytes b ≡ some (register_msg r))) same
        (omega arith, ap (λ q. some (register_msg q)) (is_b-record_b r t))
  | inr t ↦ absurd (ground arith)
]
small_json-IsControlCodec (list_reply []) body e = cc
small_json-IsControlCodec (list_reply (r ∷ [])) body e = elim (Bool-cases (is_b r)) [
  | inl t ↦
      let same : 5 ∷ r.registered_at ∷ [] ≡ body = ground arith in
      subst (λ (b : List ℕ). (0 < length b) × (parse_control_bytes b ≡ some (list_reply (r ∷ []))))
        same (omega arith, ap (λ q. some (list_reply (q ∷ []))) (is_b-record_b r t))
  | inr t ↦ absurd (ground arith)
]
small_json-IsControlCodec (list_reply (r ∷ q ∷ rs)) body e = cc

pub registry_b-IsRegistry : IsRegistry registry_b
unfolding lookup
registry_b-IsRegistry = ((refl, tt), (refl, tt))

pub record_b-IsAddressed : IsAddressed record_b
unfolding parse_host_port
record_b-IsAddressed = (("10.0.0.2", 9002), refl)

abbrev pub new_one : MeshRegistryClient
new_one = record { registry_addr = "10.0.0.9:7000"; stream = none; tls = false }

abbrev pub node_b : Node
node_b = record { name = "bb"; bind_addr = "10.0.0.2:9002"; dispatch = ("w", 0) ∷ ("x", 1) ∷ [] }

abbrev pub first_channel : Channel ℕ
first_channel = record { queue = 4 ∷ []; closed = false }

abbrev pub two_channels : List (Channel ℕ)
two_channels = first_channel ∷ record { queue = []; closed = false } ∷ []

abbrev pub empty_host : Host ℕ
empty_host = record { actors = []; nodes = []; channels = []; bridges = [] }

abbrev pub bad_network : List Attempt
bad_network = refused false ∷ accepted (whole ∷ cut 3 ∷ []) ∷ accepted (whole ∷ []) ∷ []

abbrev pub arrivals : List (Arrival × ℕ × Bool)
arrivals =
    (message (register_msg record_b), 5, true)
    ∷ (message list_msg, 6, true)
    ∷ (message ping, 7, false)
    ∷ []
