-- ===== src/Mesh/Server.antt =====
-- `MeshRegistryServer` of src/mesh.rs: its task that accepts connections, the task of each
-- connection, and the task that evicts, over the events that wake them, in the order in which they
-- come.
pub mod Turns
use lane_switchboards.Base.{
  nat_eq, ℕ, Bool, true, false, not, List, [], ◌∷◌, if◌then◌else◌, ◌==◌, filter_by, ◌&&◌, any,
}
use lane_switchboards.Mesh.Registry.{
  MeshRegistry, default_record_ttl, Arrival, ConnEnd, waiting, handle_registry_conn, evict_expired,
}

-- `connections` are the numbers of the open ones; `listening` is whether the accepting task runs.
pub record MeshRegistryServer : Type 0 where
  pub registry : MeshRegistry
  pub connections : List ℕ
  pub listening : Bool

-- A connection comes, and its TLS handshake, if there is one, succeeds or not; accepting fails; the
-- read of the next message of a connection comes to something; the interval of eviction is over.
pub data ServerEvent : Type 0 where
  accepted : ℕ → Bool → ServerEvent
  accept_failed : ServerEvent
  arrived : ℕ → Arrival × ℕ × Bool → ServerEvent
  ticked : ℕ → ServerEvent

-- What the server starts from, once its listener is bound.
abbrev pub bound : MeshRegistryServer
bound = record {
  registry = record { records = []; ttl = default_record_ttl };
  connections = [];
  listening = true;
}

unfoldable pub close : ℕ → List ℕ → List ℕ
close n connections = filter_by (λ m. not (m == n)) connections

-- One turn of the task of a connection, which ends unless it waits for the next message.
unfoldable pub turn : ℕ → MeshRegistry × ConnEnd → MeshRegistryServer → MeshRegistryServer
unfolding close
turn n (registry, waiting) s = record s { registry = registry }
turn n (registry, end) s = record s { registry = registry; connections = close n s.connections }

unfoldable pub on_event : ServerEvent → MeshRegistryServer → MeshRegistryServer
unfolding turn handle_registry_conn evict_expired
on_event (accepted n secured) s =
    if s.listening && secured then record s { connections = n ∷ s.connections } else s
on_event accept_failed s = record s { listening = false }
on_event (arrived n arrival) s =
    let (registry, replies, end) = handle_registry_conn (arrival ∷ []) s.registry in
    if any (λ m. m == n) s.connections then turn n (registry, end) s else s
on_event (ticked now) s = record s { registry = evict_expired now s.registry }

unfoldable pub run : List ServerEvent → MeshRegistryServer → MeshRegistryServer
unfolding on_event
run [] s = s
run (event ∷ events) s = run events (on_event event s)
