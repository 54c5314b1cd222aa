-- ===== src/Mesh/Registry.antt =====
-- The control plane of src/mesh.rs: `MeshRegistry`, its leases, and the connection handler. The
-- clock's seconds are an argument of each call.
use lane_switchboards.Base.{
  nat_eq, string_eq, pair_eq, ℕ, ◌-◌, String, Bool, not, Option, none, some, List, [], ◌∷◌, ltb,
  if◌then◌else◌, filter_by, Map, values, lookup, insert, remove, as_secs, from_secs,
}
use lane_switchboards.Mesh.{ServiceRecord}

abbrev pub default_record_ttl : ℕ
default_record_ttl = from_secs 30

unfoldable pub record_expired : ServiceRecord → ℕ → ℕ → Bool
record_expired r now ttl = ltb (as_secs ttl) (now - r.registered_at)

pub record MeshRegistry : Type 0 where
  pub records : Map (String × String) ServiceRecord
  pub ttl : ℕ

unfoldable pub with_ttl : ℕ → MeshRegistry
with_ttl ttl = record { records = []; ttl = ttl }

unfoldable pub register : ℕ → ServiceRecord → MeshRegistry → MeshRegistry
register now r reg = record reg {
  records = insert (r.service, r.instance_id) (record r { registered_at = now }) reg.records;
}

unfoldable pub deregister : String → String → MeshRegistry → MeshRegistry × Option ServiceRecord
deregister service instance_id reg = (
  record reg { records = remove (service, instance_id) reg.records },
  lookup (service, instance_id) reg.records,
)

unfoldable pub list : ℕ → MeshRegistry → List ServiceRecord
unfolding record_expired
list now reg = filter_by (λ r. not (record_expired r now reg.ttl)) (values reg.records)

unfoldable pub evict_expired : ℕ → MeshRegistry → MeshRegistry
unfolding record_expired
evict_expired now reg = record reg {
  records = filter_by (λ e. not (record_expired e.1 now reg.ttl)) reg.records;
}

pub data MeshControlMsg : Type 0 where
  register_msg : ServiceRecord → MeshControlMsg
  deregister_msg : String → String → MeshControlMsg
  list_msg : MeshControlMsg
  list_reply : List ServiceRecord → MeshControlMsg
  ping pong : MeshControlMsg

-- What the read of the next message comes to: the peer closed, a message, an error, or the time
-- limit.
pub data Arrival : Type 0 where
  closed : Arrival
  message : MeshControlMsg → Arrival
  failed timed_out : Arrival

-- How a connection ends; a peer that is still there is `waiting`.
pub data ConnEnd : Type 0 where
  waiting finished read_failed read_timed_out write_failed : ConnEnd

-- The change of the registry and the reply to one message at a time.
unfoldable pub answer : ℕ → MeshControlMsg → MeshRegistry → MeshRegistry × Option MeshControlMsg
unfolding register deregister list
answer now (register_msg r) reg = (register now r reg, some pong)
answer now (deregister_msg service instance_id) reg =
    ((deregister service instance_id reg).0, some pong)
answer now list_msg reg = (reg, some (list_reply (list now reg)))
answer now ping reg = (reg, some pong)
answer now pong reg = (reg, none)
answer now (list_reply rs) reg = (reg, none)

-- `handle_registry_conn`: each arrival comes with the clock and with whether the reply can be
-- written. It gives the registry, the replies written, and the end.
unfoldable pub handle_registry_conn :
    List (Arrival × ℕ × Bool) → MeshRegistry → MeshRegistry × List MeshControlMsg × ConnEnd
unfolding answer
handle_registry_conn [] reg = (reg, [], waiting)
handle_registry_conn ((closed, now, writable) ∷ arrivals) reg = (reg, [], finished)
handle_registry_conn ((failed, now, writable) ∷ arrivals) reg = (reg, [], read_failed)
handle_registry_conn ((timed_out, now, writable) ∷ arrivals) reg = (reg, [], read_timed_out)
handle_registry_conn ((message msg, now, writable) ∷ arrivals) reg =
    let (reg', reply) = answer now msg reg in
    let (last, replies, end) = handle_registry_conn arrivals reg' in
    elim reply [
      | none ↦ (last, replies, end)
      | some m ↦ if writable then (last, m ∷ replies, end) else (reg', [], write_failed)
    ]
