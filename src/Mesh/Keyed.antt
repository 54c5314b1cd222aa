-- ===== src/Mesh/Keyed.antt =====
-- The map of the registry in src/mesh.rs: its records stand under their own keys, and the list is
-- the live ones.
use mathlib.Core.Path.{subst}
use lane_switchboards.Base.{
  nat_eq, string_eq, pair_eq, ℕ, String, ◌≡◌, refl, sym, ap, ◌∙◌, inl, inr, Bool, not, Option, none,
  some, List, [], ◌∷◌, if◌then◌else◌, Bool-cases, Option-cases, ◌==◌, ==_iff, filter_by, Map,
  values, lookup, remove, IsMap, insert-IsMap, remove-IsMap,
}
use lane_switchboards.Mesh.{ServiceRecord}
use lane_switchboards.Mesh.Registry.{
  MeshRegistry, MeshControlMsg, register_msg, deregister_msg, list_msg, list_reply, ping, pong,
  Arrival, closed, message, failed, timed_out, record_expired, register, deregister, list, answer,
  handle_registry_conn,
}
use lane_switchboards.Mesh.Routes.{is_at}
use lane_switchboards.Mesh.Latest.{last_record, IsKeyed, insert-IsKeyed}

-- Each key has one record, which has that key's service and identifier.
abbrev pub IsRegistry : MeshRegistry → Type 0
IsRegistry reg = IsMap reg.records × IsKeyed reg.records

register-IsRegistry :
    (now : ℕ) (r : ServiceRecord) (reg : MeshRegistry)
    → IsRegistry reg
    → IsRegistry (register now r reg)
unfolding register
register-IsRegistry now r reg (h, k) = (
  insert-IsMap (r.service, r.instance_id) (record r { registered_at = now }) reg.records h,
  insert-IsKeyed (record r { registered_at = now }) reg.records k,
)

remove-IsKeyed :
    (key : String × String) (m : Map (String × String) ServiceRecord)
    → IsKeyed m
    → IsKeyed (remove key m)
unfolding remove
remove-IsKeyed key [] h = tt
remove-IsKeyed key ((j, r) ∷ m) h = elim (Bool-cases (j == key)) [
  | inl t ↦ rw t (remove-IsKeyed key m h.1)
  | inr t ↦ rw t (h.0, remove-IsKeyed key m h.1)
]

deregister-IsRegistry :
    (service instance_id : String) (reg : MeshRegistry)
    → IsRegistry reg
    → IsRegistry (deregister service instance_id reg).0
unfolding deregister
deregister-IsRegistry service instance_id reg (h, k) = (
  remove-IsMap (service, instance_id) reg.records h,
  remove-IsKeyed (service, instance_id) reg.records k,
)

answer-IsRegistry :
    (now : ℕ) (msg : MeshControlMsg) (reg : MeshRegistry)
    → IsRegistry reg
    → IsRegistry (answer now msg reg).0
unfolding answer
answer-IsRegistry now (register_msg r) reg h = register-IsRegistry now r reg h
answer-IsRegistry now (deregister_msg s i) reg h = deregister-IsRegistry s i reg h
answer-IsRegistry now list_msg reg h = h
answer-IsRegistry now ping reg h = h
answer-IsRegistry now pong reg h = h
answer-IsRegistry now (list_reply rs) reg h = h

-- Whatever comes over a connection, at whatever times, and however it ends, the registry keeps one
-- record to a key, under its own service and identifier.
pub handle_registry_conn-IsRegistry :
    (arrivals : List (Arrival × ℕ × Bool)) (reg : MeshRegistry)
    → IsRegistry reg
    → IsRegistry (handle_registry_conn arrivals reg).0
unfolding handle_registry_conn
handle_registry_conn-IsRegistry [] reg h = h
handle_registry_conn-IsRegistry ((closed, now, writable) ∷ arrivals) reg h = h
handle_registry_conn-IsRegistry ((failed, now, writable) ∷ arrivals) reg h = h
handle_registry_conn-IsRegistry ((timed_out, now, writable) ∷ arrivals) reg h = h
handle_registry_conn-IsRegistry ((message msg, now, writable) ∷ arrivals) reg h =
    let h₁ = answer-IsRegistry now msg reg h in
    let later = handle_registry_conn-IsRegistry arrivals (answer now msg reg).0 h₁ in
    elim (Option-cases (answer now msg reg).1) [
      | inl e ↦ rw (e, handle_registry_conn) later
      | inr (reply, e) ↦ elim (Bool-cases writable) [
        | inl t ↦ rw (e, t, handle_registry_conn) later
        | inr t ↦ rw (e, t, handle_registry_conn) h₁
      ]
    ]

-- The record, if its lease runs.
abbrev pub if_live : ℕ → ℕ → Option ServiceRecord → Option ServiceRecord
if_live now ttl none = none
if_live now ttl (some r) = if record_expired r now ttl then none else some r

-- The record of an instance whose lease runs.
abbrev pub live_record : ℕ → String → String → MeshRegistry → Option ServiceRecord
live_record now s i reg = if_live now reg.ttl (lookup (s, i) reg.records)

last_record-live :
    (now ttl : ℕ) (s i : String) (m : Map (String × String) ServiceRecord)
    → IsMap m
    → IsKeyed m
    → last_record s i (filter_by (λ r. not (record_expired r now ttl)) (values m))
      ≡ if_live now ttl (lookup (s, i) m)
unfolding lookup
last_record-live now ttl s i [] h k = refl
last_record-live now ttl s i ((key, r) ∷ m) h k =
    let rest = filter_by (λ x. not (record_expired x now ttl)) (values m) in
    let later : last_record s i rest ≡ if_live now ttl (lookup (s, i) m) =
      last_record-live now ttl s i m h.1 k.1 in
    let same : (key == (s, i)) ≡ is_at r.service r.instance_id s i = ap (λ x. x == (s, i)) k.0 in
    elim (Bool-cases (key == (s, i))) [
      | inl t ↦
          let gone : lookup (s, i) m ≡ none =
            subst (λ (x : String × String). lookup x m ≡ none) ((==_iff key (s, i)).0 t) h.0 in
          let none_ : last_record s i rest ≡ none = later ∙ ap (if_live now ttl) gone in
          elim (Bool-cases (record_expired r now ttl)) [
            | inl q ↦ rw (t, q) none_
            | inr q ↦ rw (t, q) (rw (none_, sym same) (rw t refl))
          ]
      | inr t ↦ elim (Bool-cases (record_expired r now ttl)) [
        | inl q ↦ rw (t, q) later
        | inr q ↦ elim (Option-cases (last_record s i rest)) [
          | inl e ↦ rw (t, q) (rw (e, sym same) (rw t (sym e ∙ later)))
          | inr (r', e) ↦ rw (t, q) (rw e (sym e ∙ later))
        ]
      ]
    ]

-- What the registry lists, seen by key, is the live records.
pub list-live_record :
    (now : ℕ) (s i : String) (reg : MeshRegistry)
    → IsRegistry reg
    → last_record s i (list now reg) ≡ live_record now s i reg
unfolding list
list-live_record now s i reg (h, k) = last_record-live now reg.ttl s i reg.records h k
