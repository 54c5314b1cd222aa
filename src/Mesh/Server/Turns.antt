-- ===== src/Mesh/Server/Turns.antt =====
-- What holds of the control plane of src/mesh.rs in whatever order its tasks take their turns.
use lane_switchboards.Base.{
  nat_eq, string_eq, pair_eq, ℕ, String, ◌≡◌, refl, inl, inr, Bool, true, false, not, List, [], ◌∷◌,
  Bool-cases, filter_by, Map, lookup, IsMap, none, arith, ◌&&◌, ◌==◌, any, map, Option-cases,
}
use lane_switchboards.Mesh.{ServiceRecord}
use lane_switchboards.Mesh.Registry.{
  MeshRegistry, Arrival, ConnEnd, waiting, finished, read_failed, read_timed_out, write_failed,
  handle_registry_conn, evict_expired, record_expired, closed, message, failed, timed_out, answer,
}
use lane_switchboards.Mesh.Server.{
  MeshRegistryServer, ServerEvent, accepted, accept_failed, arrived, ticked, turn, on_event, run,
  close,
}
use lane_switchboards.Mesh.Latest.{IsKeyed}
use lane_switchboards.Mesh.Keyed.{IsRegistry, handle_registry_conn-IsRegistry}

filter_by-absent :
    (keep : (String × String) × ServiceRecord → Bool) (key : String × String)
    (m : Map (String × String) ServiceRecord)
    → lookup key m ≡ none
    → lookup key (filter_by keep m) ≡ none
unfolding lookup
filter_by-absent keep key [] h = refl
filter_by-absent keep key ((k, r) ∷ m) h = ground (arith, filter_by-absent keep key m)

filter_by-IsRegistry :
    (keep : (String × String) × ServiceRecord → Bool) (m : Map (String × String) ServiceRecord)
    → IsMap m
    → IsKeyed m
    → IsMap (filter_by keep m) × IsKeyed (filter_by keep m)
filter_by-IsRegistry keep [] h k = (tt, tt)
filter_by-IsRegistry keep ((key, r) ∷ m) h k =
    let rest = filter_by-IsRegistry keep m h.1 k.1 in
    elim (Bool-cases (keep (key, r))) [
      | inl t ↦ rw t ((filter_by-absent keep key m h.0, rest.0), (k.0, rest.1))
      | inr t ↦ rw t rest
    ]

evict_expired-IsRegistry :
    (now : ℕ) (reg : MeshRegistry) → IsRegistry reg → IsRegistry (evict_expired now reg)
unfolding evict_expired
evict_expired-IsRegistry now reg (h, k) =
    filter_by-IsRegistry (λ e. not (record_expired e.1 now reg.ttl)) reg.records h k

turn-registry :
    (n : ℕ) (registry : MeshRegistry) (end : ConnEnd) (s : MeshRegistryServer)
    → (turn n (registry, end) s).registry ≡ registry
unfolding turn
turn-registry n registry waiting s = refl
turn-registry n registry finished s = refl
turn-registry n registry read_failed s = refl
turn-registry n registry read_timed_out s = refl
turn-registry n registry write_failed s = refl

on_event-IsRegistry :
    (event : ServerEvent) (s : MeshRegistryServer)
    → IsRegistry s.registry
    → IsRegistry (on_event event s).registry
unfolding on_event
on_event-IsRegistry (accepted n secured) s h = elim (Bool-cases (s.listening && secured)) [
  | inl t ↦ rw t h
  | inr t ↦ rw t h
]
on_event-IsRegistry accept_failed s h = h
on_event-IsRegistry (arrived n arrival) s h = elim (Bool-cases (any (λ m. m == n) s.connections)) [
  | inl t ↦
      let after = handle_registry_conn (arrival ∷ []) s.registry in
      rw (t, turn-registry n after.0 after.2 s)
        (handle_registry_conn-IsRegistry (arrival ∷ []) s.registry h)
  | inr t ↦ rw t h
]
on_event-IsRegistry (ticked now) s h = evict_expired-IsRegistry now s.registry h

-- Whatever connections come and whatever comes over them, in whatever order the turns of their tasks
-- and the evictions are, the registry keeps one record to a key, under its own service and
-- identifier.
pub run-IsRegistry :
    (events : List ServerEvent) (s : MeshRegistryServer)
    → IsRegistry s.registry
    → IsRegistry (run events s).registry
unfolding run
run-IsRegistry [] s h = h
run-IsRegistry (event ∷ events) s h =
    run-IsRegistry events (on_event event s) (on_event-IsRegistry event s h)

abbrev pub is_open : ℕ → MeshRegistryServer → Bool
is_open n s = any (λ m. m == n) s.connections

-- What comes over one connection, and nothing in between.
abbrev pub alone : ℕ → List (Arrival × ℕ × Bool) → List ServerEvent
alone n arrivals = map (arrived n) arrivals

any-close : (n : ℕ) (ns : List ℕ) → any (λ m. m == n) (close n ns) ≡ false
unfolding close
any-close n [] = refl
any-close n (m ∷ ns) = ground (arith, any-close n ns)

run_shut :
    (n : ℕ) (arrivals : List (Arrival × ℕ × Bool)) (s : MeshRegistryServer)
    → is_open n s ≡ false
    → run (alone n arrivals) s ≡ s
unfolding run on_event
run_shut n [] s h = refl
run_shut n (arrival ∷ arrivals) s h = rw (h, run) (run_shut n arrivals s h)

abbrev pub is_waiting : ConnEnd → Bool
is_waiting waiting = true
is_waiting end = false

ended_alone :
    (n : ℕ) (reg : MeshRegistry) (arrivals : List (Arrival × ℕ × Bool)) (s : MeshRegistryServer)
    → (let s' =
          run
            (alone n arrivals)
            (record s { registry = reg; connections = close n s.connections }) in
        (s'.registry ≡ reg) × (is_open n s' ≡ false))
ended_alone n reg arrivals s =
    let shut = any-close n s.connections in
    rw (run_shut n arrivals (record s { registry = reg; connections = close n s.connections }) shut)
      (refl, shut)

-- Where nothing else comes in between, the turns of an open connection leave the registry that
-- handle_registry_conn leaves of what arrives, and the connection is open afterwards exactly when
-- handle_registry_conn still waits.
pub run-handle_registry_conn :
    (n : ℕ) (arrivals : List (Arrival × ℕ × Bool)) (s : MeshRegistryServer)
    → is_open n s ≡ true
    → ((run (alone n arrivals) s).registry ≡ (handle_registry_conn arrivals s.registry).0)
      × (is_open n (run (alone n arrivals) s)
          ≡ is_waiting (handle_registry_conn arrivals s.registry).2)
unfolding run on_event turn handle_registry_conn
run-handle_registry_conn n [] s h = (refl, h)
run-handle_registry_conn n ((closed, now, writable) ∷ arrivals) s h =
    rw (h, run) (ended_alone n s.registry arrivals s)
run-handle_registry_conn n ((failed, now, writable) ∷ arrivals) s h =
    rw (h, run) (ended_alone n s.registry arrivals s)
run-handle_registry_conn n ((timed_out, now, writable) ∷ arrivals) s h =
    rw (h, run) (ended_alone n s.registry arrivals s)
run-handle_registry_conn n ((message msg, now, writable) ∷ arrivals) s h =
    elim (Option-cases (answer now msg s.registry).1) [
      | inl e ↦
          rw (h, e, run, handle_registry_conn)
            (run-handle_registry_conn n arrivals
              (record s { registry = (answer now msg s.registry).0 }) h)
      | inr (reply, e) ↦ elim (Bool-cases writable) [
        | inl t ↦
            rw (h, e, t, run, handle_registry_conn)
              (run-handle_registry_conn n arrivals
                (record s { registry = (answer now msg s.registry).0 }) h)
        | inr t ↦
            rw (h, e, t, run, handle_registry_conn)
              (ended_alone n (answer now msg s.registry).0 arrivals s)
      ]
    ]
