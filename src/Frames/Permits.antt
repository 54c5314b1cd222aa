-- ===== src/Frames/Permits.antt =====
-- What holds of the tasks of a `Node` of src/distributed.rs in whatever order they take their turns.
use mathlib.Core.Path.{subst}
use lane_switchboards.Base.{
  nat_eq, string_eq, by_test, All-set, All-snoc, All-get_elem?, ℕ, zero, suc, ◌+◌, ◌≤◌, String, ◌≡◌,
  refl, sym, inl, inr, Bool, Option, none, some, List, [], ◌∷◌, ◌++◌, arith, Option-cases, ◌&&◌,
  ◌==◌, ==_iff, length, length-append, get_elem?, All,
}
use lane_switchboards.Config.{DistributedConfig}
use lane_switchboards.Frames.{Json}
use lane_switchboards.Frames.Node.{Channel, Node}
use lane_switchboards.Frames.Faithful.{
  IsFaithful, hand_over, to_come, tasks_of, read_next-IsFaithful,
}
use lane_switchboards.Frames.Server.{
  Conn, NodeServer, NodeEvent, accepts, accept_fails, reads, permitted, runs, in_flight, take_out,
  bind, run_next, spawn_held, read_next, on_event, run, must_wait, registers, unregisters,
}

length-take_out {ℓ} :
    {A : Type ℓ} (k : ℕ) (xs : List A) {a : A}
    → get_elem? xs k ≡ some a
    → length (take_out k xs) + 1 ≡ length xs
unfolding take_out
length-take_out k [] h = cc
length-take_out zero (x ∷ xs) h = omega arith
length-take_out (suc k) (x ∷ xs) h = omega (arith, length-take_out k xs h)

module _ {M : Type 0} (json : Json M) (config : DistributedConfig) where
  abbrev HasPermits : NodeServer M → Type 0
  HasPermits s = s.permits + length s.tasks ≡ in_flight config

  abbrev IsServed : NodeServer M → Type 0
  IsServed s = HasPermits s × All (IsFaithful json config) s.conns

  in_flight-some : 1 ≤ in_flight config
  unfolding in_flight
  in_flight-some = ground (arith, ==_iff config.max_in_flight 0)

  run_next-HasPermits :
      (k : ℕ) (room : Bool) (task : Option (String × M)) (s : NodeServer M)
      → get_elem? s.tasks k ≡ task
      → HasPermits s
      → HasPermits (run_next k room task s)
  unfolding run_next
  run_next-HasPermits k room none s e h = h
  run_next-HasPermits k room (some task) s e h =
      by_test HasPermits (must_wait s.node task.0 room s.channels) s _ (λ q. h)
        (λ q. omega (arith, length-take_out k s.tasks e, h))

  run_next-conns :
      (k : ℕ) (room : Bool) (task : Option (String × M)) (s : NodeServer M)
      → (run_next k room task s).conns ≡ s.conns
  unfolding run_next
  run_next-conns k room none s = refl
  run_next-conns k room (some task) s =
      by_test (λ t. t.conns ≡ s.conns) (must_wait s.node task.0 room s.channels) s _ (λ q. refl)
        (λ q. refl)

  spawn_held-IsServed :
      (n : ℕ) (c : Conn M) (held : Option (String × M)) (s : NodeServer M)
      → c.held ≡ held
      → IsFaithful json config c
      → IsServed s
      → IsServed (spawn_held n c held s)
  unfolding spawn_held
  spawn_held-IsServed n c none s e f h = h
  spawn_held-IsServed n c (some task) s e f h =
      by_test IsServed (s.permits == 0) s _ (λ q. h)
        (λ q. (
          ground (arith, ==_iff s.permits 0, length-append s.tasks (task ∷ []), h.0),
          All-set (IsFaithful json config) s.conns n
              (record c { held = none; spawned = c.spawned ++ task ∷ [] }) h.1
              (hand_over json config c.held c.spawned (to_come json config c)
                (tasks_of json config c.bytes c.tail) task e f),
        ))

  on_event-IsServed :
      (event : NodeEvent) (s : NodeServer M) → IsServed s → IsServed (on_event json config event s)
  unfolding on_event
  on_event-IsServed (accepts secured bytes tail) s h =
      by_test IsServed (s.is_listening && secured) _ s
        (λ q. (h.0, All-snoc (IsFaithful json config) s.conns _ h.1 refl)) (λ q. h)
  on_event-IsServed accept_fails s h = h
  on_event-IsServed (reads n) s h = elim (Option-cases (get_elem? s.conns n)) [
    | inl e ↦ rw (e, on_event) h
    | inr (c, e) ↦
        rw (e, on_event)
          (
            h.0,
            All-set (IsFaithful json config) s.conns n (read_next json config c) h.1 (
                read_next-IsFaithful json config c
                  (All-get_elem? (IsFaithful json config) s.conns n c h.1 e)),
          )
  ]
  on_event-IsServed (permitted n) s h = elim (Option-cases (get_elem? s.conns n)) [
    | inl e ↦ rw (e, on_event) h
    | inr (c, e) ↦
        rw (e, on_event)
          (spawn_held-IsServed n c c.held s refl
            (All-get_elem? (IsFaithful json config) s.conns n c h.1 e) h)
  ]
  on_event-IsServed (runs k room) s h = (
    run_next-HasPermits k room (get_elem? s.tasks k) s refl h.0,
    subst (All (IsFaithful json config)) (sym (run_next-conns k room (get_elem? s.tasks k) s)) h.1,
  )
  on_event-IsServed (registers target tx) s h = h
  on_event-IsServed (unregisters target) s h = h

  run-IsServed :
      (events : List NodeEvent) (s : NodeServer M)
      → IsServed s
      → IsServed (run json config events s)
  unfolding run
  run-IsServed [] s h = h
  run-IsServed (event ∷ events) s h =
      run-IsServed events (on_event json config event s) (on_event-IsServed event s h)

  -- In whatever order connections come, frames arrive, permits are given and tasks run: the permits
  -- that are free and the tasks in flight are together the limit, at least one, so that never more
  -- tasks than the limit are in flight; and of each connection, the tasks that it spawned, the one
  -- that waits for its permit and those that are to come are, in order, the tasks that `handle_conn`
  -- spawns for the whole of what comes over it: waiting loses no frame and repeats none.
  pub run-IsWithin :
      (events : List NodeEvent) (node : Node) (channels : List (Channel M))
      → let s = run json config events (bind config node channels) in
        (s.permits + length s.tasks ≡ in_flight config)
        × (length s.tasks ≤ in_flight config)
        × (1 ≤ in_flight config)
        × All (IsFaithful json config) s.conns
  unfolding bind
  run-IsWithin events node channels =
      let h = run-IsServed events (bind config node channels) (omega arith, tt) in
      (h.0, omega (arith, h.0), in_flight-some, h.1)
