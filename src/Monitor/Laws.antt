-- ===== src/Monitor/Laws.antt =====
-- What the counters of src/monitor.rs add up to.
use lane_switchboards.Base.{
  nat_eq, ℕ, ◌+◌, ◌^◌, ◌<◌, ◌≡◌, Option, some, arith, lookup, ◌≤◌, ◌∙◌, ◌≢◌, inl, inr, List, [],
  ◌∷◌, Option-cases, lookup-insert_self, lookup-insert_ne, millis_u64, sym, ap, ◌↔◌, if◌then◌else◌,
  Bool-cases, ◌==◌, ==_iff,
}
use lane_switchboards.Actor.Types.{ActorId}
use lane_switchboards.Monitor.{
  StatsCell, Cells, update_cell, begin_cell, begin_handle, finish_cell, finish_handle, error_cell,
  record_error, panic_cell, record_panic, timeout_cell, record_timeout, raise_max,
}

-- The four ways in which a handle that has begun comes to an end.
pub data Settle : Type 0 where
  finished : ℕ → Option ℕ → Settle
  errored : Settle
  panicked : Settle
  timed_out : ℕ → Settle

abbrev pub settle : ActorId → Settle → Cells → Cells
settle id (finished elapsed t) = finish_handle id elapsed t
settle id errored = record_error id
settle id panicked = record_panic id
settle id (timed_out elapsed) = record_timeout id elapsed

-- The handles of an actor that have come to an end.
abbrev pub ended : StatsCell → ℕ
ended c = c.messages_handled + c.handle_errors + c.panics + c.handle_timeouts

abbrev pub Within : StatsCell → Type 0
Within c =
    (c.in_flight < 2 ^ 63)
    × (c.messages_handled < 2 ^ 63)
    × (c.handle_errors < 2 ^ 63)
    × (c.panics < 2 ^ 63)
    × (c.handle_timeouts < 2 ^ 63)

pub lookup-update_cell :
    (id : ActorId) (f : StatsCell → StatsCell) (cells : Cells) (c : StatsCell)
    → lookup id cells ≡ some c
    → lookup id (update_cell id f cells) ≡ some (f c)
unfolding update_cell
lookup-update_cell id f cells c h = rw (h, update_cell) (lookup-insert_self id (f c) cells)

pub lookup-update_cell_ne :
    (id j : ActorId) (f : StatsCell → StatsCell) (cells : Cells)
    → id ≢ j
    → lookup j (update_cell id f cells) ≡ lookup j cells
unfolding update_cell
lookup-update_cell_ne id j f cells h = elim (Option-cases (lookup id cells)) [
  | inl e ↦ rw (e, update_cell)
  | inr (c, e) ↦ rw (e, update_cell) (lookup-insert_ne id j (f c) cells h)
]

abbrev settle_cell : Settle → StatsCell → StatsCell
settle_cell (finished elapsed t) = finish_cell elapsed t
settle_cell errored = error_cell
settle_cell panicked = panic_cell
settle_cell (timed_out elapsed) = timeout_cell elapsed

lookup-settle :
    (id : ActorId) (s : Settle) (cells : Cells) (c : StatsCell)
    → lookup id cells ≡ some c
    → lookup id (settle id s cells) ≡ some (settle_cell s c)
unfolding finish_handle record_error record_panic record_timeout
lookup-settle id (finished elapsed t) cells c h =
    lookup-update_cell id (finish_cell elapsed t) cells c h
lookup-settle id errored cells c h = lookup-update_cell id error_cell cells c h
lookup-settle id panicked cells c h = lookup-update_cell id panic_cell cells c h
lookup-settle id (timed_out elapsed) cells c h =
    lookup-update_cell id (timeout_cell elapsed) cells c h

lookup-settle_ne :
    (id j : ActorId) (s : Settle) (cells : Cells)
    → id ≢ j
    → lookup j (settle id s cells) ≡ lookup j cells
unfolding finish_handle record_error record_panic record_timeout
lookup-settle_ne id j (finished elapsed t) cells h =
    lookup-update_cell_ne id j (finish_cell elapsed t) cells h
lookup-settle_ne id j errored cells h = lookup-update_cell_ne id j error_cell cells h
lookup-settle_ne id j panicked cells h = lookup-update_cell_ne id j panic_cell cells h
lookup-settle_ne id j (timed_out elapsed) cells h =
    lookup-update_cell_ne id j (timeout_cell elapsed) cells h

settle_cell_balance :
    (s : Settle) (c : StatsCell)
    → Within c
    → let d = settle_cell s (begin_cell c) in (d.in_flight ≡ c.in_flight) × (ended d ≡ ended c + 1)
unfolding finish_cell error_cell panic_cell timeout_cell begin_cell
settle_cell_balance (finished elapsed t) c w = (omega arith, omega arith)
settle_cell_balance errored c w = (omega arith, omega arith)
settle_cell_balance panicked c w = (omega arith, omega arith)
settle_cell_balance (timed_out elapsed) c w = (omega arith, omega arith)

-- A handle of a registered actor that begins and then ends, in whichever of the four ways, leaves
-- the number in flight as it was, counts as one more ended handle, and touches no other actor's
-- cell. The counters are below 2 ^ 63, so that none of them wraps.
pub begin-settle :
    (id : ActorId) (s : Settle) (cells : Cells) (c : StatsCell)
    → lookup id cells ≡ some c
    → Within c
    → let after = settle id s (begin_handle id cells) in
      ((d : StatsCell) × (lookup id after ≡ some d)
        × (d.in_flight ≡ c.in_flight)
        × (ended d ≡ ended c + 1))
      × ((j : ActorId) → lookup j after ≡ (if id == j then lookup id after else lookup j cells))
unfolding begin_handle
begin-settle id s cells c h w = (
  (
    settle_cell s (begin_cell c),
    lookup-settle id s _ (begin_cell c) (lookup-update_cell id begin_cell cells c h),
    (settle_cell_balance s c w).0,
    (settle_cell_balance s c w).1,
  ),
  λ j. elim (Bool-cases (id == j)) [
    | inl same ↦
        rw same
          (ap (λ k. lookup k (settle id s (begin_handle id cells))) (sym ((==_iff id j).0 same)))
    | inr other ↦
        let ne : id ≢ j = ground (arith, ==_iff id j) in
        rw other (lookup-settle_ne id j s _ ne ∙ lookup-update_cell_ne id j begin_cell cells ne)
  ],
)

-- However often other threads change `max_handle_ms` between the load and the exchange, the loop
-- ends with a stored maximum that is at least the new time.
pub raise_max-ge : (ms prev : ℕ) (others : List ℕ) → ms ≤ raise_max ms prev others
unfolding raise_max
raise_max-ge ms prev [] = ground arith
raise_max-ge ms prev (now ∷ others) = ground (arith, raise_max-ge ms now others)

-- A handle that ends normally keeps the last time at most the recorded maximum, whatever the cell
-- held before; a handle that times out does so only if it took no longer than the maximum that the
-- cell held before.
pub last-le-max :
    (elapsed : ℕ) (t : Option ℕ) (c : StatsCell)
    → ((finish_cell elapsed t c).last_handle_ms ≤ (finish_cell elapsed t c).max_handle_ms)
      × (((timeout_cell elapsed c).last_handle_ms ≤ (timeout_cell elapsed c).max_handle_ms)
          ↔ (millis_u64 elapsed ≤ c.max_handle_ms))
unfolding finish_cell timeout_cell
last-le-max elapsed t c = (raise_max-ge (millis_u64 elapsed) c.max_handle_ms [], (λ h. h, λ h. h))
