-- ===== src/Monitor.antt =====
-- src/monitor.rs: the counters of each actor. An `AtomicU64` is a number below 2 ^ 64 that wraps;
-- `cells` is the process-wide map.
pub mod Laws
use lane_switchboards.Base.{
  nat_eq, ℕ, Option, none, some, Bool, false, List, ◌∷◌, Map, lookup, insert, remove, ltb, leb,
  ◌==◌, if◌then◌else◌, inc64, dec64, millis_u64, ◌*◌, [],
}
use lane_switchboards.Actor.Types.{ActorId}

pub record StatsCell : Type 0 where
  pub messages_handled : ℕ
  pub handle_errors : ℕ
  pub panics : ℕ
  pub handle_timeouts : ℕ
  pub in_flight : ℕ
  pub last_handle_ms : ℕ
  pub max_handle_ms : ℕ
  pub slow_handles : ℕ

-- A snapshot with the actor's identifier.
pub record ActorStats : Type 0 where
  pub actor_id : ActorId
  pub cell : StatsCell
  pub open cell use *

abbrev pub Cells : Type 0
Cells = Map ActorId StatsCell

abbrev pub new_cell : StatsCell
new_cell = record {
  messages_handled = 0;
  handle_errors = 0;
  panics = 0;
  handle_timeouts = 0;
  in_flight = 0;
  last_handle_ms = 0;
  max_handle_ms = 0;
  slow_handles = 0;
}

unfoldable pub snapshot : StatsCell → ActorId → ActorStats
snapshot c id = record { actor_id = id; cell = c }

-- `if let Some(cell) = self.cells.get(&id) { … }`.
unfoldable pub update_cell : ActorId → (StatsCell → StatsCell) → Cells → Cells
update_cell id f cells = elim (lookup id cells) [ none ↦ cells | some c ↦ insert id (f c) cells ]

-- `entry(id).or_insert_with(…)`.
unfoldable pub register : ActorId → Cells → Cells
register id cells = elim (lookup id cells) [ none ↦ insert id new_cell cells | some c ↦ cells ]

unfoldable pub unregister : ActorId → Cells → Cells
unregister id cells = remove id cells

unfoldable pub idle_cell : StatsCell → StatsCell
idle_cell c = record c { in_flight = 0 }

unfoldable pub mark_inactive : ActorId → Cells → Cells
mark_inactive id = update_cell id idle_cell

unfoldable pub get : ActorId → Cells → Option ActorStats
unfolding snapshot
get id cells = elim (lookup id cells) [ none ↦ none | some c ↦ some (snapshot c id) ]

unfoldable pub begin_cell : StatsCell → StatsCell
begin_cell c = record c { in_flight = inc64 c.in_flight }

unfoldable pub begin_handle : ActorId → Cells → Cells
begin_handle id = update_cell id begin_cell

-- The compare-and-exchange loop on `max_handle_ms`. Each number of the list is what another thread
-- stored between this thread's load and its exchange; when the list is used up nobody interferes.
unfoldable pub raise_max : ℕ → ℕ → List ℕ → ℕ
raise_max ms prev [] = if leb ms prev then prev else ms
raise_max ms prev (now ∷ others) =
    let again = raise_max ms now others in
    if leb ms prev then prev else if now == prev then ms else again

-- `slow_threshold.is_some_and(|t| elapsed > t)`.
abbrev pub is_slow : ℕ → Option ℕ → Bool
is_slow elapsed none = false
is_slow elapsed (some t) = ltb t elapsed

unfoldable pub finish_cell : ℕ → Option ℕ → StatsCell → StatsCell
unfolding raise_max
finish_cell elapsed slow_threshold c =
    let ms = millis_u64 elapsed in
    record c {
      in_flight = dec64 c.in_flight;
      messages_handled = inc64 c.messages_handled;
      last_handle_ms = ms;
      max_handle_ms = raise_max ms c.max_handle_ms [];
      slow_handles =
          if is_slow elapsed slow_threshold then inc64 c.slow_handles else c.slow_handles;
    }

unfoldable pub finish_handle : ActorId → ℕ → Option ℕ → Cells → Cells
finish_handle id elapsed slow_threshold = update_cell id (finish_cell elapsed slow_threshold)

unfoldable pub error_cell : StatsCell → StatsCell
error_cell c = record c { handle_errors = inc64 c.handle_errors; in_flight = dec64 c.in_flight }

unfoldable pub record_error : ActorId → Cells → Cells
record_error id = update_cell id error_cell

unfoldable pub panic_cell : StatsCell → StatsCell
panic_cell c = record c { panics = inc64 c.panics; in_flight = dec64 c.in_flight }

unfoldable pub record_panic : ActorId → Cells → Cells
record_panic id = update_cell id panic_cell

unfoldable pub timeout_cell : ℕ → StatsCell → StatsCell
timeout_cell elapsed c = record c {
  handle_timeouts = inc64 c.handle_timeouts;
  in_flight = dec64 c.in_flight;
  last_handle_ms = millis_u64 elapsed;
}

unfoldable pub record_timeout : ActorId → ℕ → Cells → Cells
record_timeout id elapsed = update_cell id (timeout_cell elapsed)

-- `out.sort_by_key(|s| s.actor_id.0)`, a stable sort.
unfoldable pub insert_stats : ActorStats → List ActorStats → List ActorStats
insert_stats s [] = s ∷ []
insert_stats s (x ∷ out) =
    let later = insert_stats s out in if leb s.actor_id x.actor_id then s ∷ x ∷ out else x ∷ later

unfoldable pub all : Cells → List ActorStats
unfolding snapshot insert_stats
all [] = []
all ((id, c) ∷ cells) = insert_stats (snapshot c id) (all cells)
