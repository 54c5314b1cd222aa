-- ===== src/Deadlock.antt =====
-- examples/handle_timeout_calculator_timer.rs: the calculator whose calls are cut off by
-- `handle_timeout`, and which then enters what it was doing into a journal that outlives it. It runs
-- under `handle_message` of src/actor.rs. The state behind the mutex is passed on by a restart; a
-- reply's channel is a number; `f64` is a parameter.

pub mod Journaled
use lane_switchboards.Base.{
  nat_eq, string_eq, ◌&&◌, not, ℕ, ◌+◌, ◌*◌, ◌≤◌, String, ◌≡◌, Bool, true, false, Option, none,
  some, List, [], ◌∷◌, ◌++◌, ltb, if◌then◌else◌, arith,
}
use lane_switchboards.Config.{ActorConfig, default_actor_config}
use lane_switchboards.Actor.Types.{ActorId, handle_timeout}
use lane_switchboards.Actor.World.{World}
use lane_switchboards.Actor.Message.{
  DynActor, Outcome, done, failed, Stuck, handle_message, Reply, returned, goes_on, exits, unwinds,
}
use lane_switchboards.Supervisor.Children.{ChildRegistry, bump_generation}
use lane_switchboards.Recoverable.{Floats}

-- What asking the child registry for a name and sending to it comes to.
pub data Route : Type 0 where
  missing : Route
  closed : String → Route
  reached : Route

pub record Routes : Type 0 where
  pub calculator : Route
  pub ledger : Route

pub data AppMsg (F : Type 0) : Type 0 where
  add_msg : F → F → ℕ → AppMsg F
  slow_div_msg : F → F → ℕ → ℕ → AppMsg F
  ping : ℕ → AppMsg F
  self_deadlock_probe_msg : ℕ → AppMsg F
  cross_deadlock_probe_msg : F → ℕ → AppMsg F
  ledger_fetch last_msg stuck_journal timer_start : ℕ → AppMsg F
  timer_tick : AppMsg F

pub data StuckAction (F : Type 0) : Type 0 where
  add : F → F → StuckAction F
  slow_div : F → F → ℕ → StuckAction F
  self_deadlock_probe : StuckAction F
  cross_deadlock_probe : F → StuckAction F

pub record SharedState (F : Type 0) : Type 0 where
  pub last_result : Option F
  pub stuck_actions : List (StuckAction F)

pub data AppReply (F : Type 0) : Type 0 where
  answer : F → AppReply F
  pong : AppReply F
  last : Option F → AppReply F
  stuck : List (StuckAction F) → AppReply F

-- `replies` are for the record: what was sent, and on which channel.
pub record Calculator (F : Type 0) : Type 0 where
  pub pending : Option (StuckAction F)
  pub state : SharedState F
  pub registry : ChildRegistry String
  pub replies : List (ℕ × AppReply F)

abbrev pub waits : Route → Bool
waits missing = false
waits (closed e) = false
waits reached = true

module _ {F : Type 0} where
  unfoldable pub from_msg : AppMsg F → Option (StuckAction F)
  from_msg (add_msg a b reply) = some (add a b)
  from_msg (slow_div_msg a b delay_ms reply) = some (slow_div a b delay_ms)
  from_msg (ping reply) = none
  from_msg (self_deadlock_probe_msg reply) = some self_deadlock_probe
  from_msg (cross_deadlock_probe_msg amount reply) = some (cross_deadlock_probe amount)
  from_msg (ledger_fetch reply) = none
  from_msg (last_msg reply) = none
  from_msg (stuck_journal reply) = none
  from_msg (timer_start self_ref) = none
  from_msg timer_tick = none

  -- `log_generation` bumps the generation of the name.
  unfoldable pub pre_start : Calculator F → Calculator F
  pre_start o = record o { pending = none; registry = bump_generation "calculator" o.registry }

  -- The factory's next instance, with what the instances share; what the factory itself enters into
  -- the registry is `spawn_named` of the supervisor's children.
  unfoldable pub restarted : Calculator F → Calculator F
  unfolding pre_start
  restarted o = pre_start (record o { pending = none })

  unfoldable pub on_handle_begin : AppMsg F → Calculator F → Calculator F
  on_handle_begin m o = record o { pending = from_msg m }

  unfoldable pub persist : Option (StuckAction F) → Calculator F → Calculator F
  persist none o = o
  persist (some action) o = record o {
    pending = none;
    state = record o.state { stuck_actions = o.state.stuck_actions ++ action ∷ [] };
  }

  unfoldable pub on_handle_stuck : Calculator F → Calculator F
  unfolding persist
  on_handle_stuck o = persist o.pending o

  unfoldable pub reply_to : ℕ → AppReply F → Calculator F → Calculator F
  reply_to reply r o = record o { replies = o.replies ++ (reply, r) ∷ [] }

  unfoldable pub finish : F → ℕ → Calculator F → Calculator F × Outcome
  unfolding reply_to
  finish value reply o = (
    reply_to reply (answer value)
        (record o { pending = none; state = record o.state { last_result = some value } }),
    done,
  )

  -- A probe that reaches its target waits for ever.
  unfoldable pub probe : Route → String → Calculator F → Calculator F × Outcome
  probe missing name o = (o, failed name)
  probe (closed e) name o = (o, failed e)
  probe reached name o = (o, done)

  unfoldable pub hangs : Routes → AppMsg F → Bool
  hangs routes (self_deadlock_probe_msg reply) = waits routes.calculator
  hangs routes (cross_deadlock_probe_msg amount reply) = waits routes.ledger
  hangs routes (add_msg a b reply) = false
  hangs routes (slow_div_msg a b delay_ms reply) = false
  hangs routes (ping reply) = false
  hangs routes (ledger_fetch reply) = false
  hangs routes (last_msg reply) = false
  hangs routes (stuck_journal reply) = false
  hangs routes (timer_start self_ref) = false
  hangs routes timer_tick = false

  -- The sleep of a call, in nanoseconds.
  abbrev pub sleep : AppMsg F → ℕ
  sleep (slow_div_msg a b delay_ms reply) = delay_ms * 1000000
  sleep m = 0

-- `HANDLE_TIMEOUT`, 150 milliseconds.
abbrev pub handle_limit : ℕ
handle_limit = 150000000

abbrev pub app_config : ActorConfig
app_config = record default_actor_config {
  handle_timeout = some handle_limit;
  slow_handle_threshold = some handle_limit;
}

module _ (floats : Floats) where
  open floats use {F, plus, over, is_zero}

  -- What a call comes to that is not cut off.
  unfoldable pub handle : Routes → AppMsg F → Calculator F → Calculator F × Outcome
  unfolding finish probe reply_to
  handle routes (add_msg a b reply) o = finish (plus a b) reply o
  handle routes (slow_div_msg a b delay_ms reply) o =
      if is_zero b then (o, failed "division by zero") else finish (over a b) reply o
  handle routes (ping reply) o = (reply_to reply pong o, done)
  handle routes (self_deadlock_probe_msg reply) o =
      probe routes.calculator "calculator ref missing" o
  handle routes (cross_deadlock_probe_msg amount reply) o =
      probe routes.ledger "ledger ref missing" o
  handle routes (last_msg reply) o = (reply_to reply (last o.state.last_result) o, done)
  handle routes (stuck_journal reply) o = (reply_to reply (stuck o.state.stuck_actions) o, done)
  handle routes (ledger_fetch reply) o = (o, done)
  handle routes (timer_start self_ref) o = (o, done)
  handle routes timer_tick o = (o, done)

  module _ (routes : Routes) (late : AppMsg F → ℕ) (ready : AppMsg F → Bool) where
    -- Whether `tokio::time::timeout` cuts the call off, and what is measured then. A call takes its
    -- sleep and some time more, `late`. One that has taken longer than the limit is cut off unless it
    -- is `ready` when it is polled, which comes before the look at the timer.
    unfoldable pub cut : ℕ → AppMsg F → Option ℕ
    cut limit m =
        if hangs routes m
        then some (limit + late m)
        else if ltb limit (sleep m + late m) && not (ready m)
        then some (sleep m + late m)
        else none

    -- Where a call can be cut off, it has not changed the calculator.
    unfoldable pub verdict : ℕ → AppMsg F → Calculator F → Option (Stuck (Calculator F))
    unfolding cut
    verdict limit m o = elim (cut limit m) [
      | none ↦ none
      | some elapsed ↦ some (record { obj = o; elapsed = elapsed })
    ]

    pub verdict-waits :
        (limit : ℕ) (m : AppMsg F) (o : Calculator F) (s : Stuck (Calculator F))
        → verdict limit m o ≡ some s
        → limit ≤ s.elapsed
    unfolding verdict cut
    verdict-waits limit m o s e = ground arith

    abbrev pub calculator : DynActor
    calculator = record {
      Msg = AppMsg F;
      Obj = Calculator F;
      pre_start = λ o. returned (pre_start o) none;
      on_upgrade = λ old_version o. returned o none;
      on_handle_begin = λ m o. returned (on_handle_begin m o) none;
      handle = λ m o.
          let (obj, outcome) = handle routes m o in
          record { obj = obj; outcome = outcome; elapsed = sleep m + late m };
      on_handle_stuck = λ ctx o. returned (on_handle_stuck o) none;
      post_stop = λ o. returned o none;
      trap_exit = λ o. false;
      timeout = verdict;
      timeout_waits = verdict-waits;
    }

    -- An exit makes the supervisor start another calculator, as long as its limit is not reached. The
    -- calculator's other callbacks do not panic, so that its task does not unwind.
    unfoldable pub after_message : Reply calculator → Calculator F × World
    unfolding restarted
    after_message (o, w, goes_on) = (o, w)
    after_message (o, w, exits reason) = (restarted o, w)
    after_message (o, w, unwinds) = (o, w)

    unfoldable pub serve : ActorId → AppMsg F → Calculator F × World → Calculator F × World
    unfolding after_message handle_message
    serve id m (o, w) = after_message (handle_message calculator id app_config m o w)

    -- Each message with the identifier of the instance that takes it.
    unfoldable pub serve_all :
        List (ActorId × AppMsg F) → Calculator F × World → Calculator F × World
    unfolding serve
    serve_all [] s = s
    serve_all ((id, m) ∷ ms) s = serve_all ms (serve id m s)
