-- ===== src/Recoverable.antt =====
-- examples/recoverable_timer_calc.rs: the calculator whose journal of operations outlives it, and
-- the restarts of its supervisor. `f64` is a parameter. The journal behind its mutex is part of the
-- calculator's state, which a restart passes on; a reply's channel is a number.
pub mod Journal
pub mod Replay
use lane_switchboards.Base.{
  nat_eq, ℕ, ◌+◌, String, inl, inr, ◌⊎◌, Bool, Option, none, some, List, [], ◌∷◌, ◌++◌, leb,
  if◌then◌else◌, Map, lookup, insert, keys, values, inc64,
}
use lane_switchboards.Cluster.{Call, panics, returns}
use lane_switchboards.Actor.Message.{Outcome, done, failed, panicked}

-- The operations of `f64` that the code uses, and the test for zero.
pub record Floats : Type 1 where
  pub F : Type 0
  pub plus : F → F → F
  pub minus : F → F → F
  pub times : F → F → F
  pub over : F → F → F
  pub is_zero : F → Bool

-- `sort_unstable` on different numbers.
unfoldable pub place : ℕ → List ℕ → List ℕ
place n [] = n ∷ []
place n (m ∷ ms) = let rest = place n ms in if leb n m then n ∷ m ∷ ms else m ∷ rest

unfoldable pub sort_unstable : List ℕ → List ℕ
unfolding place
sort_unstable [] = []
sort_unstable (n ∷ ns) = place n (sort_unstable ns)

pub data OpKind (F : Type 0) : Type 0 where
  add sub mul div : F → F → OpKind F

pub data OpStatus (F : Type 0) : Type 0 where
  pending : OpStatus F
  ok : F → OpStatus F

pub record JournalEntry (F : Type 0) : Type 0 where
  pub kind : OpKind F
  pub status : OpStatus F

pub record OpJournal (F : Type 0) : Type 0 where
  pub ops : Map ℕ (JournalEntry F)
  pub next_id : ℕ

module _ {F : Type 0} where
  unfoldable pub label : OpKind F → String
  label (add a b) = "add"
  label (sub a b) = "sub"
  label (mul a b) = "mul"
  label (div a b) = "div"

  unfoldable pub operands : OpKind F → F × F
  operands (add a b) = (a, b)
  operands (sub a b) = (a, b)
  operands (mul a b) = (a, b)
  operands (div a b) = (a, b)

  unfoldable pub new_journal : OpJournal F
  new_journal = record { ops = []; next_id = 0 }

  -- `self.next_id += 1` wraps here, as in a release build.
  unfoldable pub start_op : OpKind F → OpJournal F → ℕ × OpJournal F
  start_op kind j = (
    j.next_id,
    record {
      ops = insert j.next_id (record { kind = kind; status = pending }) j.ops;
      next_id = inc64 j.next_id;
    },
  )

  unfoldable pub complete_op : ℕ → F → OpJournal F → OpJournal F
  complete_op id result j = elim (lookup id j.ops) [
    | none ↦ j
    | some entry ↦ record j { ops = insert id (record entry { status = ok result }) j.ops }
  ]

  unfoldable pub if_ok : Option (JournalEntry F) → Option F → Option F
  if_ok none last = last
  if_ok (some entry) last = elim entry.status [ pending ↦ last | ok v ↦ some v ]

  unfoldable pub replay_ids : Map ℕ (JournalEntry F) → List ℕ → Option F → Option F
  unfolding if_ok
  replay_ids ops [] last = last
  replay_ids ops (id ∷ ids) last = replay_ids ops ids (if_ok (lookup id ops) last)

  unfoldable pub replay_last_result : OpJournal F → Option F
  unfolding replay_ids sort_unstable
  replay_last_result j = replay_ids j.ops (sort_unstable (keys j.ops)) none

  unfoldable pub count_entry : JournalEntry F → ℕ × ℕ → ℕ × ℕ
  count_entry entry (oks, pendings) = elim entry.status [
    | ok v ↦ (oks + 1, pendings)
    | pending ↦ (oks, pendings + 1)
  ]

  unfoldable pub count_entries : List (JournalEntry F) → ℕ × ℕ → ℕ × ℕ
  unfolding count_entry
  count_entries [] n = n
  count_entries (entry ∷ entries) n = count_entries entries (count_entry entry n)

  unfoldable pub counts : OpJournal F → ℕ × ℕ
  unfolding count_entries
  counts j = count_entries (values j.ops) (0, 0)

  unfoldable pub pending_at : Map ℕ (JournalEntry F) → List ℕ → List (ℕ × OpKind F)
  pending_at ops [] = []
  pending_at ops (id ∷ ids) =
      let rest = pending_at ops ids in
      elim (lookup id ops) [
        | none ↦ rest
        | some entry ↦ elim entry.status [ ok v ↦ rest | pending ↦ (id, entry.kind) ∷ rest ]
      ]

  unfoldable pub pending_ops : OpJournal F → List (ℕ × OpKind F)
  unfolding pending_at sort_unstable
  pending_ops j = pending_at j.ops (sort_unstable (keys j.ops))

-- A message carries the channel of its reply.
pub data CalcMsg (F : Type 0) : Type 0 where
  add_msg sub_msg mul_msg div_msg : F → F → ℕ → CalcMsg F
  last_msg summary_msg : ℕ → CalcMsg F

pub data CalcReply (F : Type 0) : Type 0 where
  answer : F ⊎ String → CalcReply F
  last : Option F → CalcReply F
  summary : Option F → ℕ → ℕ → CalcReply F

-- `replies` are for the record: what was sent, and on which channel.
pub record RecoverableCalculator (F : Type 0) : Type 0 where
  pub journal : OpJournal F
  pub last_result : Option F
  pub replies : List (ℕ × CalcReply F)

-- What happens to the calculator: it handles a message; it is dropped between the start of an
-- operation and its end, by a kill or a timeout; it is stopped and restarted.
pub data CalcEvent (F : Type 0) : Type 0 where
  handled : CalcMsg F → CalcEvent F
  cut_off : OpKind F → CalcEvent F
  restarts : CalcEvent F

module _ {F : Type 0} where
  unfoldable pub new_calculator : OpJournal F → RecoverableCalculator F
  new_calculator journal = record { journal = journal; last_result = none; replies = [] }

  unfoldable pub send_reply : ℕ → CalcReply F → RecoverableCalculator F → RecoverableCalculator F
  send_reply reply r o = record o { replies = o.replies ++ (reply, r) ∷ [] }

  -- `replay_journal`, which is all that `pre_start` does.
  unfoldable pub replay_journal : RecoverableCalculator F → RecoverableCalculator F
  unfolding replay_last_result
  replay_journal o = record o { last_result = replay_last_result o.journal }

  -- The supervisor's restart: a new calculator with the same journal, and its `pre_start`.
  unfoldable pub restarted : RecoverableCalculator F → RecoverableCalculator F
  unfolding replay_journal new_calculator
  restarted o = replay_journal (record (new_calculator o.journal) { replies = o.replies })

  unfoldable pub after_compute :
      ℕ → ℕ → Call (F ⊎ String) → RecoverableCalculator F → RecoverableCalculator F × Outcome
  unfolding complete_op send_reply
  after_compute id reply panics o = (o, panicked)
  after_compute id reply (returns (inl v)) o = (
    send_reply reply (answer (inl v))
        (record o { journal = complete_op id v o.journal; last_result = some v }),
    done,
  )
  after_compute id reply (returns (inr e)) o = (send_reply reply (answer (inr e)) o, done)

module _ (floats : Floats) where
  open floats use {F, plus, minus, times, over, is_zero}

  unfoldable pub compute : OpKind F → Call (F ⊎ String)
  compute (add a b) = returns (inl (plus a b))
  compute (sub a b) = returns (inl (minus a b))
  compute (mul a b) = returns (inl (times a b))
  compute (div a b) = if is_zero b then panics else returns (inl (over a b))

  unfoldable pub run_op : OpKind F → ℕ → RecoverableCalculator F → RecoverableCalculator F × Outcome
  unfolding start_op compute after_compute
  run_op kind reply o =
      let (op_id, journal) = start_op kind o.journal in
      after_compute op_id reply (compute kind) (record o { journal = journal })

  unfoldable pub handle : CalcMsg F → RecoverableCalculator F → RecoverableCalculator F × Outcome
  unfolding run_op send_reply counts
  handle (last_msg reply) o = (send_reply reply (last o.last_result) o, done)
  handle (summary_msg reply) o =
      let (oks, pendings) = counts o.journal in
      (send_reply reply (summary o.last_result oks pendings) o, done)
  handle (add_msg a b reply) o = run_op (add a b) reply o
  handle (sub_msg a b reply) o = run_op (sub a b) reply o
  handle (mul_msg a b reply) o = run_op (mul a b) reply o
  handle (div_msg a b reply) o = run_op (div a b) reply o

  -- A calculator that ends other than by a stop is restarted, as long as its supervisor's limit is
  -- not reached.
  unfoldable pub after_handle : RecoverableCalculator F × Outcome → RecoverableCalculator F
  unfolding restarted
  after_handle (o, done) = o
  after_handle (o, failed e) = restarted o
  after_handle (o, panicked) = restarted o

  unfoldable pub on_event : CalcEvent F → RecoverableCalculator F → RecoverableCalculator F
  unfolding after_handle handle
  on_event (handled m) o = after_handle (handle m o)
  on_event (cut_off kind) o = restarted (record o { journal = (start_op kind o.journal).1 })
  on_event restarts o = restarted o

  unfoldable pub run : List (CalcEvent F) → RecoverableCalculator F → RecoverableCalculator F
  unfolding on_event
  run [] o = o
  run (event ∷ events) o = run events (on_event event o)
