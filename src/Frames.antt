-- ===== src/Frames.antt =====
-- The wire of src/distributed.rs: `write_frame`, `read_u32_le_timeout` and `handle_conn`.
-- serde_json is a parameter. A stream is the bytes that arrive and what comes after them. The
-- in-flight semaphore is never closed, so that `handle_conn` gets each permit in the end; Server has
-- the permits themselves. A task that is spawned for a frame is its target and message; the tasks
-- run in no order that the code fixes.
pub mod Stream
pub mod Writer
pub mod Node
pub mod Dispatch
pub mod Cut
pub mod Lossy
pub mod Delivery
pub mod Reach
pub mod Server
pub mod Rounds
pub mod Faithful
pub mod Permits
use lane_switchboards.Base.{
  nat_eq, string_eq, ℕ, zero, suc, ◌+◌, ◌*◌, ◌/◌, ◌%◌, ◌^◌, String, Option, none, some, List, [],
  ◌∷◌, ◌++◌, ltb, if◌then◌else◌, ◌==◌, length,
}
use lane_switchboards.Config.{DistributedConfig}

-- `serde_json` on the frames of messages `M`, in bytes.
pub record Json (M : Type 0) : Type 1 where
  pub Value : Type 0
  pub to_vec : String → M → Option (List ℕ)
  pub from_slice : List ℕ → Option (String × Value)
  pub from_value : Value → Option M

-- The kinds of `std::io::Error` that the code gives or passes on.
pub data ErrorKind : Type 0 where
  invalid_data invalid_input unexpected_eof timed_out other : ErrorKind

-- `std::io::Result`.
pub data Io (A : Type 0) : Type 0 where
  done : A → Io A
  error : ErrorKind → Io A

-- What follows the bytes of a stream: its end, silence, or an error.
pub data Tail : Type 0 where
  eof silent broken : Tail

pub data Read {ℓ} (A : Type ℓ) : Type ℓ where
  got : A → Read A
  ended : Read A
  failed : ErrorKind → Read A

-- `read_exact`: so many bytes and the rest, if there are so many.
unfoldable pub take_exact : ℕ → List ℕ → Option (List ℕ × List ℕ)
take_exact zero bytes = some ([], bytes)
take_exact (suc n) [] = none
take_exact (suc n) (b ∷ bytes) = elim (take_exact n bytes) [
  | none ↦ none
  | some (taken, rest) ↦ some (b ∷ taken, rest)
]

-- `write_u32_le` and its inverse.
unfoldable pub le_bytes : ℕ → List ℕ
le_bytes n = n % 256 ∷ n / 256 % 256 ∷ n / 65536 % 256 ∷ n / 16777216 % 256 ∷ []

unfoldable pub le_value : List ℕ → ℕ
le_value [] = 0
le_value (b ∷ bytes) = b + 256 * le_value bytes

unfoldable pub frame_length : DistributedConfig → ℕ → Read ℕ
frame_length config n =
    if n == 0 then ended else if ltb config.max_frame_bytes n then failed invalid_data else got n

unfoldable pub read_u32_le_timeout : DistributedConfig → List ℕ → Tail → Read ℕ × List ℕ
unfolding take_exact le_value frame_length
read_u32_le_timeout config bytes tail = elim (take_exact 4 bytes) [
  | some (taken, rest) ↦ (frame_length config (le_value taken), rest)
  | none ↦ (elim tail [ eof ↦ ended | silent ↦ failed timed_out | broken ↦ failed other ], [])
]

unfoldable pub read_body : ℕ → List ℕ → Tail → Read (List ℕ) × List ℕ
unfolding take_exact
read_body n bytes tail = elim (take_exact n bytes) [
  | some (taken, rest) ↦ (got taken, rest)
  | none ↦ (
    elim tail [ eof ↦ failed unexpected_eof | silent ↦ failed timed_out | broken ↦ failed other ],
    [],
  )
]

module _ {M : Type 0} (json : Json M) where
  open json use {to_vec, from_slice, from_value}

  -- The bytes of a frame; or an error where the message does not serialize or is too long.
  unfoldable pub write_frame : String → M → ℕ → Read (List ℕ)
  unfolding le_bytes
  write_frame target msg max_frame_bytes = elim (to_vec target msg) [
    | none ↦ failed invalid_data
    | some body ↦
        if ltb max_frame_bytes (length body)
        then failed invalid_data
        else got (le_bytes (length body % 2 ^ 32) ++ body)
  ]

  unfoldable pub decode : List ℕ → Option (String × M)
  decode body = elim (from_slice body) [
    | none ↦ none
    | some (target, payload) ↦ elim (from_value payload) [
      | none ↦ none
      | some msg ↦ some (target, msg)
    ]
  ]

  -- The tasks spawned, in order, and the result of the connection; `none` where the fuel runs out,
  -- of which the number of bytes is enough.
  abbrev pub Served : Type 0
  Served = List (String × M) × Option (Read Unit)

  unfoldable pub and_spawn : Option (String × M) → Served → Served
  and_spawn none later = ([], some (failed invalid_data))
  and_spawn (some task) (tasks, end) = (task ∷ tasks, end)

  -- What the loop does with the body it has read, and with the length.
  unfoldable pub after_body : Read (List ℕ) × List ℕ → (List ℕ → Served) → Served
  unfolding decode and_spawn
  after_body (got body, later) serve = and_spawn (decode body) (serve later)
  after_body (ended, later) serve = ([], some ended)
  after_body (failed kind, later) serve = ([], some (failed kind))

  unfoldable pub after_length : Read ℕ × List ℕ → Tail → (List ℕ → Served) → Served
  unfolding read_body after_body
  after_length (got n, rest) tail serve = after_body (read_body n rest tail) serve
  after_length (ended, rest) tail serve = ([], some ended)
  after_length (failed kind, rest) tail serve = ([], some (failed kind))

  unfoldable pub handle_conn : ℕ → DistributedConfig → List ℕ → Tail → Served
  unfolding read_u32_le_timeout after_length
  handle_conn zero config bytes tail = ([], none)
  handle_conn (suc fuel) config bytes tail =
      after_length (read_u32_le_timeout config bytes tail) tail
        (λ later. handle_conn fuel config later tail)
