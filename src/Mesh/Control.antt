-- ===== src/Mesh/Control.antt =====
-- The frames of the control plane in src/mesh.rs: `write_control`, `read_control_len` and
-- `read_control`, and the turn of `handle_registry_conn` from bytes to bytes. serde_json is a
-- parameter. A stream is the bytes that arrive and what comes after them, as in Frames.
use lane_switchboards.Base.{
  nat_eq, string_eq, pair_eq, ℕ, ◌*◌, ◌%◌, ◌^◌, Bool, true, false, Option, none, some, List, [],
  ◌∷◌, ◌++◌, ltb, if◌then◌else◌, ◌==◌, length,
}
use lane_switchboards.Frames.{
  invalid_data, unexpected_eof, timed_out as io_timed_out, other, Tail, eof, silent, broken, Read,
  got, ended, failed, take_exact, le_bytes, le_value, read_body, Io, done, error, invalid_input,
}
use lane_switchboards.Mesh.Registry.{
  MeshRegistry, MeshControlMsg, Arrival, closed, message, failed as read_error, timed_out as late,
  ConnEnd, waiting, answer, handle_registry_conn,
}

-- `serde_json` on the messages of the control plane, in bytes.
pub record ControlJson : Type 0 where
  pub to_vec : MeshControlMsg → Option (List ℕ)
  pub from_slice : List ℕ → Option MeshControlMsg

abbrev pub max_control_frame : ℕ
max_control_frame = 64 * 1024

unfoldable pub control_length : ℕ → Read ℕ
control_length n =
    if n == 0 then ended else if ltb max_control_frame n then failed invalid_data else got n

unfoldable pub read_control_len : List ℕ → Tail → Read ℕ × List ℕ
unfolding take_exact le_value control_length
read_control_len bytes tail = elim (take_exact 4 bytes) [
  | some (taken, rest) ↦ (control_length (le_value taken), rest)
  | none ↦ (elim tail [ eof ↦ ended | silent ↦ failed io_timed_out | broken ↦ failed other ], [])
]

module _ (json : ControlJson) where
  open json use {to_vec, from_slice}

  -- The bytes of a message; or an error where it does not serialize or is too long.
  unfoldable pub write_control : MeshControlMsg → Io (List ℕ)
  unfolding le_bytes
  write_control msg = elim (to_vec msg) [
    | none ↦ error invalid_data
    | some body ↦
        if ltb max_control_frame (length body)
        then error invalid_data
        else done (le_bytes (length body % 2 ^ 32) ++ body)
  ]

  unfoldable pub parsed : Option MeshControlMsg → Read MeshControlMsg
  parsed none = failed invalid_data
  parsed (some msg) = got msg

  unfoldable pub parse_control : Read (List ℕ) × List ℕ → Read MeshControlMsg × List ℕ
  unfolding parsed
  parse_control (got body, rest) = (parsed (from_slice body), rest)
  parse_control (ended, rest) = (ended, rest)
  parse_control (failed kind, rest) = (failed kind, rest)

  unfoldable pub after_control_len : Read ℕ × List ℕ → Tail → Read MeshControlMsg × List ℕ
  unfolding read_body parse_control
  after_control_len (got n, rest) tail = parse_control (read_body n rest tail)
  after_control_len (ended, rest) tail = (ended, rest)
  after_control_len (failed kind, rest) tail = (failed kind, rest)

  unfoldable pub read_control : List ℕ → Tail → Read MeshControlMsg × List ℕ
  unfolding read_control_len after_control_len
  read_control bytes tail = after_control_len (read_control_len bytes tail) tail

  -- What the reading comes to for the handler of a connection.
  unfoldable pub arrival_of : Read MeshControlMsg → Arrival
  arrival_of (got msg) = message msg
  arrival_of ended = closed
  arrival_of (failed io_timed_out) = late
  arrival_of (failed invalid_data) = read_error
  arrival_of (failed unexpected_eof) = read_error
  arrival_of (failed invalid_input) = read_error
  arrival_of (failed other) = read_error

  -- Can the reply to the arrival be written, the socket being there?
  unfoldable pub is_writable : ℕ → Arrival → MeshRegistry → Bool
  unfolding answer write_control
  is_writable now (message msg) reg = elim (answer now msg reg).1 [
    | none ↦ true
    | some reply ↦ elim (write_control reply) [ done bytes ↦ true | error kind ↦ false ]
  ]
  is_writable now closed reg = true
  is_writable now read_error reg = true
  is_writable now late reg = true

  unfoldable pub written : List MeshControlMsg → List ℕ
  unfolding write_control
  written [] = []
  written (m ∷ replies) = elim (write_control m) [
    | done bytes ↦ bytes ++ written replies
    | error kind ↦ written replies
  ]

  -- One turn of `handle_registry_conn`.
  unfoldable pub react : ℕ → Arrival → MeshRegistry → MeshRegistry × List MeshControlMsg × ConnEnd
  unfolding is_writable handle_registry_conn
  react now arrival reg =
      handle_registry_conn ((arrival, now, is_writable now arrival reg) ∷ []) reg

  unfoldable pub turn_of :
      MeshRegistry × List MeshControlMsg × ConnEnd → MeshRegistry × List ℕ × Tail
  unfolding written
  turn_of (reg, replies, end) = (reg, written replies, elim end [ waiting ↦ silent | _ ↦ eof ])

  -- The turn on what a client has written: the registry, the bytes that go back, and what comes
  -- after them.
  unfoldable pub registry_turn : ℕ → List ℕ → MeshRegistry → MeshRegistry × List ℕ × Tail
  unfolding read_control arrival_of react turn_of
  registry_turn now bytes reg = turn_of (react now (arrival_of (read_control bytes silent).0) reg)
