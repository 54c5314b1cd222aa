-- ===== src/Frames/Writer.antt =====
-- `remote_write_loop` of src/distributed.rs: the task behind a remote reference, which takes the
-- messages of its channel and writes their frames. What the network does is a list of attempts to
-- connect; the channel's messages, all that will ever be sent, are a list.
use lane_switchboards.Base.{
  nat_eq, string_eq, ℕ, String, Bool, true, false, Option, none, some, List, [], ◌∷◌, ◌++◌,
  if◌then◌else◌, take,
}
use lane_switchboards.Frames.{Json, got, ended, failed, write_frame}

-- What becomes of a write: it is `Ok`, or an error comes after so many bytes. An `Ok` write has handed
-- its bytes to the network, which may lose them still, as Lossy has it.
pub data Fate : Type 0 where
  whole : Fate
  cut : ℕ → Fate

-- An attempt to connect is refused, and then the channel is closed or not; or it is accepted, and
-- then the writes have their fates.
pub data Attempt : Type 0 where
  refused : Bool → Attempt
  accepted : List Fate → Attempt

-- What came of a connection: the messages written on it, its bytes, the message whose write failed,
-- and the messages that are in the channel afterwards.
pub record Connection (M : Type 0) : Type 0 where
  pub written : List M
  pub bytes : List ℕ
  pub lost : Option M
  pub left : List M

module _ {M : Type 0} (json : Json M) (target : String) (max_frame_bytes : ℕ) where
  -- The bytes that a message puts on the connection, and whether the write is `Ok`.
  unfoldable pub put : Fate → M → List ℕ × Bool
  unfolding write_frame
  put fate msg = elim (write_frame json target msg max_frame_bytes) [
    | got bytes ↦ elim fate [ whole ↦ (bytes, true) | cut k ↦ (take k bytes, false) ]
    | ended ↦ ([], false)
    | failed kind ↦ ([], false)
  ]

  -- The inner loop, until a write fails or there is no more to say.
  unfoldable pub drain : List Fate → List M → Connection M
  unfolding put
  drain [] queue = record { written = []; bytes = []; lost = none; left = queue }
  drain (fate ∷ fates) [] = record { written = []; bytes = []; lost = none; left = [] }
  drain (fate ∷ fates) (msg ∷ queue) =
      let rest = drain fates queue in
      let (out, fine) = put fate msg in
      if fine
      then record rest { written = msg ∷ rest.written; bytes = out ++ rest.bytes }
      else record { written = []; bytes = out; lost = some msg; left = queue }

  -- The connections, in order, and the messages that stay in the channel.
  unfoldable pub remote_write_loop : List Attempt → List M → List (Connection M) × List M
  unfolding drain
  remote_write_loop [] queue = ([], queue)
  remote_write_loop (refused closed ∷ attempts) queue =
      let later = remote_write_loop attempts queue in if closed then ([], queue) else later
  remote_write_loop (accepted fates ∷ attempts) queue =
      let c = drain fates queue in
      elim c.lost [
        | none ↦ (c ∷ [], c.left)
        | some msg ↦
            let (connections, left) = remote_write_loop attempts c.left in (c ∷ connections, left)
      ]
