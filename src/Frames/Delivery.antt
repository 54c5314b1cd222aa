-- ===== src/Frames/Delivery.antt =====
-- What a remote reference's task writes against what the node at the other end makes of it
-- (src/distributed.rs).
use mathlib.Core.List.{append_assoc, append-nil}
use lane_switchboards.Base.{
  nat_eq, string_eq, zero, suc, ℕ, ◌<◌, String, ◌≡◌, refl, sym, ap, ◌∙◌, ◌⊎◌, inl, inr, Option,
  none, some, List, [], ◌∷◌, ◌++◌, map, length, ◌^◌, arith, Bool-cases, Option-cases, take,
  length-append, All,
}
use lane_switchboards.Config.{DistributedConfig}
use lane_switchboards.Frames.{Json, eof, handle_conn}
use lane_switchboards.Frames.Stream.{IsCodec, IsWritten, handle_conn-frames, handle_conn-nothing}
use lane_switchboards.Frames.Writer.{
  Connection, drain, Fate, Attempt, refused, accepted, remote_write_loop,
}
use lane_switchboards.Frames.Lossy.{Begins, frames-Begins, take-take}
use lane_switchboards.Frames.Cut.{IsCut, put-cases, cut_write}

module _ {M : Type 0} where
  -- The message whose write failed, if there is one.
  abbrev pub lost_of : Option M → List M
  lost_of none = []
  lost_of (some msg) = msg ∷ []

  -- The tasks that messages to a target come to.
  abbrev pub frames_of : String → List M → List (String × M)
  frames_of target = map (λ m. (target, m))

  -- All that the connections took from the channel, in order.
  abbrev pub taken_by : List (Connection M) → List M
  taken_by [] = []
  taken_by (c ∷ connections) = c.written ++ (lost_of c.lost ++ taken_by connections)

take-nil : (n : ℕ) → take {A = ℕ} n [] ≡ []
take-nil zero = refl
take-nil (suc n) = refl

taken_more :
    {M : Type 0}
    → (c : Connection M) (connections : List (Connection M)) (left queue : List M)
    → c.written ++ (lost_of c.lost ++ c.left) ≡ queue
    → taken_by connections ++ left ≡ c.left
    → taken_by (c ∷ connections) ++ left ≡ queue
taken_more c connections left queue e e' =
    append_assoc c.written (lost_of c.lost ++ taken_by connections) left
    ∙ ap (λ l. c.written ++ l)
        (append_assoc (lost_of c.lost) (taken_by connections) left
          ∙ ap (λ l. lost_of c.lost ++ l) e')
    ∙ e

module _ {M : Type 0} (json : Json M) (target : String) where
  drain-taken :
      (max_frame_bytes : ℕ) (fates : List Fate) (queue : List M)
      → let c = drain json target max_frame_bytes fates queue in
        c.written ++ (lost_of c.lost ++ c.left) ≡ queue
  unfolding drain
  drain-taken max_frame_bytes [] queue = refl
  drain-taken max_frame_bytes (fate ∷ fates) [] = refl
  drain-taken max_frame_bytes (fate ∷ fates) (msg ∷ queue) =
      elim (put-cases json target max_frame_bytes fate msg) [
        | inl (bytes, e, w) ↦
            rw (e, drain) (ap (λ l. msg ∷ l) (drain-taken max_frame_bytes fates queue))
        | inr (out, e, w) ↦ rw (e, drain) refl
      ]

  drain-written :
      (max_frame_bytes : ℕ) (fates : List Fate) (queue : List M)
      → let c = drain json target max_frame_bytes fates queue in
        (head : List ℕ) × (part : List ℕ) × (c.bytes ≡ head ++ part)
        × IsWritten json max_frame_bytes (frames_of target c.written) head
        × IsCut json target max_frame_bytes c.lost part
  unfolding drain
  drain-written max_frame_bytes [] queue = ([], [], refl, refl, refl)
  drain-written max_frame_bytes (fate ∷ fates) [] = ([], [], refl, refl, refl)
  drain-written max_frame_bytes (fate ∷ fates) (msg ∷ queue) =
      elim (put-cases json target max_frame_bytes fate msg) [
        | inl (bytes, e, w) ↦
            let (head, part, e1, h, p) = drain-written max_frame_bytes fates queue in
            rw (e, drain)
              (
                bytes ++ head,
                part,
                ap (λ l. bytes ++ l) e1 ∙ sym (append_assoc bytes head part),
                (bytes, head, w, refl, h),
                p,
              )
        | inr (out, e, w) ↦ rw (e, drain) ([], out, refl, refl, w)
      ]

  -- The tasks of a connection are the messages written, or also the one whose write failed.
  abbrev pub IsDelivered : DistributedConfig → Connection M → Type 0
  IsDelivered config c =
      (fuel : ℕ)
      → length c.bytes < fuel
      → ((handle_conn json fuel config c.bytes eof).0 ≡ frames_of target c.written)
        ⊎ ((handle_conn json fuel config c.bytes eof).0
            ≡ frames_of target c.written ++ frames_of target (lost_of c.lost))

  nothing_sent :
      (config : DistributedConfig) (part : List ℕ) (fuel : ℕ)
      → part ≡ []
      → 0 < fuel
      → (handle_conn json fuel config part eof).0 ≡ []
  nothing_sent config part fuel e l =
      ap (λ b. (handle_conn json fuel config b eof).0) e
      ∙ ap (λ s. s.0) (handle_conn-nothing json fuel config l)

  part-tasks :
      (config : DistributedConfig) (lost : Option M) (part : List ℕ) (fuel : ℕ)
      → IsCodec json
      → config.max_frame_bytes < 2 ^ 32
      → IsCut json target config.max_frame_bytes lost part
      → length part < fuel
      → ((handle_conn json fuel config part eof).0 ≡ [])
        ⊎ ((handle_conn json fuel config part eof).0 ≡ frames_of target (lost_of lost))
  part-tasks config none part fuel c w e l =
      inl (nothing_sent config part fuel e (omega (arith, l)))
  part-tasks config (some msg) part fuel c w (inl e) l =
      inl (nothing_sent config part fuel e (omega (arith, l)))
  part-tasks config (some msg) part fuel c w (inr (k, frame, e, cutting)) l =
      let short : length (take k frame) < fuel = rw (sym cutting) l in
      rw cutting (cut_write json target msg k fuel config frame c w e short)

  IsCut-take :
      (max_frame_bytes : ℕ) (lost : Option M) (part : List ℕ) (n : ℕ)
      → IsCut json target max_frame_bytes lost part
      → IsCut json target max_frame_bytes lost (take n part)
  IsCut-take max_frame_bytes none part n e = ap (take n) e ∙ take-nil n
  IsCut-take max_frame_bytes (some msg) part n (inl e) = inl (ap (take n) e ∙ take-nil n)
  IsCut-take max_frame_bytes (some msg) part n (inr (k, frame, e, cutting)) =
      let (m, q) = take-take n k frame in inr (m, frame, e, ap (take n) cutting ∙ q)

  pub drain-IsDelivered :
      (config : DistributedConfig) (fates : List Fate) (queue : List M)
      → IsCodec json
      → config.max_frame_bytes < 2 ^ 32
      → IsDelivered config (drain json target config.max_frame_bytes fates queue)
  drain-IsDelivered config fates queue c w fuel l =
      let d = drain json target config.max_frame_bytes fates queue in
      let (head, part, e, h, p) = drain-written config.max_frame_bytes fates queue in
      let (fuel', enough, q) =
        handle_conn-frames json (frames_of target d.written) fuel config head part eof c w h
          (omega (arith, l, ap length e, length-append head part)) in
      let all : (handle_conn json fuel config d.bytes eof).0
          ≡ frames_of target d.written ++ (handle_conn json fuel' config part eof).0 =
        ap (λ b. (handle_conn json fuel config b eof).0) e ∙ ap (λ s. s.0) q in
      elim (part-tasks config d.lost part fuel' c w p enough) [
        | inl t ↦ inl (
            all
            ∙ ap (λ ts. frames_of target d.written ++ ts) t
            ∙ append-nil (frames_of target d.written))
        | inr t ↦ inr (all ∙ ap (λ ts. frames_of target d.written ++ ts) t)
      ]

  part-Begins :
      (config : DistributedConfig) (lost : Option M) (part : List ℕ)
      → IsCodec json
      → config.max_frame_bytes < 2 ^ 32
      → IsCut json target config.max_frame_bytes lost part
      → Begins json config part (frames_of target (lost_of lost))
  part-Begins config lost part c w e n fuel l =
      elim (part-tasks config lost (take n part) fuel c w
        (IsCut-take config.max_frame_bytes lost part n e) l) [
          | inl t ↦ (frames_of target (lost_of lost), rw t refl)
          | inr t ↦ ([], ap (λ ts. ts ++ []) t ∙ append-nil (frames_of target (lost_of lost)))
        ]

  -- What a node makes of a connection: of all its bytes, as above; and of the beginning of them,
  -- where the rest is lost, the beginning of the tasks.
  abbrev pub IsReceived : DistributedConfig → Connection M → Type 0
  IsReceived config c =
      IsDelivered config c
      × Begins json config c.bytes (frames_of target c.written ++ frames_of target (lost_of c.lost))

  drain-IsReceived :
      (config : DistributedConfig) (fates : List Fate) (queue : List M)
      → IsCodec json
      → config.max_frame_bytes < 2 ^ 32
      → IsReceived config (drain json target config.max_frame_bytes fates queue)
  drain-IsReceived config fates queue c w =
      let d = drain json target config.max_frame_bytes fates queue in
      let (head, part, e, h, p) = drain-written config.max_frame_bytes fates queue in
      (
        drain-IsDelivered config fates queue c w,
        rw e (
            frames-Begins json config (frames_of target d.written)
              (frames_of target (lost_of d.lost)) head part c w h
              (part-Begins config d.lost part c w p)),
      )

  -- The task of a remote reference, whatever the network does: each message of the channel is
  -- written once, in the order of the channel, or is the one whose write failed on a connection, or
  -- stays in the channel. Where all the bytes of a connection arrive, what a node at the other end
  -- makes of them, when it ends, is one task to each message written on it, in that order, and at
  -- most one more, of the message whose write failed. Where only the first of them arrive, although
  -- the writes were `Ok`, it is the beginning of these tasks: messages are lost from some point on,
  -- and none comes twice or out of order. The node has the same frame limit, which fits 32 bits, and
  -- serde_json reads what it wrote.
  pub remote_write_loop-delivers :
      (config : DistributedConfig) (attempts : List Attempt) (queue : List M)
      → IsCodec json
      → config.max_frame_bytes < 2 ^ 32
      → (let (connections, left) =
            remote_write_loop json target config.max_frame_bytes attempts queue in
          (taken_by connections ++ left ≡ queue) × All (IsReceived config) connections)
  unfolding remote_write_loop
  remote_write_loop-delivers config [] queue c w = (refl, tt)
  remote_write_loop-delivers config (refused closed ∷ attempts) queue c w =
      elim (Bool-cases closed) [
        | inl t ↦ rw (t, remote_write_loop) (refl, tt)
        | inr t ↦ rw (t, remote_write_loop) (remote_write_loop-delivers config attempts queue c w)
      ]
  remote_write_loop-delivers config (accepted fates ∷ attempts) queue c w =
      let d = drain json target config.max_frame_bytes fates queue in
      let taken = drain-taken config.max_frame_bytes fates queue in
      let here = drain-IsReceived config fates queue c w in
      elim (Option-cases d.lost) [
        | inl e ↦ rw (e, remote_write_loop) (taken_more d [] d.left queue taken refl, (here, tt))
        | inr (msg, e) ↦
            let (order, rest) = remote_write_loop-delivers config attempts d.left c w in
            rw (e, remote_write_loop)
              (
                taken_more d
                    (remote_write_loop json target config.max_frame_bytes attempts d.left).0
                    (remote_write_loop json target config.max_frame_bytes attempts d.left).1 queue
                    taken order,
                (here, rest),
              )
      ]
