-- ===== src/Frames/Reach.antt =====
-- From a remote reference of src/distributed.rs to the channel of its target, on a network that
-- comes to work.
use mathlib.Core.Path.{subst}
use mathlib.Core.List.{append-nil}
use mathlib.Core.List.{Permᴰ}
use lane_switchboards.Base.{
  nat_eq, string_eq, ℕ, zero, suc, ◌≤◌, String, ◌≡◌, refl, ap, ◌∙◌, true, false, none, some, List,
  [], ◌∷◌, arith, ==_refl, length, All, lookup, ◌^◌, ◌<◌, inl, inr, ◌++◌, get_elem?,
}
use lane_switchboards.Config.{DistributedConfig}
use lane_switchboards.Frames.{Json, eof, got, write_frame, handle_conn}
use lane_switchboards.Frames.Stream.{IsCodec}
use lane_switchboards.Frames.Writer.{
  drain, Fate, whole, Attempt, refused, accepted, put, remote_write_loop,
}
use lane_switchboards.Frames.Node.{Node, Channel, run_tasks}
use lane_switchboards.Frames.Delivery.{frames_of, lost_of, drain-IsDelivered}
use lane_switchboards.Frames.Dispatch.{leads, messages_for, run_tasks-any_order}

-- So many refusals, while the channel is open, and then these attempts.
abbrev pub after_refusals : ℕ → List Attempt → List Attempt
after_refusals zero attempts = attempts
after_refusals (suc n) attempts = refused false ∷ after_refusals n attempts

abbrev pub IsWhole : Fate → Type 0
IsWhole fate = fate ≡ whole

messages_for-frames_of :
    {M : Type 0}
    → (node : Node) (tx : ℕ) (target : String) (queue : List M)
    → lookup target node.dispatch ≡ some tx
    → messages_for node tx (frames_of target queue) ≡ queue
messages_for-frames_of node tx target [] e = refl
messages_for-frames_of node tx target (m ∷ queue) e =
    let on : leads node tx target ≡ true = rw (e, leads) (==_refl tx) in
    rw on (ap (λ l. m ∷ l) (messages_for-frames_of node tx target queue e))

module _ {M : Type 0} (json : Json M) (target : String) (max_frame_bytes : ℕ) where
  -- The message serializes, and its frame is within the limit.
  abbrev pub IsFramed : M → Type 0
  IsFramed msg = (frame : List ℕ) × (write_frame json target msg max_frame_bytes ≡ got frame)

  put-whole :
      (msg : M) (frame : List ℕ)
      → write_frame json target msg max_frame_bytes ≡ got frame
      → put json target max_frame_bytes whole msg ≡ (frame, true)
  unfolding put
  put-whole msg frame e = rw (e, put) refl

  drain-whole :
      (fates : List Fate) (queue : List M)
      → All IsWhole fates
      → length queue ≤ length fates
      → All IsFramed queue
      → ((drain json target max_frame_bytes fates queue).written ≡ queue)
        × ((drain json target max_frame_bytes fates queue).lost ≡ none)
        × ((drain json target max_frame_bytes fates queue).left ≡ [])
  unfolding drain
  drain-whole [] [] w l f = (refl, refl, refl)
  drain-whole [] (msg ∷ queue) w l f = absurd (omega (arith, l))
  drain-whole (fate ∷ fates) [] w l f = (refl, refl, refl)
  drain-whole (fate ∷ fates) (msg ∷ queue) w l f =
      let (frame, e) = f.0 in
      let goes : put json target max_frame_bytes fate msg ≡ (frame, true) =
        ap (λ k. put json target max_frame_bytes k msg) w.0 ∙ put-whole msg frame e in
      let (e1, e2, e3) = drain-whole fates queue w.1 (omega (arith, l)) f.1 in
      rw (goes, drain) (ap (λ l. msg ∷ l) e1, e2, e3)

  remote_write_loop-whole :
      (n : ℕ) (fates : List Fate) (attempts : List Attempt) (queue : List M)
      → All IsWhole fates
      → length queue ≤ length fates
      → All IsFramed queue
      → remote_write_loop json target max_frame_bytes
          (after_refusals n (accepted fates ∷ attempts))
          queue
        ≡ (drain json target max_frame_bytes fates queue ∷ [], [])
  unfolding remote_write_loop
  remote_write_loop-whole zero fates attempts queue w l f =
      let (e1, e2, e3) = drain-whole fates queue w l f in
      rw (e2, remote_write_loop)
        (ap (λ q. (drain json target max_frame_bytes fates queue ∷ [], q)) e3)
  remote_write_loop-whole (suc n) fates attempts queue w l f =
      remote_write_loop-whole n fates attempts queue w l f

module _ {M : Type 0} (json : Json M) (target : String) where
  tasks-whole :
      (config : DistributedConfig) (fates : List Fate) (queue : List M) (fuel : ℕ)
      → IsCodec json
      → config.max_frame_bytes < 2 ^ 32
      → All IsWhole fates
      → length queue ≤ length fates
      → All (IsFramed json target config.max_frame_bytes) queue
      → length (drain json target config.max_frame_bytes fates queue).bytes < fuel
      → (handle_conn json fuel config
          (drain json target config.max_frame_bytes fates queue).bytes
          eof).0
        ≡ frames_of target queue
  tasks-whole config fates queue fuel c w whole_ l f enough =
      let d = drain json target config.max_frame_bytes fates queue in
      let (e1, e2, e3) = drain-whole json target config.max_frame_bytes fates queue whole_ l f in
      elim (drain-IsDelivered json target config fates queue c w fuel enough) [
        | inl t ↦ t ∙ ap (frames_of target) e1
        | inr t ↦
            t
            ∙ ap (λ o. frames_of target d.written ++ frames_of target (lost_of o)) e2
            ∙ append-nil (frames_of target d.written)
            ∙ ap (frames_of target) e1
      ]

  -- Once the network works, every message arrives: after any number of refused attempts, on the
  -- first connection whose writes go through, for as many messages as there are, the task of a
  -- remote reference writes all of the channel's messages on that connection; and the node at the
  -- other end, in whatever order it runs the tasks of the frames, puts each of them once into the
  -- channel of the target, where the target is registered and its channel open. Each message
  -- serializes within the frame limit, which is the node's too and fits 32 bits, and serde_json reads
  -- what it wrote.
  pub remote_write_loop-reaches :
      (config : DistributedConfig) (n : ℕ) (fates : List Fate) (attempts : List Attempt)
      (queue : List M) (fuel : ℕ) (node : Node) (tx : ℕ) (order : List (String × M))
      (channels : List (Channel M)) (before : Channel M)
      → IsCodec json
      → config.max_frame_bytes < 2 ^ 32
      → All IsWhole fates
      → length queue ≤ length fates
      → All (IsFramed json target config.max_frame_bytes) queue
      → length (drain json target config.max_frame_bytes fates queue).bytes < fuel
      → Permᴰ
          (handle_conn json fuel config
            (drain json target config.max_frame_bytes fates queue).bytes
            eof).0
          order
      → lookup target node.dispatch ≡ some tx
      → get_elem? channels tx ≡ some before
      → before.closed ≡ false
      → (remote_write_loop json target config.max_frame_bytes
            (after_refusals n (accepted fates ∷ attempts))
            queue
          ≡ (drain json target config.max_frame_bytes fates queue ∷ [], []))
        × (later : List M) × (c' : Channel M) × (get_elem? (run_tasks node order channels) tx
            ≡ some c')
        × (c'.queue ≡ before.queue ++ later)
        × Permᴰ queue later
  remote_write_loop-reaches config n fates attempts queue fuel node tx order channels before c w
        whole_ l f enough p reg e o =
      let tasks = tasks-whole config fates queue fuel c w whole_ l f enough in
      let p' : Permᴰ (frames_of target queue) order =
        subst (λ (ts : List (String × M)). Permᴰ ts order) tasks p in
      let (c', later, e1, o1, q, perm) =
        run_tasks-any_order node tx (frames_of target queue) order channels before p' e o in
      (
        remote_write_loop-whole json target config.max_frame_bytes n fates attempts queue whole_ l
            f,
        later,
        c',
        e1,
        q,
        subst (λ (ms : List M). Permᴰ ms later) (messages_for-frames_of node tx target queue reg)
            perm,
      )
