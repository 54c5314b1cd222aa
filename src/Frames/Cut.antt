-- ===== src/Frames/Cut.antt =====
-- A write that fails in src/distributed.rs: what is on the wire of its frame, and what the node at
-- the other end makes of that.
use mathlib.Core.List.{append-nil}
use lane_switchboards.Base.{
  nat_eq, string_eq, ℕ, zero, suc, ◌+◌, ◌^◌, ◌≤◌, ◌<◌, ◌≡◌, refl, ap, ◌∙◌, none, List, [], ◌∷◌,
  ◌++◌, arith, length, take, length-take, ◌%◌, String, sym, ◌⊎◌, inl, inr, true, false, Option,
  some, ltb, Bool-cases, length-append, take-all,
}
use lane_switchboards.Config.{DistributedConfig}
use lane_switchboards.Frames.{
  Json, eof, got, ended, failed, unexpected_eof, take_exact, le_bytes, read_body, write_frame,
  handle_conn, after_body, after_length, read_u32_le_timeout,
}
use lane_switchboards.Frames.Stream.{
  IsCodec, read_u32_le_timeout-le_bytes, length-le_bytes, write_frame-got, after_tasks,
  handle_conn-frames, handle_conn-nothing,
}
use lane_switchboards.Frames.Writer.{Fate, whole, cut, put}

take_exact-short : (n : ℕ) (xs : List ℕ) → length xs < n → take_exact n xs ≡ none
unfolding take_exact
take_exact-short zero xs h = absurd (omega arith)
take_exact-short (suc n) [] h = refl
take_exact-short (suc n) (x ∷ xs) h = rw (take_exact-short n xs (omega arith)) refl

read_body-short :
    (n : ℕ) (xs : List ℕ) → length xs < n → read_body n xs eof ≡ (failed unexpected_eof, [])
unfolding read_body
read_body-short n xs h = rw (take_exact-short n xs h, read_body) refl

module _ {M : Type 0} (json : Json M) where
  -- A frame that breaks off spawns nothing.
  cut_frame :
      (k fuel : ℕ) (config : DistributedConfig) (body : List ℕ)
      → 0 < length body
      → length body ≤ config.max_frame_bytes
      → config.max_frame_bytes < 2 ^ 32
      → k < 4 + length body
      → (handle_conn json (suc fuel) config (take k (le_bytes (length body) ++ body)) eof).0 ≡ []
  unfolding handle_conn read_u32_le_timeout take_exact after_length after_body le_bytes
  cut_frame zero fuel config body p h w l = refl
  cut_frame (suc zero) fuel config body p h w l = refl
  cut_frame (suc (suc zero)) fuel config body p h w l = refl
  cut_frame (suc (suc (suc zero))) fuel config body p h w l = refl
  cut_frame (suc (suc (suc (suc j)))) fuel config body p h w l =
      let first =
        read_u32_le_timeout-le_bytes config (length body) (take j body) eof p h
          (omega (arith, h, w)) in
      let part : length (take j body) < length body = omega (arith, l, length-take j body) in
      let serve = λ (more : List ℕ). handle_conn json fuel config more eof in
      ap (λ r. (after_length json r eof serve).0) first
      ∙ ap (λ r. (after_body json r serve).0) (read_body-short (length body) (take j body) part)

  -- A frame that breaks off or goes out whole spawns nothing or its one task.
  pub cut_write :
      (target : String) (msg : M) (k fuel : ℕ) (config : DistributedConfig) (frame : List ℕ)
      → IsCodec json
      → config.max_frame_bytes < 2 ^ 32
      → write_frame json target msg config.max_frame_bytes ≡ got frame
      → length (take k frame) < fuel
      → ((handle_conn json fuel config (take k frame) eof).0 ≡ [])
        ⊎ ((handle_conn json fuel config (take k frame) eof).0 ≡ (target, msg) ∷ [])
  cut_write target msg k zero config frame c w e l = absurd (omega arith)
  cut_write target msg k (suc fuel) config frame c w e l =
      let (body, made, short, e1) =
        write_frame-got json target msg config.max_frame_bytes frame e in
      let (p, read) = c target msg body made in
      let len : length body % 2 ^ 32 ≡ length body = omega (arith, short, w) in
      let shape : frame ≡ le_bytes (length body) ++ body = e1 ∙ ap (λ n. le_bytes n ++ body) len in
      elim (Bool-cases (ltb k (4 + length body))) [
        | inl t ↦ inl (
            ap (λ f. (handle_conn json (suc fuel) config (take k f) eof).0) shape
            ∙ cut_frame k fuel config body p short w (ground arith))
        | inr t ↦
            let size : length frame ≡ 4 + length body = rw shape (
              length-append (le_bytes (length body)) body
              ∙ ap (λ n. n + length body) (length-le_bytes (length body))) in
            let all : take k frame ≡ frame = take-all k frame (ground (arith, size)) in
            let (fuel', enough, one_task) =
              handle_conn-frames json ((target, msg) ∷ []) (suc fuel) config frame [] eof c w
                (frame, [], e, sym (append-nil frame), refl) (omega (arith, l, ap length all)) in
            inr (
              ap (λ f. (handle_conn json (suc fuel) config f eof).0) (all ∙ sym (append-nil frame))
              ∙ ap (λ s. s.0)
                  (one_task
                    ∙ ap (after_tasks json ((target, msg) ∷ []))
                        (handle_conn-nothing json fuel' config enough)))
      ]

  module _ (target : String) (max_frame_bytes : ℕ) where
    -- What is on the wire of the message whose write failed.
    abbrev pub IsCut : Option M → List ℕ → Type 0
    IsCut none part = part ≡ []
    IsCut (some msg) part =
        (part ≡ [])
        ⊎ ((k : ℕ) × (frame : List ℕ) × (write_frame json target msg max_frame_bytes ≡ got frame)
            × (part ≡ take k frame))

    pub put-cases :
        (fate : Fate) (msg : M)
        → ((bytes : List ℕ) × (put json target max_frame_bytes fate msg ≡ (bytes, true))
            × (write_frame json target msg max_frame_bytes ≡ got bytes))
          ⊎ ((out : List ℕ) × (put json target max_frame_bytes fate msg ≡ (out, false))
              × IsCut (some msg) out)
    unfolding put
    put-cases fate msg =
        elim (write_frame json target msg max_frame_bytes)
            as (λ r.
              (write_frame json target msg max_frame_bytes ≡ r)
              → ((bytes : List ℕ) × (put json target max_frame_bytes fate msg ≡ (bytes, true))
                  × (write_frame json target msg max_frame_bytes ≡ got bytes))
                ⊎ ((out : List ℕ) × (put json target max_frame_bytes fate msg ≡ (out, false))
                    × IsCut (some msg) out)) [
                      | got bytes ↦ λ e.
                          elim fate
                            as (λ f.
                              ((b : List ℕ) × (put json target max_frame_bytes f msg ≡ (b, true))
                                × (write_frame json target msg max_frame_bytes ≡ got b))
                              ⊎ ((out : List ℕ) × (put json target max_frame_bytes f msg
                                    ≡ (out, false))
                                  × IsCut (some msg) out)) [
                                    | whole ↦ inl (bytes, rw (e, put) refl, e)
                                    | cut k ↦
                                        inr
                                          (take k bytes, rw (e, put) refl, inr (k, bytes, e, refl))
                                  ]
                      | ended ↦ λ e. inr ([], rw (e, put) refl, inl refl)
                      | failed kind ↦ λ e. inr ([], rw (e, put) refl, inl refl)
                    ]
          refl
