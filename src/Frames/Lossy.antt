-- ===== src/Frames/Lossy.antt =====
-- What a node of src/distributed.rs makes of the beginning of what was written to it, where the rest
-- is lost on the way.
use mathlib.Core.List.{append_assoc, append-nil}
use lane_switchboards.Base.{
  nat_eq, string_eq, ℕ, zero, suc, ◌<◌, String, ◌≡◌, refl, sym, ap, ◌∙◌, ◌⊎◌, inl, inr, List, [],
  ◌∷◌, ◌++◌, length, ◌^◌, arith, take, length-append,
}
use lane_switchboards.Config.{DistributedConfig}
use lane_switchboards.Frames.{Json, eof, handle_conn}
use lane_switchboards.Frames.Stream.{IsCodec, IsWritten, handle_conn-frames}
use lane_switchboards.Frames.Cut.{cut_write}

module _ {ℓ} {A : Type ℓ} where
  pub take-take : (n k : ℕ) (xs : List A) → (m : ℕ) × (take n (take k xs) ≡ take m xs)
  take-take zero k xs = (zero, refl)
  take-take (suc n) zero xs = (zero, refl)
  take-take (suc n) (suc k) [] = (zero, refl)
  take-take (suc n) (suc k) (x ∷ xs) = let (m, e) = take-take n k xs in (suc m, ap (λ l. x ∷ l) e)

  take-append :
      (n : ℕ) (xs ys : List A)
      → (take n (xs ++ ys) ≡ take n xs) ⊎ ((j : ℕ) × (take n (xs ++ ys) ≡ xs ++ take j ys))
  take-append n [] ys = inr (n, refl)
  take-append zero (x ∷ xs) ys = inl refl
  take-append (suc n) (x ∷ xs) ys = elim (take-append n xs ys) [
    | inl e ↦ inl (ap (λ l. x ∷ l) e)
    | inr (j, e) ↦ inr (j, ap (λ l. x ∷ l) e)
  ]

  -- The one list begins the other.
  abbrev pub IsBegun : List A → List A → Type ℓ
  IsBegun ts all = (more : List A) × (ts ++ more ≡ all)

module _ {M : Type 0} (json : Json M) (config : DistributedConfig) where
  abbrev pub tasks : ℕ → List ℕ → List (String × M)
  tasks fuel bytes = (handle_conn json fuel config bytes eof).0

  -- However much of the bytes arrives, the tasks begin these.
  abbrev pub Begins : List ℕ → List (String × M) → Type 0
  Begins bytes all =
      (n fuel : ℕ) → length (take n bytes) < fuel → IsBegun (tasks fuel (take n bytes)) all

  pub frames-Begins :
      (frames last : List (String × M)) (bytes part : List ℕ)
      → IsCodec json
      → config.max_frame_bytes < 2 ^ 32
      → IsWritten json config.max_frame_bytes frames bytes
      → Begins part last
      → Begins (bytes ++ part) (frames ++ last)
  frames-Begins [] last bytes part c w e p n fuel l = rw e (p n fuel (rw e at l))
  frames-Begins ((target, msg) ∷ frames) last bytes part c w (frame, rest, e1, e2, h) p n fuel l =
      let whole : bytes ++ part ≡ frame ++ (rest ++ part) =
        ap (λ b. b ++ part) e2 ∙ append_assoc frame rest part in
      let l' : length (take n (frame ++ (rest ++ part))) < fuel = rw whole at l in
      rw whole (elim (take-append n frame (rest ++ part)) [
        | inl e ↦
            let short : length (take n frame) < fuel = rw e at l' in
            elim (cut_write json target msg n fuel config frame c w e1 short) [
              | inl t ↦ ((target, msg) ∷ (frames ++ last), rw (e, t) refl)
              | inr t ↦ (frames ++ last, rw (e, t) refl)
            ]
        | inr (j, e) ↦
            let (fuel', enough, q) =
              handle_conn-frames json ((target, msg) ∷ []) fuel config frame (take j (rest ++ part))
                eof c w (frame, [], e1, sym (append-nil frame), refl)
                (omega (arith, l', ap length e, length-append frame (take j (rest ++ part)))) in
            let (more, r) = frames-Begins frames last rest part c w h p j fuel' enough in
            (
              more,
              ap (λ b. tasks fuel b ++ more) e
                  ∙ ap (λ s. s.0 ++ more) q
                  ∙ ap (λ ts. (target, msg) ∷ ts) r,
            )
      ])
