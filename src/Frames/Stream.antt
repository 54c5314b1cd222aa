-- ===== src/Frames/Stream.antt =====
-- What `write_frame` of src/distributed.rs writes is what `handle_conn` reads.
use mathlib.Core.List.{append_assoc, append-nil}
use lane_switchboards.Base.{
  nat_eq, string_eq, ℕ, zero, suc, ◌%◌, ◌^◌, ◌≤◌, ◌<◌, String, ◌≡◌, refl, ap, ◌∙◌, inl, inr, some,
  List, [], ◌∷◌, ◌++◌, arith, ltb, Bool-cases, Option-cases, ==_iff, length, ◌+◌, length-append,
  sym,
}
use lane_switchboards.Config.{DistributedConfig}
use lane_switchboards.Frames.{
  Json, Tail, eof, Read, got, ended, take_exact, le_bytes, le_value, frame_length,
  read_u32_le_timeout, read_body, write_frame, decode, and_spawn, handle_conn, after_body,
  after_length, Served,
}

pub take_exact-append : (xs ys : List ℕ) → take_exact (length xs) (xs ++ ys) ≡ some (xs, ys)
unfolding take_exact
take_exact-append [] ys = refl
take_exact-append (x ∷ xs) ys = rw (take_exact-append xs ys) refl

pub length-le_bytes : (n : ℕ) → length (le_bytes n) ≡ 4
unfolding le_bytes
length-le_bytes n = refl

pub le_value-le_bytes : (n : ℕ) → n < 2 ^ 32 → le_value (le_bytes n) ≡ n
unfolding le_value le_bytes
le_value-le_bytes n h = omega arith

fits :
    (config : DistributedConfig) (n : ℕ)
    → 0 < n
    → n ≤ config.max_frame_bytes
    → frame_length config n ≡ got n
unfolding frame_length
fits config n p h = ground (arith, ==_iff n 0)

pub read_u32_le_timeout-le_bytes :
    (config : DistributedConfig) (n : ℕ) (rest : List ℕ) (tail : Tail)
    → 0 < n
    → n ≤ config.max_frame_bytes
    → n < 2 ^ 32
    → read_u32_le_timeout config (le_bytes n ++ rest) tail ≡ (got n, rest)
unfolding read_u32_le_timeout le_bytes take_exact frame_length
read_u32_le_timeout-le_bytes config n rest tail p h w =
    rw (le_value-le_bytes n w, le_bytes) (ap (λ (r : Read ℕ). (r, rest)) (fits config n p h))

pub read_body-append :
    (body rest : List ℕ) (tail : Tail)
    → read_body (length body) (body ++ rest) tail ≡ (got body, rest)
unfolding read_body
read_body-append body rest tail = rw (take_exact-append body rest, read_body) refl

module _ {M : Type 0} (json : Json M) where
  open json use {to_vec}

  -- What is assumed of serde_json: a frame is never empty, and it reads what it wrote.
  abbrev pub IsCodec : Type 0
  IsCodec =
      (target : String) (msg : M) (body : List ℕ)
      → to_vec target msg ≡ some body
      → (0 < length body) × (decode json body ≡ some (target, msg))

  -- The bytes are those of the frames, written one after the other.
  abbrev pub IsWritten : ℕ → List (String × M) → List ℕ → Type 0
  IsWritten max_frame_bytes [] bytes = bytes ≡ []
  IsWritten max_frame_bytes ((target, msg) ∷ frames) bytes =
      (frame : List ℕ) × (rest : List ℕ) × (write_frame json target msg max_frame_bytes ≡ got frame)
      × (bytes ≡ frame ++ rest)
      × IsWritten max_frame_bytes frames rest

  pub write_frame-got :
      (target : String) (msg : M) (max_frame_bytes : ℕ) (frame : List ℕ)
      → write_frame json target msg max_frame_bytes ≡ got frame
      → (body : List ℕ) × (to_vec target msg ≡ some body)
        × (length body ≤ max_frame_bytes)
        × (frame ≡ le_bytes (length body % 2 ^ 32) ++ body)
  unfolding write_frame
  write_frame-got target msg max_frame_bytes frame e = elim (Option-cases (to_vec target msg)) [
    | inl gone ↦ absurd (ground arith)
    | inr (body, made) ↦ elim (Bool-cases (ltb max_frame_bytes (length body))) [
      | inl long ↦ absurd (ground arith)
      | inr short ↦ (body, made, ground arith, ground arith)
    ]
  ]

  handle_conn-read :
      (fuel : ℕ) (config : DistributedConfig) (bytes body rest later : List ℕ) (n : ℕ) (tail : Tail)
      (task : String × M)
      → read_u32_le_timeout config bytes tail ≡ (got n, rest)
      → read_body n rest tail ≡ (got body, later)
      → decode json body ≡ some task
      → handle_conn json (suc fuel) config bytes tail
        ≡ and_spawn json (some task) (handle_conn json fuel config later tail)
  unfolding handle_conn after_length after_body
  handle_conn-read fuel config bytes body rest later n tail task e e' d =
      let serve = λ (more : List ℕ). handle_conn json fuel config more tail in
      ap (λ r. after_length json r tail serve) e
      ∙ ap (λ r. after_body json r serve) e'
      ∙ ap (λ t. and_spawn json t (serve later)) d

  -- The tasks of frames that come before.
  abbrev pub after_tasks : List (String × M) → Served json → Served json
  after_tasks frames served = (frames ++ served.0, served.1)

  -- Frames that were written spawn their tasks, and the handler goes on with what comes after them.
  pub handle_conn-frames :
      (frames : List (String × M)) (fuel : ℕ) (config : DistributedConfig) (bytes part : List ℕ)
      (tail : Tail)
      → IsCodec
      → config.max_frame_bytes < 2 ^ 32
      → IsWritten config.max_frame_bytes frames bytes
      → length bytes + length part < fuel
      → (fuel' : ℕ) × (length part < fuel')
        × (handle_conn json fuel config (bytes ++ part) tail
            ≡ after_tasks frames (handle_conn json fuel' config part tail))
  unfolding and_spawn
  handle_conn-frames frames zero config bytes part tail c w h l = absurd (omega arith)
  handle_conn-frames [] (suc fuel) config bytes part tail c w h l =
      (suc fuel, omega (arith, l), ap (λ b. handle_conn json (suc fuel) config (b ++ part) tail) h)
  handle_conn-frames ((target, msg) ∷ frames) (suc fuel) config bytes part tail c w
        (frame, rest, e1, e2, h) l =
      let (body, made, short, e3) = write_frame-got target msg config.max_frame_bytes frame e1 in
      let (p, read) = c target msg body made in
      let len : length body % 2 ^ 32 ≡ length body = omega (arith, short, w) in
      let whole : bytes ++ part ≡ le_bytes (length body) ++ (body ++ (rest ++ part)) =
        ap (λ b. b ++ part) e2
        ∙ append_assoc frame rest part
        ∙ ap (λ f. f ++ (rest ++ part)) (e3 ∙ ap (λ n. le_bytes n ++ body) len)
        ∙ append_assoc (le_bytes (length body)) body (rest ++ part) in
      let size : length bytes ≡ length frame + length rest = rw e2 (length-append frame rest) in
      let prefix = le_bytes (length body % 2 ^ 32) in
      let head : length frame ≡ 4 + length body =
        rw e3 (length-append prefix body ∙ ap (λ n. n + length body) (length-le_bytes _)) in
      let (fuel', enough, later) =
        handle_conn-frames frames fuel config rest part tail c w h (omega (arith, l, size, head)) in
      let first =
        read_u32_le_timeout-le_bytes config (length body) (body ++ (rest ++ part)) tail p short
          (omega (arith, short, w)) in
      (
        fuel',
        enough,
        ap (λ b. handle_conn json (suc fuel) config b tail) whole
            ∙ handle_conn-read fuel config (le_bytes (length body) ++ (body ++ (rest ++ part))) body
                (body ++ (rest ++ part)) (rest ++ part) (length body) tail (target, msg) first
                (read_body-append body (rest ++ part) tail) read
            ∙ ap (and_spawn json (some (target, msg))) later,
      )

  pub handle_conn-nothing :
      (fuel : ℕ) (config : DistributedConfig)
      → 0 < fuel
      → handle_conn json fuel config [] eof ≡ ([], some ended)
  unfolding handle_conn read_u32_le_timeout take_exact after_length
  handle_conn-nothing zero config h = absurd (omega arith)
  handle_conn-nothing (suc fuel) config h = refl

  -- A connection over which frames were written, and which then ends, spawns a task for each of
  -- them, in their order, and ends without an error. The frame limit fits 32 bits, as its type
  -- says, and serde_json reads what it wrote. Fuel of more than the number of bytes is enough.
  pub handle_conn-write_frame :
      (frames : List (String × M)) (fuel : ℕ) (config : DistributedConfig) (bytes : List ℕ)
      → IsCodec
      → config.max_frame_bytes < 2 ^ 32
      → IsWritten config.max_frame_bytes frames bytes
      → length bytes < fuel
      → handle_conn json fuel config bytes eof ≡ (frames, some ended)
  unfolding handle_conn read_u32_le_timeout take_exact
  handle_conn-write_frame frames fuel config bytes c w h l =
      let (fuel', enough, e) =
        handle_conn-frames frames fuel config bytes [] eof c w h (omega (arith, l)) in
      ap (λ b. handle_conn json fuel config b eof) (sym (append-nil bytes))
      ∙ e
      ∙ ap (after_tasks frames) (handle_conn-nothing fuel' config enough)
      ∙ ap (λ t. (t, some ended)) (append-nil frames)
