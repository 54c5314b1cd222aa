-- ===== src/Frames/Rounds.antt =====
-- The rounds of `handle_conn` of src/distributed.rs, one at a time.
use lane_switchboards.Base.{
  nat_eq, ℕ, zero, suc, ◌+◌, ◌<◌, ◌≤◌, ◌≡◌, refl, sym, ap, ◌∙◌, inl, inr, some, List, [], ◌∷◌,
  arith, Option-cases, length,
}
use lane_switchboards.Config.{DistributedConfig}
use lane_switchboards.Frames.{
  Json, Tail, eof, silent, broken, Read, got, ended, failed, timed_out, other, frame_length,
  le_value, take_exact, read_u32_le_timeout, read_body, decode, and_spawn, Served, after_body,
  after_length, handle_conn,
}
use lane_switchboards.Frames.Server.{Next, frame, stopped, on_body, on_length, next_frame}

length-take_exact :
    (n : ℕ) (bytes taken rest : List ℕ)
    → take_exact n bytes ≡ some (taken, rest)
    → n + length rest ≡ length bytes
unfolding take_exact
length-take_exact zero bytes taken rest h = ground arith
length-take_exact (suc n) [] taken rest h = cc
length-take_exact (suc n) (b ∷ bytes) taken rest h = elim (Option-cases (take_exact n bytes)) [
  | inl e ↦ absurd (ground arith)
  | inr ((taken', rest'), e) ↦ ground (arith, length-take_exact n bytes taken' rest' e)
]

module _ {M : Type 0} (json : Json M) where
  -- What the loop does with what a round comes to.
  abbrev pub and_next : Next M → (List ℕ → Served json) → Served json
  and_next (frame task later) serve = and_spawn json (some task) (serve later)
  and_next (stopped r) serve = ([], some r)

  after_body-next :
      (r : Read (List ℕ) × List ℕ) (serve : List ℕ → Served json)
      → after_body json r serve ≡ and_next (on_body json r) serve
  unfolding after_body on_body and_spawn
  after_body-next (got body, later) serve = elim (Option-cases (decode json body)) [
    | inl e ↦ rw (e, after_body, on_body, and_spawn) refl
    | inr (task, e) ↦ rw (e, after_body, on_body, and_spawn) refl
  ]
  after_body-next (ended, later) serve = refl
  after_body-next (failed kind, later) serve = refl

  after_length-next :
      (r : Read ℕ × List ℕ) (tail : Tail) (serve : List ℕ → Served json)
      → after_length json r tail serve ≡ and_next (on_length json r tail) serve
  unfolding after_length on_length
  after_length-next (got n, rest) tail serve = after_body-next (read_body n rest tail) serve
  after_length-next (ended, rest) tail serve = refl
  after_length-next (failed kind, rest) tail serve = refl

  pub handle_conn-next :
      (fuel : ℕ) (config : DistributedConfig) (bytes : List ℕ) (tail : Tail)
      → handle_conn json (suc fuel) config bytes tail
        ≡ and_next
            (next_frame json config bytes tail)
            (λ later. handle_conn json fuel config later tail)
  unfolding handle_conn next_frame
  handle_conn-next fuel config bytes tail =
      after_length-next (read_u32_le_timeout config bytes tail) tail
        (λ later. handle_conn json fuel config later tail)

  -- A frame takes some bytes.
  abbrev pub IsShorter : List ℕ → Next M → Type 0
  IsShorter bytes (frame task later) = length later < length bytes
  IsShorter bytes (stopped r) = Unit {0}

  on_body-IsShorter :
      (r : Read (List ℕ)) (later bytes : List ℕ)
      → length later < length bytes
      → IsShorter bytes (on_body json (r, later))
  unfolding on_body
  on_body-IsShorter (got body) later bytes h = elim (Option-cases (decode json body)) [
    | inl e ↦ rw (e, on_body) tt
    | inr (task, e) ↦ rw (e, on_body) h
  ]
  on_body-IsShorter ended later bytes h = tt
  on_body-IsShorter (failed kind) later bytes h = tt

  read_body-shorter :
      (n : ℕ) (rest : List ℕ) (tail : Tail) → length (read_body n rest tail).1 ≤ length rest
  unfolding read_body
  read_body-shorter n rest tail = elim (Option-cases (take_exact n rest)) [
    | inl e ↦ rw (e, read_body) (omega arith)
    | inr ((taken, later), e) ↦
        rw (e, read_body) (omega (arith, length-take_exact n rest taken later e))
  ]

  on_length-IsShorter :
      (r : Read ℕ) (rest bytes : List ℕ) (tail : Tail)
      → length rest < length bytes
      → IsShorter bytes (on_length json (r, rest) tail)
  unfolding on_length
  on_length-IsShorter (got n) rest bytes tail h =
      on_body-IsShorter (read_body n rest tail).0 (read_body n rest tail).1 bytes
        (omega (arith, read_body-shorter n rest tail))
  on_length-IsShorter ended rest bytes tail h = tt
  on_length-IsShorter (failed kind) rest bytes tail h = tt

  pub next_frame-IsShorter :
      (config : DistributedConfig) (bytes : List ℕ) (tail : Tail)
      → IsShorter bytes (next_frame json config bytes tail)
  unfolding next_frame on_length read_u32_le_timeout
  next_frame-IsShorter config bytes tail = elim (Option-cases (take_exact 4 bytes)) [
    | inl e ↦
        rw (e, next_frame, read_u32_le_timeout, on_length)
          (elim tail
            as (λ t. IsShorter bytes (
              on_length json
                ((elim t [ eof ↦ ended | silent ↦ failed timed_out | broken ↦ failed other ]), [])
                tail)) [ eof ↦ tt | silent ↦ tt | broken ↦ tt ])
    | inr ((taken, rest), e) ↦
        rw (e, next_frame, read_u32_le_timeout)
          (on_length-IsShorter (frame_length config (le_value taken)) rest bytes tail
            (omega (arith, length-take_exact 4 bytes taken rest e)))
  ]

  enough_next :
      (next : Next M) (bytes : List ℕ)
      → IsShorter bytes next
      → (serve serve' : List ℕ → Served json)
      → ((later : List ℕ) → length later < length bytes → serve later ≡ serve' later)
      → and_next next serve ≡ and_next next serve'
  enough_next (frame task later) bytes l serve serve' same =
      ap (and_spawn json (some task)) (same later l)
  enough_next (stopped r) bytes l serve serve' same = refl

  -- More fuel than bytes is enough: any more changes nothing.
  pub handle_conn-enough :
      (f g : ℕ) (config : DistributedConfig) (bytes : List ℕ) (tail : Tail)
      → length bytes < f
      → length bytes < g
      → handle_conn json f config bytes tail ≡ handle_conn json g config bytes tail
  unfolding and_spawn
  handle_conn-enough zero g config bytes tail h k = absurd (omega arith)
  handle_conn-enough (suc f) zero config bytes tail h k = absurd (omega arith)
  handle_conn-enough (suc f) (suc g) config bytes tail h k =
      handle_conn-next f config bytes tail
      ∙ enough_next (next_frame json config bytes tail) bytes
          (next_frame-IsShorter config bytes tail) (λ later. handle_conn json f config later tail)
          (λ later. handle_conn json g config later tail)
          (λ later l. handle_conn-enough f g config later tail (omega arith) (omega arith))
      ∙ sym (handle_conn-next g config bytes tail)
