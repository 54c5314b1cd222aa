-- ===== src/Tests/Wires.antt =====
-- A format of frames for one target, and bytes written in it.
use mathlib.Core.Path.{subst}
use lane_switchboards.Base.{
  nat_eq, string_eq, ℕ, ◌<◌, String, ◌≡◌, refl, sym, ap, ◌∙◌, inl, inr, Option, none, some, List,
  [], ◌∷◌, arith, if◌then◌else◌, Bool-cases, ◌==◌, ==_iff, length,
}
use lane_switchboards.Frames.{Json, write_frame, le_bytes, decode}
use lane_switchboards.Frames.Stream.{IsCodec, IsWritten}

unfoldable pub encode : String → ℕ → Option (List ℕ)
encode target msg = if target == "w" then some (msg ∷ []) else none

unfoldable pub parse : List ℕ → Option (String × ℕ)
parse [] = none
parse (msg ∷ []) = some ("w", msg)
parse (msg ∷ more ∷ bytes) = none

abbrev pub one_byte : Json ℕ
one_byte = record { Value = ℕ; to_vec = encode; from_slice = parse; from_value = λ v. some v }

decode-byte : (msg : ℕ) → decode one_byte (msg ∷ []) ≡ some ("w", msg)
unfolding decode parse
decode-byte msg = refl

pub one_byte-IsCodec : IsCodec one_byte
unfolding encode
one_byte-IsCodec target msg body e = elim (Bool-cases (target == "w")) [
  | inl t ↦
      let same : msg ∷ [] ≡ body = ground arith in
      let there : "w" ≡ target = sym ((==_iff target "w").0 t) in
      subst (λ (b : List ℕ). (0 < length b) × (decode one_byte b ≡ some (target, msg))) same
        (omega arith, decode-byte msg ∙ ap (λ n. some (n, msg)) there)
  | inr t ↦ absurd (ground arith)
]

abbrev pub two_frames : List (String × ℕ)
two_frames = ("w", 5) ∷ ("w", 6) ∷ []

abbrev pub wire : List ℕ
wire = 1 ∷ 0 ∷ 0 ∷ 0 ∷ 5 ∷ 1 ∷ 0 ∷ 0 ∷ 0 ∷ 6 ∷ []

pub wire-IsWritten : IsWritten one_byte 4194304 two_frames wire
unfolding write_frame le_bytes encode
wire-IsWritten = (
  1 ∷ 0 ∷ 0 ∷ 0 ∷ 5 ∷ [],
  1 ∷ 0 ∷ 0 ∷ 0 ∷ 6 ∷ [],
  refl,
  refl,
  (1 ∷ 0 ∷ 0 ∷ 0 ∷ 6 ∷ [], [], refl, refl, refl),
)
