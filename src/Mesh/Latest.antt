-- ===== src/Mesh/Latest.antt =====
-- The records of a snapshot in src/mesh.rs by key: what collecting them into a map keeps.
use mathlib.Core.Path.{subst}
use lane_switchboards.Base.{
  nat_eq, string_eq, pair_eq, String, ◌≡◌, refl, sym, ap, ◌∙◌, inl, inr, Option, none, some, List,
  [], ◌∷◌, if◌then◌else◌, Bool-cases, Option-cases, ◌==◌, ==_iff, All, Map, values, lookup, insert,
  IsMap, lookup-insert, insert-IsMap, or_else,
}
use lane_switchboards.Mesh.{ServiceRecord, incoming_of}
use lane_switchboards.Mesh.Routes.{is_at}

-- The record of an instance in a snapshot: the last one, if there are more.
abbrev pub last_record : String → String → List ServiceRecord → Option ServiceRecord
last_record s i [] = none
last_record s i (r ∷ rs) =
    let rest = last_record s i rs in
    elim rest [
      | none ↦ if is_at r.service r.instance_id s i then some r else none
      | some later ↦ some later
    ]

lookup-incoming_of :
    (s i : String) (rs : List ServiceRecord) (m : Map (String × String) ServiceRecord)
    → lookup (s, i) (incoming_of rs m) ≡ or_else (last_record s i rs) (lookup (s, i) m)
unfolding incoming_of
lookup-incoming_of s i [] m = refl
lookup-incoming_of s i (r ∷ rs) m =
    let later = lookup-incoming_of s i rs (insert (r.service, r.instance_id) r m) in
    let put = lookup-insert (r.service, r.instance_id) (s, i) r m in
    elim (Option-cases (last_record s i rs)) [
      | inl e ↦ elim (Bool-cases (is_at r.service r.instance_id s i)) [
        | inl t ↦ rw (e, t) (later ∙ rw e (put ∙ rw t refl))
        | inr t ↦ rw (e, t) (later ∙ rw e (put ∙ rw t refl))
      ]
      | inr (r', e) ↦ rw e (later ∙ rw e refl)
    ]

-- Each record is under the key of its service and identifier.
abbrev pub IsKeyed : Map (String × String) ServiceRecord → Type 0
IsKeyed = All (λ e. e.0 ≡ (e.1.service, e.1.instance_id))

pub insert-IsKeyed :
    (r : ServiceRecord) (m : Map (String × String) ServiceRecord)
    → IsKeyed m
    → IsKeyed (insert (r.service, r.instance_id) r m)
unfolding insert
insert-IsKeyed r [] h = (refl, tt)
insert-IsKeyed r ((k, r') ∷ m) h = elim (Bool-cases (k == (r.service, r.instance_id))) [
  | inl t ↦ rw t (refl, h.1)
  | inr t ↦ rw t (h.0, insert-IsKeyed r m h.1)
]

pub incoming_of-IsKeyed :
    (rs : List ServiceRecord) (m : Map (String × String) ServiceRecord)
    → IsMap m
    → IsKeyed m
    → IsMap (incoming_of rs m) × IsKeyed (incoming_of rs m)
unfolding incoming_of
incoming_of-IsKeyed [] m h k = (h, k)
incoming_of-IsKeyed (r ∷ rs) m h k =
    incoming_of-IsKeyed rs (insert (r.service, r.instance_id) r m)
      (insert-IsMap (r.service, r.instance_id) r m h) (insert-IsKeyed r m k)

-- Without two records of a key, the last one is the one.
pub last_record-values :
    (s i : String) (m : Map (String × String) ServiceRecord)
    → IsMap m
    → IsKeyed m
    → last_record s i (values m) ≡ lookup (s, i) m
unfolding lookup
last_record-values s i [] h k = refl
last_record-values s i ((key, r) ∷ m) h k =
    let later = last_record-values s i m h.1 k.1 in
    let same : (key == (s, i)) ≡ is_at r.service r.instance_id s i = ap (λ x. x == (s, i)) k.0 in
    elim (Bool-cases (key == (s, i))) [
      | inl t ↦
          let gone : lookup (s, i) m ≡ none =
            subst (λ (x : String × String). lookup x m ≡ none) ((==_iff key (s, i)).0 t) h.0 in
          let none_ = later ∙ gone in rw (none_, t, sym same) (rw t refl)
      | inr t ↦ elim (Option-cases (lookup (s, i) m)) [
        | inl e ↦ let none_ = later ∙ e in rw (none_, t, sym same) (rw (t, e) refl)
        | inr (r', e) ↦ let some_ = later ∙ e in rw (some_, t) (rw e refl)
      ]
    ]

or_else-none : (o : Option ServiceRecord) → or_else o none ≡ o
or_else-none none = refl
or_else-none (some r) = refl

pub lookup_fresh :
    (s i : String) (rs : List ServiceRecord)
    → lookup (s, i) (incoming_of rs []) ≡ last_record s i rs
unfolding lookup
lookup_fresh s i rs = lookup-incoming_of s i rs [] ∙ or_else-none (last_record s i rs)
