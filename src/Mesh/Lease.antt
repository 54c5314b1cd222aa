-- ===== src/Mesh/Lease.antt =====
-- The leases of the registry in src/mesh.rs: what `register`, the time and `evict_expired` do to
-- the list.
use lane_switchboards.Base.{
  All-get_elem?, nat_eq, string_eq, pair_eq, ℕ, ◌+◌, ◌≤◌, String, ◌≡◌, refl, ap, ◌↔◌, inl, inr,
  Bool, true, false, not, some, List, [], ◌∷◌, arith, Bool-cases, get_elem?, filter_by, Map, values,
  lookup, as_secs, zero, suc, ◌==◌, All, insert, lookup-insert_self,
}
use lane_switchboards.Mesh.{ServiceRecord}
use lane_switchboards.Mesh.Registry.{MeshRegistry, record_expired, register, list, evict_expired}

abbrev live : ℕ → ℕ → ServiceRecord → Bool
live now ttl r = not (record_expired r now ttl)

live-later :
    (now later ttl : ℕ) (r : ServiceRecord)
    → now ≤ later
    → live now ttl r ≡ false
    → live later ttl r ≡ false
unfolding record_expired
live-later now later ttl r h e = ground arith

filter_by-evicted :
    (now later ttl : ℕ) (m : Map (String × String) ServiceRecord)
    → now ≤ later
    → filter_by (live later ttl) (values (filter_by (λ e. live now ttl e.1) m))
      ≡ filter_by (live later ttl) (values m)
filter_by-evicted now later ttl [] h = refl
filter_by-evicted now later ttl ((k, r) ∷ m) h = elim (Bool-cases (live now ttl r)) [
  | inl e ↦ elim (Bool-cases (live later ttl r)) [
    | inl e' ↦ rw (e, e') (ap (λ l. r ∷ l) (filter_by-evicted now later ttl m h))
    | inr e' ↦ rw (e, e') (filter_by-evicted now later ttl m h)
  ]
  | inr e ↦ rw (e, live-later now later ttl r h e) (filter_by-evicted now later ttl m h)
]

-- Eviction is not seen by a reader: what is listed at that time or later is the same with and
-- without it, in the same order.
pub list-evict_expired :
    (now later : ℕ) (reg : MeshRegistry)
    → now ≤ later
    → list later (evict_expired now reg) ≡ list later reg
unfolding list evict_expired
list-evict_expired now later reg h = filter_by-evicted now later reg.ttl reg.records h

-- The record is in the list.
abbrev pub IsListed : ServiceRecord → List ServiceRecord → Type 0
IsListed r rs = (i : ℕ) × (get_elem? rs i ≡ some r)

filter_by-live :
    (later ttl : ℕ) (rs : List ServiceRecord)
    → All (λ r. live later ttl r ≡ true) (filter_by (live later ttl) rs)
filter_by-live later ttl [] = tt
filter_by-live later ttl (s ∷ rs) = elim (Bool-cases (live later ttl s)) [
  | inl e ↦ rw e (e, filter_by-live later ttl rs)
  | inr e ↦ rw e (filter_by-live later ttl rs)
]

live-IsListed :
    (later ttl : ℕ) (k : String × String) (m : Map (String × String) ServiceRecord)
    (r : ServiceRecord)
    → lookup k m ≡ some r
    → live later ttl r ≡ true
    → IsListed r (filter_by (live later ttl) (values m))
unfolding lookup
live-IsListed later ttl k [] r h e = cc
live-IsListed later ttl k ((j, s) ∷ m) r h e = elim (Bool-cases (j == k)) [
  | inl t ↦ let same : s ≡ r = ground arith in rw (same, e) (zero, refl)
  | inr t ↦
      let rest : lookup k m ≡ some r = ground arith in
      let (i, at) = live-IsListed later ttl k m r rest e in
      elim (Bool-cases (live later ttl s)) [ inl q ↦ rw q (suc i, at) | inr q ↦ rw q (i, at) ]
]

-- A record that is registered is listed exactly as long as its lease runs: until the time-to-live,
-- in whole seconds, has passed since the registration, whatever the record said itself of its time.
pub register-lease :
    (now later : ℕ) (r : ServiceRecord) (reg : MeshRegistry)
    → IsListed (record r { registered_at = now }) (list later (register now r reg))
      ↔ (later ≤ now + as_secs reg.ttl)
unfolding list register record_expired
register-lease now later r reg =
    let renewed : ServiceRecord = record r { registered_at = now } in
    let there = insert (r.service, r.instance_id) renewed reg.records in
    (
      λ (i, e).
          let runs : live later reg.ttl renewed ≡ true =
            All-get_elem? (λ s. live later reg.ttl s ≡ true)
              (filter_by (live later reg.ttl) (values there)) i renewed
              (filter_by-live later reg.ttl (values there)) e in
          ground arith,
      λ h.
          live-IsListed later reg.ttl (r.service, r.instance_id) there renewed
            (lookup-insert_self (r.service, r.instance_id) renewed reg.records) (ground arith),
    )
