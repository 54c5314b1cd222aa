-- ===== src/Recoverable/Journal.antt =====
-- The journal of examples/recoverable_timer_calc.rs, whose newest entry has the greatest identifier.
use lane_switchboards.Base.{
  nat_eq, ℕ, ◌<◌, ◌≡◌, refl, ap, ◌∙◌, Option, none, some, List, [], ◌∷◌, ◌++◌, arith, ==_iff, Map,
  lookup, insert, keys, values, All,
}
use lane_switchboards.Recoverable.{
  place, sort_unstable, JournalEntry, if_ok, replay_ids, replay_last_result, count_entry,
  count_entries, counts,
}

module _ {V : Type 0} where
  abbrev pub IsBelow : ℕ → Map ℕ V → Type 0
  IsBelow n m = All (λ e. e.0 < n) m

  pub lookup-IsBelow : (n : ℕ) (m : Map ℕ V) → IsBelow n m → lookup n m ≡ none
  unfolding lookup
  lookup-IsBelow n [] h = refl
  lookup-IsBelow n ((k, v) ∷ m) h = ground (arith, ==_iff k n, lookup-IsBelow n m h.1, h.0)

  pub insert_new : (n : ℕ) (v : V) (m : Map ℕ V) → IsBelow n m → insert n v m ≡ m ++ (n, v) ∷ []
  unfolding insert
  insert_new n v [] h = refl
  insert_new n v ((k, w) ∷ m) h = ground (arith, ==_iff k n, insert_new n v m h.1, h.0)

  pub insert_newest :
      (n : ℕ) (v w : V) (m : Map ℕ V)
      → IsBelow n m
      → insert n v (m ++ (n, w) ∷ []) ≡ m ++ (n, v) ∷ []
  unfolding insert
  insert_newest n v w [] h = ground (arith, ==_iff n n)
  insert_newest n v w ((k, x) ∷ m) h = ground (arith, ==_iff k n, insert_newest n v w m h.1, h.0)

  pub lookup_newest :
      (n : ℕ) (w : V) (m : Map ℕ V) → IsBelow n m → lookup n (m ++ (n, w) ∷ []) ≡ some w
  unfolding lookup
  lookup_newest n w [] h = ground (arith, ==_iff n n)
  lookup_newest n w ((k, x) ∷ m) h = ground (arith, ==_iff k n, lookup_newest n w m h.1, h.0)

  lookup_older : (i n : ℕ) (w : V) (m : Map ℕ V) → i < n → lookup i (m ++ (n, w) ∷ []) ≡ lookup i m
  unfolding lookup
  lookup_older i n w [] h = ground (arith, ==_iff n i)
  lookup_older i n w ((k, x) ∷ m) h = ground (arith, ==_iff k i, lookup_older i n w m h)

  keys-snoc : (n : ℕ) (w : V) (m : Map ℕ V) → keys (m ++ (n, w) ∷ []) ≡ keys m ++ n ∷ []
  keys-snoc n w [] = refl
  keys-snoc n w ((k, x) ∷ m) = ap (λ l. k ∷ l) (keys-snoc n w m)

  values-snoc : (n : ℕ) (w : V) (m : Map ℕ V) → values (m ++ (n, w) ∷ []) ≡ values m ++ w ∷ []
  values-snoc n w [] = refl
  values-snoc n w ((k, x) ∷ m) = ap (λ l. x ∷ l) (values-snoc n w m)

  keys-IsBelow : (n : ℕ) (m : Map ℕ V) → IsBelow n m → All (λ k. k < n) (keys m)
  keys-IsBelow n [] h = tt
  keys-IsBelow n ((k, x) ∷ m) h = (h.0, keys-IsBelow n m h.1)

place_greatest : (x n : ℕ) (ys : List ℕ) → x < n → place x (ys ++ n ∷ []) ≡ place x ys ++ n ∷ []
unfolding place
place_greatest x n [] h = ground arith
place_greatest x n (y ∷ ys) h = ground (arith, place_greatest x n ys h)

place-All : (x n : ℕ) (ys : List ℕ) → x < n → All (λ k. k < n) ys → All (λ k. k < n) (place x ys)
unfolding place
place-All x n [] l h = (l, tt)
place-All x n (y ∷ ys) l h = ground (arith, place-All x n ys l h.1, h.0, h.1)

sort_unstable-All :
    (n : ℕ) (xs : List ℕ) → All (λ k. k < n) xs → All (λ k. k < n) (sort_unstable xs)
unfolding sort_unstable
sort_unstable-All n [] h = tt
sort_unstable-All n (x ∷ xs) h = place-All x n (sort_unstable xs) h.0 (sort_unstable-All n xs h.1)

sort_greatest :
    (n : ℕ) (xs : List ℕ)
    → All (λ k. k < n) xs
    → sort_unstable (xs ++ n ∷ []) ≡ sort_unstable xs ++ n ∷ []
unfolding sort_unstable place
sort_greatest n [] h = refl
sort_greatest n (x ∷ xs) h =
    ap (place x) (sort_greatest n xs h.1) ∙ place_greatest x n (sort_unstable xs) h.0

module _ {F : Type 0} where
  replay_ids-snoc :
      (ops : Map ℕ (JournalEntry F)) (ids : List ℕ) (n : ℕ) (last : Option F)
      → replay_ids ops (ids ++ n ∷ []) last ≡ if_ok (lookup n ops) (replay_ids ops ids last)
  unfolding replay_ids
  replay_ids-snoc ops [] n last = refl
  replay_ids-snoc ops (id ∷ ids) n last = replay_ids-snoc ops ids n (if_ok (lookup id ops) last)

  replay_ids-older :
      (ops : Map ℕ (JournalEntry F)) (ids : List ℕ) (n : ℕ) (entry : JournalEntry F)
      (last : Option F)
      → All (λ k. k < n) ids
      → replay_ids (ops ++ (n, entry) ∷ []) ids last ≡ replay_ids ops ids last
  unfolding replay_ids
  replay_ids-older ops [] n entry last h = refl
  replay_ids-older ops (id ∷ ids) n entry last h =
      rw (lookup_older id n entry ops h.0)
        (replay_ids-older ops ids n entry (if_ok (lookup id ops) last) h.1)

  -- The newest entry is the last that the replay reads.
  pub replay_newest :
      (ops : Map ℕ (JournalEntry F)) (n m : ℕ) (entry : JournalEntry F)
      → IsBelow n ops
      → replay_last_result (record { ops = ops ++ (n, entry) ∷ []; next_id = m })
        ≡ if_ok (some entry) (replay_last_result (record { ops = ops; next_id = n }))
  unfolding replay_last_result
  replay_newest ops n m entry h =
      let below = keys-IsBelow n ops h in
      ap (λ ids. replay_ids (ops ++ (n, entry) ∷ []) ids none)
        (ap sort_unstable (keys-snoc n entry ops) ∙ sort_greatest n (keys ops) below)
      ∙ replay_ids-snoc (ops ++ (n, entry) ∷ []) (sort_unstable (keys ops)) n none
      ∙ ap (λ o. if_ok o (replay_ids (ops ++ (n, entry) ∷ []) (sort_unstable (keys ops)) none))
          (lookup_newest n entry ops h)
      ∙ ap (if_ok (some entry)) (
          replay_ids-older ops (sort_unstable (keys ops)) n entry none
            (sort_unstable-All n (keys ops) below))

  count_entries-snoc :
      (entries : List (JournalEntry F)) (entry : JournalEntry F) (n : ℕ × ℕ)
      → count_entries (entries ++ entry ∷ []) n ≡ count_entry entry (count_entries entries n)
  unfolding count_entries
  count_entries-snoc [] entry n = refl
  count_entries-snoc (first ∷ entries) entry n =
      count_entries-snoc entries entry (count_entry first n)

  pub counts_newest :
      (ops : Map ℕ (JournalEntry F)) (n m : ℕ) (entry : JournalEntry F)
      → counts (record { ops = ops ++ (n, entry) ∷ []; next_id = m })
        ≡ count_entry entry (counts (record { ops = ops; next_id = n }))
  unfolding counts
  counts_newest ops n m entry =
      ap (λ l. count_entries l (0, 0)) (values-snoc n entry ops)
      ∙ count_entries-snoc (values ops) entry (0, 0)
