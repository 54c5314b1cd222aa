-- ===== src/Supervisor/Intensity.antt =====
-- The restart log of src/supervisor.rs is the sliding window that `within_secs` describes.
use mathlib.Core.List.{append-nil, append_assoc}
use lane_switchboards.Base.{
  nat_eq, ℕ, ◌+◌, ◌≤◌, ◌≡◌, refl, List, [], ◌∷◌, ◌++◌, arith, leb, filter_by, from_secs, sym, ap,
  ◌∙◌, length, ltb, if◌then◌else◌,
}
use lane_switchboards.Actor.Types.{ActorId}
use lane_switchboards.Supervisor.{
  Spawner, SupervisorConfig, Tree, running, restart_by, exceeded, on_signal, prune, note_signal,
  ended, count_signal,
}

-- What an outside observer counts: the signals no older than the window, at the time `now`.
abbrev pub recent : ℕ → ℕ → List ℕ → List ℕ
recent now within_secs = filter_by (λ t. leb now (t + from_secs within_secs))

-- Times that do not go back, from `low` on.
abbrev pub Ascending : ℕ → List ℕ → Type 0
Ascending low [] = Unit {0}
Ascending low (t ∷ ts) = (low ≤ t) × Ascending t ts

-- The log after the signals at these times.
abbrev pub log_after : ℕ → List ℕ → List ℕ → List ℕ
log_after within_secs log [] = log
log_after within_secs log (t ∷ ts) = log_after within_secs (note_signal within_secs t log) ts

abbrev pub last_or : ℕ → List ℕ → ℕ
last_or t [] = t
last_or t (u ∷ us) = last_or u us

Ascending-recent_all :
    (now within_secs low : ℕ) (ts : List ℕ)
    → Ascending low ts
    → now ≤ low + from_secs within_secs
    → recent now within_secs ts ≡ ts
Ascending-recent_all now within_secs low [] a h = refl
Ascending-recent_all now within_secs low (t ∷ ts) a h =
    ground (arith, Ascending-recent_all now within_secs t ts a.1)

-- Dropping from the front is enough, as the log is in order.
prune-recent :
    (now within_secs low : ℕ) (log : List ℕ)
    → Ascending low log
    → prune now within_secs log ≡ recent now within_secs log
unfolding prune
prune-recent now within_secs low [] a = refl
prune-recent now within_secs low (t ∷ log) a =
    ground (
      arith,
      prune-recent now within_secs t log a.1,
      Ascending-recent_all now within_secs t log a.1,
    )

Ascending-mono : (low low' : ℕ) (ts : List ℕ) → low ≤ low' → Ascending low' ts → Ascending low ts
Ascending-mono low low' [] h a = tt
Ascending-mono low low' (t ∷ ts) h a = (omega arith, a.1)

Ascending-recent :
    (now within_secs low : ℕ) (ts : List ℕ)
    → Ascending low ts
    → Ascending low (recent now within_secs ts)
Ascending-recent now within_secs low [] a = tt
Ascending-recent now within_secs low (t ∷ ts) a = ground (
  arith,
  Ascending-recent now within_secs t ts a.1,
  Ascending-mono low t (recent now within_secs ts),
)

Ascending-prefix : (low : ℕ) (xs ys : List ℕ) → Ascending low (xs ++ ys) → Ascending low xs
Ascending-prefix low [] ys a = tt
Ascending-prefix low (x ∷ xs) ys a = (a.0, Ascending-prefix x xs ys a.1)

recent-append :
    (now within_secs : ℕ) (xs ys : List ℕ)
    → recent now within_secs (xs ++ ys) ≡ recent now within_secs xs ++ recent now within_secs ys
recent-append now within_secs [] ys = refl
recent-append now within_secs (x ∷ xs) ys = ground (arith, recent-append now within_secs xs ys)

-- A later window sees nothing that an earlier one dropped.
recent-recent :
    (now prev within_secs : ℕ) (ts : List ℕ)
    → prev ≤ now
    → recent now within_secs (recent prev within_secs ts) ≡ recent now within_secs ts
recent-recent now prev within_secs [] h = refl
recent-recent now prev within_secs (t ∷ ts) h =
    ground (arith, recent-recent now prev within_secs ts h)

note_signal-recent :
    (within_secs prev now low : ℕ) (hist : List ℕ)
    → prev ≤ now
    → Ascending low hist
    → note_signal within_secs now (recent prev within_secs hist)
      ≡ recent now within_secs (hist ++ now ∷ [])
unfolding note_signal
note_signal-recent within_secs prev now low hist h a =
    rw
      (
        prune-recent now within_secs low _ (Ascending-recent prev within_secs low hist a),
        recent-recent now prev within_secs hist h,
        recent-append now within_secs hist (now ∷ []),
      )
      (ap (λ l. recent now within_secs hist ++ l) (ground arith))

log_after-from :
    (within_secs prev low : ℕ) (hist ts : List ℕ)
    → Ascending low (hist ++ ts)
    → Ascending prev ts
    → log_after within_secs (recent prev within_secs hist) ts
      ≡ recent (last_or prev ts) within_secs (hist ++ ts)
log_after-from within_secs prev low hist [] a p = rw append-nil
log_after-from within_secs prev low hist (t ∷ ts) a p =
    rw (note_signal-recent within_secs prev t low hist p.0 (Ascending-prefix low hist (t ∷ ts) a)) (
      rw append_assoc at
        (log_after-from within_secs t low (hist ++ t ∷ []) ts (rw append_assoc a) p.1))

-- The log after any signals whose times do not go back holds exactly the signals of the window that
-- ends with the last of them.
log_after-recent :
    (within_secs : ℕ) (ts : List ℕ)
    → Ascending 0 ts
    → log_after within_secs [] ts ≡ recent (last_or 0 ts) within_secs ts
log_after-recent within_secs ts a = log_after-from within_secs 0 0 [] ts a a

last_or-append : (t now : ℕ) (ts : List ℕ) → last_or t (ts ++ now ∷ []) ≡ now
last_or-append t now [] = refl
last_or-append t now (u ∷ ts) = last_or-append u now ts

log_after-append :
    (within_secs now : ℕ) (log ts : List ℕ)
    → log_after within_secs log (ts ++ now ∷ [])
      ≡ note_signal within_secs now (log_after within_secs log ts)
log_after-append within_secs now log [] = refl
log_after-append within_secs now log (t ∷ ts) =
    log_after-append within_secs now (note_signal within_secs t log) ts

-- A tree that has read signals at the times `ts` and now reads one at `now`, none of them going
-- back in time. Where the start of the window that ends now is a time that can be represented
-- (times are counted from the first that can), it takes the configured intensity action if more
-- than `max_restarts` of all these signals lie within the last `within_secs` seconds, and restarts
-- children by its strategy otherwise. Where it cannot, the task ends as it is: it panics.
pub on_signal-window :
    (sp : Spawner) (config : SupervisorConfig) (id : ActorId) (now : ℕ) (ts : List ℕ) (t : Tree sp)
    → Ascending 0 (ts ++ now ∷ [])
    → t.restart_log ≡ log_after config.within_secs [] ts
    → let window = recent now config.within_secs (ts ++ now ∷ []) in
      let t' = record t { restart_log = window } in
      on_signal sp config id now t ≡ (
        if ltb now (from_secs config.within_secs)
        then ended t
        else if ltb config.max_restarts (length window)
        then exceeded sp config.intensity_action id t'
        else running (restart_by sp config.strategy id t'))
unfolding on_signal count_signal
on_signal-window sp config id now ts t a h =
    let window = recent now config.within_secs (ts ++ now ∷ []) in
    let e : note_signal config.within_secs now t.restart_log ≡ window =
      ap (note_signal config.within_secs now) h
      ∙ sym (log_after-append config.within_secs now [] ts)
      ∙ log_after-recent config.within_secs (ts ++ now ∷ []) a
      ∙ ap (λ n. recent n config.within_secs (ts ++ now ∷ [])) (last_or-append 0 now ts) in
    rw e refl
