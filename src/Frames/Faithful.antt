-- ===== src/Frames/Faithful.antt =====
-- A connection of the accept loop of src/distributed.rs spawns the tasks that `handle_conn` does.
use mathlib.Core.List.{append_assoc}
use lane_switchboards.Base.{
  nat_eq, string_eq, ℕ, suc, String, ◌≡◌, refl, sym, ap, ◌∙◌, Bool, true, false, Option, none, some,
  List, [], ◌∷◌, ◌++◌, if◌then◌else◌, arith, length,
}
use lane_switchboards.Config.{DistributedConfig}
use lane_switchboards.Frames.{Json, Tail, and_spawn, handle_conn}
use lane_switchboards.Frames.Rounds.{
  and_next, handle_conn-next, handle_conn-enough, IsShorter, next_frame-IsShorter,
}
use lane_switchboards.Frames.Server.{Next, frame, stopped, Conn, next_frame, on_next, read_next}

module _ {M : Type 0} (json : Json M) (config : DistributedConfig) where
  abbrev pub in_hand : Option (String × M) → List (String × M)
  in_hand none = []
  in_hand (some task) = task ∷ []

  -- The tasks that `handle_conn` spawns for these bytes.
  abbrev pub tasks_of : List ℕ → Tail → List (String × M)
  tasks_of bytes tail = (handle_conn json (suc (length bytes)) config bytes tail).0

  abbrev pub to_come : Conn M → List (String × M)
  to_come c = if c.is_open then tasks_of c.left c.tail else []

  -- What was spawned, what waits for a permit and what is still to come are what `handle_conn`
  -- spawns for all that comes over the connection.
  abbrev pub IsFaithful : Conn M → Type 0
  IsFaithful c = c.spawned ++ (in_hand c.held ++ to_come c) ≡ tasks_of c.bytes c.tail

  tasks_of-next :
      (bytes : List ℕ) (tail : Tail) (next : Next M)
      → IsShorter json bytes next
      → next_frame json config bytes tail ≡ next
      → tasks_of bytes tail
        ≡ (and_next json next (λ later. handle_conn json (suc (length later)) config later tail)).0
  unfolding and_spawn
  tasks_of-next bytes tail (frame task later) l e =
      ap (λ r. r.0) (handle_conn-next json (length bytes) config bytes tail)
      ∙ ap (λ n. (and_next json n (λ more. handle_conn json (length bytes) config more tail)).0) e
      ∙ ap (λ r. task ∷ r.0)
          (handle_conn-enough json (length bytes) (suc (length later)) config later tail l
            (omega arith))
  tasks_of-next bytes tail (stopped r) l e =
      ap (λ r. r.0) (handle_conn-next json (length bytes) config bytes tail)
      ∙ ap (λ n. (and_next json n (λ more. handle_conn json (length bytes) config more tail)).0) e

  -- `come` is still to come, and a round takes `task` of it, or nothing.
  hold_one :
      (held : Option (String × M)) (is_open : Bool) (spawned come more whole : List (String × M))
      (task : String × M)
      → held ≡ none
      → is_open ≡ true
      → come ≡ task ∷ more
      → spawned ++ (in_hand held ++ (if is_open then come else [])) ≡ whole
      → spawned ++ (task ∷ (if is_open then more else [])) ≡ whole
  hold_one none true spawned come more whole task n o e h = ap (λ l. spawned ++ l) (sym e) ∙ h
  hold_one none false spawned come more whole task n o e h = cc
  hold_one (some t) is_open spawned come more whole task n o e h = cc

  hold_nothing :
      (held : Option (String × M)) (is_open : Bool) (spawned come whole : List (String × M))
      → held ≡ none
      → is_open ≡ true
      → come ≡ []
      → spawned ++ (in_hand held ++ (if is_open then come else [])) ≡ whole
      → spawned ++ (in_hand held ++ []) ≡ whole
  hold_nothing none true spawned come whole n o e h = ap (λ l. spawned ++ l) (sym e) ∙ h
  hold_nothing none false spawned come whole n o e h = cc
  hold_nothing (some t) is_open spawned come whole n o e h = cc

  on_next-IsFaithful :
      (next : Next M) (c : Conn M)
      → c.held ≡ none
      → c.is_open ≡ true
      → IsShorter json c.left next
      → next_frame json config c.left c.tail ≡ next
      → IsFaithful c
      → IsFaithful (on_next next c)
  unfolding on_next and_spawn
  on_next-IsFaithful (frame task later) c n o l e h =
      hold_one c.held c.is_open c.spawned (tasks_of c.left c.tail) (tasks_of later c.tail)
        (tasks_of c.bytes c.tail) task n o (tasks_of-next c.left c.tail (frame task later) l e) h
  on_next-IsFaithful (stopped r) c n o l e h =
      hold_nothing c.held c.is_open c.spawned (tasks_of c.left c.tail) (tasks_of c.bytes c.tail) n o
        (tasks_of-next c.left c.tail (stopped r) l e) h

  -- A round that is taken only by an open connection that holds no task.
  when_free :
      (P : Conn M → Type 0) (held : Option (String × M)) (is_open : Bool) (c after : Conn M)
      → P c
      → (held ≡ none → is_open ≡ true → P after)
      → P (elim held [ some task ↦ c | none ↦ if is_open then after else c ])
  when_free P none true c after h f = f refl refl
  when_free P none false c after h f = h
  when_free P (some task) is_open c after h f = h

  pub read_next-IsFaithful : (c : Conn M) → IsFaithful c → IsFaithful (read_next json config c)
  unfolding read_next
  read_next-IsFaithful c h =
      when_free IsFaithful c.held c.is_open c (on_next (next_frame json config c.left c.tail) c) h
        (λ n o.
          on_next-IsFaithful (next_frame json config c.left c.tail) c n o
            (next_frame-IsShorter json config c.left c.tail) refl h)

  -- A task that gets its permit is spawned.
  pub hand_over :
      (held : Option (String × M)) (spawned come whole : List (String × M)) (task : String × M)
      → held ≡ some task
      → spawned ++ (in_hand held ++ come) ≡ whole
      → (spawned ++ task ∷ []) ++ ([] ++ come) ≡ whole
  hand_over none spawned come whole task e h = cc
  hand_over (some t) spawned come whole task e h =
      append_assoc spawned (task ∷ []) come ∙ ap (λ l. spawned ++ l) (cc (e)) ∙ h
