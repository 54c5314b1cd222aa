-- ===== src/Supervisor/Sweep.antt =====
-- The restart loops of src/supervisor.rs run over indices into two vectors; here they are shown to
-- be one pass over the children.
use mathlib.Core.List.{append_assoc}
use lane_switchboards.Base.{
  nat_eq, ℕ, ◌≡◌, ap, ◌∙◌, Bool, Option, none, some, List, ◌∷◌, ◌++◌, if◌then◌else◌, length,
  get_elem?, set, get_elem?-middle, set-middle, zero, suc, sym, inl, inr, [], arith, Bool-cases,
  length-append,
}
use lane_switchboards.Actor.Types.{ActorId, dead}
use lane_switchboards.Supervisor.{
  Spawner, ChildSpec, set_id, Tree, respawned, restart_child, restart_range,
}

-- The identifier of a slot, and its reference, after an attempt to restart it.
abbrev pub id_or_dead : Option ActorId → ActorId
id_or_dead none = dead
id_or_dead (some id) = id

abbrev pub ref_or : ActorId → Option ActorId → ActorId
ref_or r none = r
ref_or r (some id) = id

module _ (sp : Spawner) where
  open sp use {Env, Factory, restart}

  -- Children with their references, and what they act on.
  pub record Swept : Type 0 where
    pub slots : List (ChildSpec Factory)
    pub refs : List ActorId
    pub env : Env

  abbrev pub cons_swept : ChildSpec Factory → ActorId → Swept → Swept
  cons_swept s r w = record w { slots = s ∷ w.slots; refs = r ∷ w.refs }

  -- One pass that restarts the children that pass the test, in order.
  unfoldable pub sweep :
      (ChildSpec Factory → Bool) → List (ChildSpec Factory) → List ActorId → Env → Swept
  unfolding set_id
  sweep test (s ∷ slots) (r ∷ refs) env =
      let res = restart s.factory env in
      let restarted =
        cons_swept (set_id (id_or_dead res.0) s) (ref_or r res.0) (sweep test slots refs res.1) in
      let kept = cons_swept s r (sweep test slots refs env) in if test s then restarted else kept
  sweep test slots refs env = record { slots = slots; refs = refs; env = env }

  -- The same for the first child that passes, alone.
  unfoldable pub sweep_first :
      (ChildSpec Factory → Bool) → List (ChildSpec Factory) → List ActorId → Env → Swept
  unfolding set_id
  sweep_first test (s ∷ slots) (r ∷ refs) env =
      let res = restart s.factory env in
      let kept = cons_swept s r (sweep_first test slots refs env) in
      if test s
      then record {
        slots = set_id (id_or_dead res.0) s ∷ slots;
        refs = ref_or r res.0 ∷ refs;
        env = res.1;
      }
      else kept
  sweep_first test slots refs env = record { slots = slots; refs = refs; env = env }

  abbrev pub put : List (ChildSpec Factory) → List ActorId → Swept → Tree sp → Tree sp
  put before refs w t = record t {
    slots = before ++ w.slots;
    current_refs = refs ++ w.refs;
    env = w.env;
  }

  respawned-at :
      (res : Option ActorId × Env) (t : Tree sp) (i : ℕ) (before : List (ChildSpec Factory))
      (s : ChildSpec Factory) (after : List (ChildSpec Factory)) (refs : List ActorId) (r : ActorId)
      (refs' : List ActorId)
      → t.slots ≡ before ++ s ∷ after
      → t.current_refs ≡ refs ++ r ∷ refs'
      → length before ≡ i
      → length refs ≡ i
      → respawned sp i s res t ≡ record t {
        slots = before ++ set_id (id_or_dead res.0) s ∷ after;
        current_refs = refs ++ ref_or r res.0 ∷ refs';
        env = res.1;
      }
  unfolding respawned
  respawned-at (some id, env) t i before s after refs r refs' hs hr hb hc =
      let es : set t.slots i (set_id id s) ≡ before ++ set_id id s ∷ after =
        ap (λ l. set l i (set_id id s)) hs ∙ set-middle before s (set_id id s) after i hb in
      let er : set t.current_refs i id ≡ refs ++ id ∷ refs' =
        ap (λ l. set l i id) hr ∙ set-middle refs r id refs' i hc in
      cc (es, er)
  respawned-at (none, env) t i before s after refs r refs' hs hr hb hc =
      let es : set t.slots i (set_id dead s) ≡ before ++ set_id dead s ∷ after =
        ap (λ l. set l i (set_id dead s)) hs ∙ set-middle before s (set_id dead s) after i hb in
      cc (es, hr)

  pub restart_child-at :
      (t : Tree sp) (i : ℕ) (before : List (ChildSpec Factory)) (s : ChildSpec Factory)
      (after : List (ChildSpec Factory)) (refs : List ActorId) (r : ActorId) (refs' : List ActorId)
      → t.slots ≡ before ++ s ∷ after
      → t.current_refs ≡ refs ++ r ∷ refs'
      → length before ≡ i
      → length refs ≡ i
      → let res = restart s.factory t.env in
        restart_child sp i t ≡ record t {
          slots = before ++ set_id (id_or_dead res.0) s ∷ after;
          current_refs = refs ++ ref_or r res.0 ∷ refs';
          env = res.1;
        }
  unfolding restart_child
  restart_child-at t i before s after refs r refs' hs hr hb hc =
      let found : get_elem? t.slots i ≡ some s =
        ap (λ l. get_elem? l i) hs ∙ get_elem?-middle before s after i hb in
      rw (found, restart_child)
        (respawned-at (restart s.factory t.env) t i before s after refs r refs' hs hr hb hc)

  pub put-cons :
      (before : List (ChildSpec Factory)) (refs : List ActorId) (s : ChildSpec Factory)
      (r : ActorId) (w : Swept) (t : Tree sp)
      → put (before ++ s ∷ []) (refs ++ r ∷ []) w t ≡ put before refs (cons_swept s r w) t
  put-cons before refs s r w t =
      cc (append_assoc before (s ∷ []) w.slots, append_assoc refs (r ∷ []) w.refs)

  pub length-snoc {ℓ} :
      {A : Type ℓ} (xs : List A) (x : A) (i : ℕ) → length xs ≡ i → length (xs ++ x ∷ []) ≡ suc i
  length-snoc xs x i h = omega (arith, length-append xs (x ∷ []))

  -- The loop over the indices from `i` on, where the children and the references before `i` are
  -- done.
  pub restart_range-from :
      (test : ChildSpec Factory → Bool) (n i : ℕ) (t : Tree sp)
      (before after : List (ChildSpec Factory)) (refs refs' : List ActorId)
      → t.slots ≡ before ++ after
      → t.current_refs ≡ refs ++ refs'
      → length before ≡ i
      → length refs ≡ i
      → length after ≡ n
      → length refs' ≡ n
      → restart_range sp test n i t ≡ put before refs (sweep test after refs' t.env) t
  unfolding restart_range sweep
  restart_range-from test zero i t before [] refs [] hs hr hb hc ha hd = cc
  restart_range-from test (suc n) i t before (s ∷ after) refs (r ∷ refs') hs hr hb hc ha hd =
      let res = restart s.factory t.env in
      let s' = set_id (id_or_dead res.0) s in
      let r' = ref_or r res.0 in
      let found : get_elem? t.slots i ≡ some s =
        ap (λ l. get_elem? l i) hs ∙ get_elem?-middle before s after i hb in
      elim (Bool-cases (test s)) [
        | inl e ↦
            let t' : Tree sp = record t {
              slots = before ++ s' ∷ after;
              current_refs = refs ++ r' ∷ refs';
              env = res.1;
            } in
            rw (found, e, restart_child-at t i before s after refs r refs' hs hr hb hc)
              (restart_range-from test n (suc i) t' (before ++ s' ∷ []) after (refs ++ r' ∷ [])
                  refs' (sym (append_assoc before _ _)) (sym (append_assoc refs _ _))
                  (length-snoc before s' i hb) (length-snoc refs r' i hc) (omega arith)
                  (omega arith)
                ∙ put-cons before refs s' r' (sweep test after refs' res.1) t)
        | inr e ↦
            rw (found, e)
              (restart_range-from test n (suc i) t (before ++ s ∷ []) after (refs ++ r ∷ []) refs'
                  (hs ∙ sym (append_assoc before _ _)) (hr ∙ sym (append_assoc refs _ _))
                  (length-snoc before s i hb) (length-snoc refs r i hc) (omega arith) (omega arith)
                ∙ put-cons before refs s r (sweep test after refs' t.env) t)
      ]
  restart_range-from test n i t before after refs refs' hs hr hb hc ha hd = absurd (omega arith)
