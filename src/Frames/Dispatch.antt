-- ===== src/Frames/Dispatch.antt =====
-- The tasks that a node of src/distributed.rs spawns for its frames, in any order.
use mathlib.Core.Path.{subst}
use mathlib.Core.List.{append_assoc, append-nil}
use mathlib.Core.List.{Permᴰ}
use mathlib.Core.List.Permᴰ as Perm
use lane_switchboards.Base.{
  nat_eq, string_eq, ℕ, String, ◌≡◌, refl, sym, ◌∙◌, ◌≢◌, inl, inr, false, none, some, List, [],
  ◌∷◌, ◌++◌, arith, if◌then◌else◌, Bool-cases, Option-cases, ◌==◌, ==_iff, get_elem?,
  get_elem?-set_self, get_elem?-set_ne, get_elem?-lt, lookup, ap, Bool, true,
}
use lane_switchboards.Frames.Node.{Node, Channel, offer, run_task, run_tasks}

-- Does the target lead to this channel?
abbrev pub leads : Node → ℕ → String → Bool
leads node tx target = elim (lookup target node.dispatch) [ none ↦ false | some to ↦ to == tx ]

module _ {M : Type 0} where
  -- The messages whose targets lead to a channel.
  abbrev pub messages_for : Node → ℕ → List (String × M) → List M
  messages_for node tx [] = []
  messages_for node tx ((target, msg) ∷ tasks) =
      let rest = messages_for node tx tasks in if leads node tx target then msg ∷ rest else rest

  offer-at :
      (tx to : ℕ) (msg : M) (channels : List (Channel M)) (c : Channel M)
      → get_elem? channels tx ≡ some c
      → c.closed ≡ false
      → (c' : Channel M) × (get_elem? (offer to msg channels) tx ≡ some c')
        × (c'.closed ≡ false)
        × (c'.queue ≡ c.queue ++ (if to == tx then msg ∷ [] else []))
  unfolding offer
  offer-at tx to msg channels c e o = elim (Bool-cases (to == tx)) [
    | inl t ↦
        let same : to ≡ tx = (==_iff to tx).0 t in
        let there : get_elem? channels to ≡ some c = rw same e in
        let c' : Channel M = record { queue = c.queue ++ msg ∷ []; closed = false } in
        (
          c',
          rw (there, o, offer)
              (rw same (get_elem?-set_self channels tx c' (get_elem?-lt channels tx e))),
          refl,
          rw t refl,
        )
    | inr t ↦ elim (Option-cases (get_elem? channels to)) [
      | inl q ↦ (c, rw (q, offer) e, o, rw t (sym (append-nil c.queue)))
      | inr (d, q) ↦ elim (Bool-cases d.closed) [
        | inl z ↦ (c, rw (q, z, offer) e, o, rw t (sym (append-nil c.queue)))
        | inr z ↦
            let apart : to ≢ tx = λ w. ground (arith, ==_iff to tx) in
            (
              c,
              rw (q, z, offer)
                  (get_elem?-set_ne channels to tx
                      (record { queue = d.queue ++ msg ∷ []; closed = false }) apart
                    ∙ e),
              o,
              rw t (sym (append-nil c.queue)),
            )
      ]
    ]
  ]

  one_more :
      (queue : List M) (here : Bool) (msg : M) (later : List M)
      → (queue ++ (if here then msg ∷ [] else [])) ++ later
        ≡ queue ++ (if here then msg ∷ later else later)
  one_more queue true msg later = append_assoc queue (msg ∷ []) later
  one_more queue false msg later = ap (λ l. l ++ later) (append-nil queue)

  run_task-at :
      (node : Node) (tx : ℕ) (target : String) (msg : M) (channels : List (Channel M))
      (c : Channel M)
      → get_elem? channels tx ≡ some c
      → c.closed ≡ false
      → (c' : Channel M) × (get_elem? (run_task node (target, msg) channels) tx ≡ some c')
        × (c'.closed ≡ false)
        × (c'.queue ≡ c.queue ++ (if leads node tx target then msg ∷ [] else []))
  unfolding run_task
  run_task-at node tx target msg channels c e o =
      elim (Option-cases (lookup target node.dispatch)) [
        | inl q ↦
            let off : leads node tx target ≡ false = rw (q, leads) refl in
            rw (q, run_task) (c, e, o, rw off (sym (append-nil c.queue)))
        | inr (to, q) ↦
            let on : leads node tx target ≡ (to == tx) = rw (q, leads) refl in
            rw (q, run_task, on) (offer-at tx to msg channels c e o)
      ]

  run_tasks-at :
      (node : Node) (tx : ℕ) (tasks : List (String × M)) (channels : List (Channel M))
      (c : Channel M)
      → get_elem? channels tx ≡ some c
      → c.closed ≡ false
      → (c' : Channel M) × (get_elem? (run_tasks node tasks channels) tx ≡ some c')
        × (c'.closed ≡ false)
        × (c'.queue ≡ c.queue ++ messages_for node tx tasks)
  unfolding run_tasks
  run_tasks-at node tx [] channels c e o = (c, e, o, sym (append-nil c.queue))
  run_tasks-at node tx ((target, msg) ∷ tasks) channels c e o =
      let (c₁, e1, o1, q1) = run_task-at node tx target msg channels c e o in
      let (c', e2, o2, q2) =
        run_tasks-at node tx tasks (run_task node (target, msg) channels) c₁ e1 o1 in
      (
        c',
        e2,
        o2,
        q2
            ∙ ap (λ l. l ++ messages_for node tx tasks) q1
            ∙ one_more c.queue (leads node tx target) msg (messages_for node tx tasks),
      )

  more_perm :
      (here : Bool) (msg : M) (xs ys : List M)
      → Permᴰ xs ys
      → Permᴰ (if here then msg ∷ xs else xs) (if here then msg ∷ ys else ys)
  more_perm true msg xs ys p = Permᴰ.cons refl p
  more_perm false msg xs ys p = p

  swap_perm :
      (here there : Bool) (a b : M) (xs : List M)
      → Permᴰ
          (if here then a ∷ (if there then b ∷ xs else xs) else (if there then b ∷ xs else xs))
          (if there then b ∷ (if here then a ∷ xs else xs) else (if here then a ∷ xs else xs))
  swap_perm true true a b xs = Permᴰ.swap refl refl
  swap_perm true false a b xs = Perm.refl (a ∷ xs)
  swap_perm false true a b xs = Perm.refl (b ∷ xs)
  swap_perm false false a b xs = Perm.refl xs

  messages_for-perm :
      (node : Node) (tx : ℕ) (tasks order : List (String × M))
      → Permᴰ tasks order
      → Permᴰ (messages_for node tx tasks) (messages_for node tx order)
  messages_for-perm node tx _ _ Permᴰ.nil = Permᴰ.nil
  messages_for-perm node tx _ _ (Permᴰ.cons {a = a} {b = b} {l₁ = l₁} {l₂ = l₂} e p) =
      subst
        (λ (x : String × M). Permᴰ (messages_for node tx (a ∷ l₁)) (messages_for node tx (x ∷ l₂)))
        e
        (more_perm (leads node tx a.0) a.1 (messages_for node tx l₁) (messages_for node tx l₂)
          (messages_for-perm node tx l₁ l₂ p))
  messages_for-perm node tx _ _ (Permᴰ.swap {a = a} {b = b} {a' = a'} {b' = b'} {l = l} e e') =
      subst
        (λ (x : String × M).
          Permᴰ (messages_for node tx (a ∷ b ∷ l)) (messages_for node tx (x ∷ b' ∷ l)))
        e'
        (subst
          (λ (x : String × M).
            Permᴰ (messages_for node tx (a ∷ b ∷ l)) (messages_for node tx (b ∷ x ∷ l)))
          e (swap_perm (leads node tx a.0) (leads node tx b.0) a.1 b.1 (messages_for node tx l)))
  messages_for-perm node tx tasks order (Permᴰ.trans {l₂ = l₂} p q) =
      Permᴰ.trans (messages_for-perm node tx tasks l₂ p) (messages_for-perm node tx l₂ order q)

  -- The runtime may run the tasks of frames in any order: a channel of the node that is open then
  -- has, after what was in it, exactly the messages of the frames whose targets lead to it, each as
  -- often as it came, in some order. It stays open.
  pub run_tasks-any_order :
      (node : Node) (tx : ℕ) (tasks order : List (String × M)) (channels : List (Channel M))
      (c : Channel M)
      → Permᴰ tasks order
      → get_elem? channels tx ≡ some c
      → c.closed ≡ false
      → (c' : Channel M) × (later : List M) × (get_elem? (run_tasks node order channels) tx
          ≡ some c')
        × (c'.closed ≡ false)
        × (c'.queue ≡ c.queue ++ later)
        × Permᴰ (messages_for node tx tasks) later
  run_tasks-any_order node tx tasks order channels c p e o =
      let (c', e1, o1, q1) = run_tasks-at node tx order channels c e o in
      (c', messages_for node tx order, e1, o1, q1, messages_for-perm node tx tasks order p)
