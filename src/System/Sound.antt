-- ===== src/System/Sound.antt =====
-- What an actor of src/actor.rs does, in its turn, to the supervision of src/supervisor.rs: no child
-- is forgotten.
use lane_switchboards.Base.{
  nat_eq, ℕ, ◌+◌, ◌^◌, ◌<◌, ◌≡◌, refl, ◌∙◌, inl, inr, none, some, List, ◌∷◌, arith, Eq, length, All,
  All-map, Bool, true, Bool-cases,
}
use lane_switchboards.Config.{ActorConfig}
use lane_switchboards.Actor.Types.{ActorId, ExitReason}
use lane_switchboards.Actor.World.{World, notify_supervisor}
use lane_switchboards.Actor.Message.{DynActor, Called, returned, unwound}
use lane_switchboards.Actor.Run.{Input, Running, Round, stay, leave, retire, fall, abandon}
use lane_switchboards.Supervisor.{ChildSpec}
use lane_switchboards.System.{System, world, is_message, begin_loop, after_round}
use lane_switchboards.System.Watched.{
  Watched, Same, IsListening, counter-notify, notify-IsListening, notify-Watched, retire-Watched,
  Watched-Same, told-Watched, silent-Watched,
}
use lane_switchboards.System.Passes.{AreApart, AreBelow}
use lane_switchboards.System.Rounds.{Heard, finish_actor-retires, trans-Same}

-- With `n` children, and room for `b` more identifiers below 2 ^ 64. While its task runs, the
-- supervisor's channel is open and no child is forgotten.
pub record IsSound (channel : ℕ) {K : Type 0} (n b : ℕ) (w : World) (slots : List (ChildSpec K))
    (refs : List ActorId) (is_running : Bool) (silent : List ActorId) : Type 0 where
  pub bounded : w.counter + b < 2 ^ 64
  pub many : length slots ≡ n
  pub paired : length slots ≡ length refs
  pub below : AreBelow w.counter slots
  pub apart : AreApart slots
  pub listening : is_running ≡ true → IsListening channel w
  pub watched : is_running ≡ true → All (λ s. Watched channel w silent s.id) slots

module _ (channel : ℕ) {K : Type 0} {n b : ℕ} {slots : List (ChildSpec K)} {refs : List ActorId}
    {is_running : Bool} where
  -- A change of the shared state that gives out no identifier and forgets nobody.
  pub change-IsSound :
      (w v : World) (silent silent' : List ActorId)
      → v.counter ≡ w.counter
      → (IsListening channel w → IsListening channel v)
      → ((j : ActorId)
          → IsListening channel w
          → Watched channel w silent j
          → Watched channel v silent' j)
      → IsSound channel n b w slots refs is_running silent
      → IsSound channel n b v slots refs is_running silent'
  change-IsSound w v silent silent' c l k s = record {
    bounded = omega (arith, c, s.bounded);
    many = s.many;
    paired = s.paired;
    below = All-map slots (λ x h. omega (arith, c, h)) s.below;
    apart = s.apart;
    listening = λ r. l (s.listening r);
    watched = λ r. All-map slots (λ x h. k x.id (s.listening r) h) (s.watched r);
  }

  retire-IsSound :
      (id : ActorId) (control : ℕ) (w v : World) (silent : List ActorId)
      → Same w v
      → IsSound channel n b w slots refs is_running silent
      → IsSound channel n b (retire id control v) slots refs is_running (id ∷ silent)
  unfolding retire
  retire-IsSound id control w v silent q s =
      change-IsSound w (retire id control v) silent (id ∷ silent) q.counter
        (λ (queue, h). (queue, cc (q.signals, h)))
        (λ j l h. retire-Watched channel id j control w v silent q h) s

  abandon-IsSound :
      (id : ActorId) (control : ℕ) (w v : World) (silent : List ActorId)
      → Same w v
      → IsSound channel n b w slots refs is_running silent
      → IsSound channel n b (abandon control v) slots refs is_running (id ∷ silent)
  unfolding abandon
  abandon-IsSound id control w v silent q s =
      change-IsSound w (abandon control v) silent (id ∷ silent) q.counter
        (λ (queue, h). (queue, cc (q.signals, h)))
        (λ j l h.
          silent-Watched channel id j w (abandon control v) silent
            (record { actors = q.actors; signals = q.signals; counter = q.counter }) h)
        s

  -- It has told the supervisor, and then its `post_stop` panics.
  fallen-IsSound :
      (id : ActorId) (control : ℕ) (reason : ExitReason) (w v : World) (silent : List ActorId)
      → Same (notify_supervisor id reason w) v
      → IsSound channel n b w slots refs is_running silent
      → IsSound channel n b (abandon control v) slots refs is_running silent
  unfolding abandon
  fallen-IsSound id control reason w v silent q s =
      change-IsSound w (abandon control v) silent silent
        (q.counter ∙ counter-notify channel id reason w)
        (λ l.
          let (queue, h) = notify-IsListening channel id reason w l in (queue, cc (q.signals, h)))
        (λ j l h.
          told-Watched channel id j reason w (abandon control v) silent l
            (record { actors = q.actors; signals = q.signals; counter = q.counter }) h)
        s

  notify-IsSound :
      (id : ActorId) (control : ℕ) (reason : ExitReason) (w v : World) (silent : List ActorId)
      → Same (notify_supervisor id reason w) v
      → IsSound channel n b w slots refs is_running silent
      → IsSound channel n b (retire id control v) slots refs is_running silent
  unfolding retire
  notify-IsSound id control reason w v silent q s =
      change-IsSound w (retire id control v) silent silent
        (q.counter ∙ counter-notify channel id reason w)
        (λ l.
          let (queue, h) = notify-IsListening channel id reason w l in (queue, cc (q.signals, h)))
        (λ j l h. notify-Watched channel id j control reason w v silent l q h) s

module _ (channel : ℕ) (d : DynActor) {K : Type 0} ⦃e : Eq K⦄ (build : K → d.Obj) where
  open d use {Msg, Obj, pre_start}

  abbrev pub IsSystem : ℕ → ℕ → System channel d build → Type 0
  IsSystem n b s =
      IsSound channel n b (world channel d build s) s.tree.slots s.tree.current_refs s.is_running
        s.silent

  pub begin_loop-IsSystem :
      (config : ActorConfig) (id : ActorId) (first : Called Obj) (n b : ℕ)
      (s : System channel d build)
      → IsSystem n b s
      → IsSystem n b (begin_loop channel d build config id first s)
  unfolding begin_loop
  begin_loop-IsSystem config id unwound n b s h =
      let w = world channel d build s in
      abandon-IsSound channel id id w w s.silent
        (record { actors = refl; signals = refl; counter = refl }) h
  begin_loop-IsSystem config id (returned obj none) n b s h = h
  begin_loop-IsSystem config id (returned obj (some failure)) n b s h =
      let w = world channel d build s in
      retire-IsSound channel id id w w s.silent
        (record { actors = refl; signals = refl; counter = refl }) h

  pub after_round-IsSystem :
      (k : ℕ) (i : Input Msg Obj) (r : Running Obj) (round : Round Obj) (n b : ℕ)
      (s : System channel d build)
      → Heard d i r (world channel d build s) round
      → IsSystem n b s
      → IsSystem n b (after_round channel d build k i round s)
  unfolding after_round
  after_round-IsSystem k i r (stay r' w) n b s q h =
      change-IsSound channel (world channel d build s) w s.silent s.silent q.counter
        (λ (queue, l). (queue, cc (q.signals, l)))
        (λ j l v. Watched-Same channel _ w s.silent j q v) h
  after_round-IsSystem k i r (leave r' v reason) n b s (same, q) h =
      let w = world channel d build s in
      let (v', q', f) = finish_actor-retires d r' reason v in
      elim (Bool-cases (is_message i)) [
        | inl t ↦
            let q₁ : Same (notify_supervisor r'.id reason w) v = rw same (rw t at q) in
            let all = trans-Same _ v v' q₁ q' in
            elim f [
              | inl g ↦
                  rw (t, g) (notify-IsSound channel r'.id r'.control reason w v' s.silent all h)
              | inr g ↦
                  rw (t, g) (fallen-IsSound channel r'.id r'.control reason w v' s.silent all h)
            ]
        | inr t ↦
            let q₁ : Same w v = rw t at q in
            let all = trans-Same w v v' q₁ q' in
            elim f [
              | inl g ↦ rw (t, g) (retire-IsSound channel r'.id r'.control w v' s.silent all h)
              | inr g ↦ rw (t, g) (abandon-IsSound channel r'.id r'.control w v' s.silent all h)
            ]
      ]
  after_round-IsSystem k i r (fall r' v) n b s (same, q) h =
      abandon-IsSound channel r'.id r'.control (world channel d build s) v s.silent q h
