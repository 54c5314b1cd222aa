-- ===== src/Supervisor/Shutdown.antt =====
-- How the task of src/supervisor.rs ends: every child is told to stop, the last one first.
use mathlib.Core.List.{reverse-cons}
use lane_switchboards.Base.{nat_eq, ◌≡◌, refl, ap, ◌∙◌, List, [], ◌∷◌, ◌++◌, reverse}
use lane_switchboards.Actor.Types.{ActorId}
use lane_switchboards.Supervisor.{
  SupervisorConfig, SupervisorEvent, shutdown, Spawner, Tree, ended, stop_all, stop_each, on_event,
  run_supervisor,
}

module _ (sp : Spawner) where
  open sp use {Env, Factory, stop}

  -- The children are stopped by this, from the last to the first.
  abbrev pub stop_backwards : List ActorId → Env → Env
  stop_backwards [] env = env
  stop_backwards (r ∷ refs) env = stop r (stop_backwards refs env)

  stop_each-append :
      (xs ys : List ActorId) (env : Env)
      → stop_each sp (xs ++ ys) env ≡ stop_each sp ys (stop_each sp xs env)
  unfolding stop_each
  stop_each-append [] ys env = refl
  stop_each-append (x ∷ xs) ys env = stop_each-append xs ys (stop x env)

  stop_each-reverse :
      (refs : List ActorId) (env : Env) → stop_each sp (reverse refs) env ≡ stop_backwards refs env
  unfolding stop_each
  stop_each-reverse [] env = refl
  stop_each-reverse (r ∷ refs) env =
      ap (λ l. stop_each sp l env) (reverse-cons r refs)
      ∙ stop_each-append (reverse refs) (r ∷ []) env
      ∙ ap (stop r) (stop_each-reverse refs env)

  -- A shutdown request ends the task at once, whatever events would follow; each current reference
  -- is stopped once, the last one first, and no child is restarted.
  pub shutdown-stops :
      (config : SupervisorConfig) (events : List SupervisorEvent) (t : Tree sp)
      → run_supervisor sp config (shutdown ∷ events) t
        ≡ ended (record t { env = stop_backwards t.current_refs t.env })
  unfolding run_supervisor on_event stop_all
  shutdown-stops config events t =
      ap (λ e. ended (record t { env = e })) (stop_each-reverse t.current_refs t.env)
