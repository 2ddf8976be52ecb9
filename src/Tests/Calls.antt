-- ===== src/Tests/Calls.antt =====
-- Sequences of calls on a fresh process, and schedules of a running engine.
use mathlib.Core.Option.{bind}
use fictional_octo_spork.Prelude.{ℕ, ◌≡◌, ◌⊎◌, refl, true, false, some, List, [], ◌∷◌, ◌++◌, All}
use fictional_octo_spork.World.{World}
use fictional_octo_spork.Core.{status}
use fictional_octo_spork.Core.History.{start_call, task_end}
use fictional_octo_spork.Core.Orderly.{Accounted}
use fictional_octo_spork.Core.Threads.{
  Process, Turn, call, stop_takes, stop_goes_on, HeldBy, turns, no_orphans,
}
use fictional_octo_spork.Core.Contract.{
  Contract, Refines, promised_run, permits_run, answered, run-Refines,
}
use fictional_octo_spork.Shutdown.{
  Move, leaf_registers, leaf_fails, leaf_cancels, leaf_withdraws, run_stops, run_cancels, System,
  follow, running_engine,
}
use fictional_octo_spork.Shutdown.Ends.{stopped}
use fictional_octo_spork.Shutdown.Liveness.{exit_is_contagious}
use fictional_octo_spork.Tests.Samples.{willing, fresh, some_config, some_context}

abbrev before : World willing
before = fresh willing false

-- A second start is refused, a task ends, and while the engine is being stopped, another thread starts one.
abbrev overlap : List Turn
overlap =
    call (start_call some_config some_context)
    ∷ call (start_call some_config some_context)
    ∷ call (task_end 0)
    ∷ stop_takes
    ∷ call (start_call some_config some_context)
    ∷ stop_goes_on 0
    ∷ []

no_orphans_example :
    let p = turns willing overlap (record { world = before; stopping = [] }) in
    All (Accounted willing (HeldBy p.stopping) p.world) p.world.spawned
no_orphans_example = no_orphans willing overlap before refl

abbrev idle : Contract
idle = record { active = false; closed = [] }

before-Refines : Refines willing before idle
unfolding status
before-Refines = record { filled = refl; reports = refl; closes_same = refl }

run-Refines_example :
    let p : Process willing = record { world = before; stopping = [] } in
    (permits_run (answered willing overlap p) idle ≡ true)
    × Refines willing
        (turns willing overlap p).world
        (promised_run (answered willing overlap p) idle)
run-Refines_example =
    run-Refines willing overlap (record { world = before; stopping = [] }) idle before-Refines

-- Both instances of Leaf are registered; then the main one fails and cancels the token, and a loop and the Arti task stop.
abbrev coming_up : List (Move × ℕ)
coming_up = (leaf_registers, 0) ∷ (leaf_registers, 2) ∷ []

abbrev failing : List (Move × ℕ)
failing =
    (leaf_fails, 2)
    ∷ (leaf_cancels, 2)
    ∷ (run_stops, 3)
    ∷ (run_stops, 1)
    ∷ (leaf_withdraws, 2)
    ∷ (run_cancels, 1)
    ∷ []

up : (s : System) × (follow coming_up running_engine ≡ some s)
unfolding follow bind
up = (_, refl)

reached : (s : System) × (follow failing up.0 ≡ some s) × (s.token ≡ true)
unfolding follow bind up
reached = (_, refl, refl)

whole : follow (coming_up ++ failing) running_engine ≡ some reached.0
unfolding follow bind up reached
whole = refl

exit_is_contagious_example :
    All (λ p. (stopped p ≡ false) ⊎ (reached.0.token ≡ true)) reached.0.processes
exit_is_contagious_example = exit_is_contagious (coming_up ++ failing) reached.0 whole
