-- ===== src/Tests/Teardown.antt =====
-- `Engine::stop` beside the tasks that it stops.
use mathlib.Core.Option.{bind}
use fictional_octo_spork.Prelude.{
  ◌≤◌, ◌≡◌, ◌≢◌, ◌⊎◌, refl, sym, ◌∙◌, true, some, List, [], ◌∷◌, length, All,
}
use fictional_octo_spork.Shutdown.{handle_aborted, run_stops}
use fictional_octo_spork.Shutdown.Stopping.{
  Stage, not_called, finished, Stopping, Turn, engine, stop_called, stop_goes_on, stop_times_out,
  transport, others, turns, before_stop, is_over_at,
}
use fictional_octo_spork.Shutdown.Stopping.Steady.{waits, WasAwaited}
use fictional_octo_spork.Shutdown.Stopping.Stops.{HasTurn, stop_returns}

-- The transport is aborted, Arti does not end in time, and the others stop of themselves or are aborted.
abbrev teardown : List Turn
teardown =
    stop_called
    ∷ engine handle_aborted 0
    ∷ stop_goes_on
    ∷ stop_times_out
    ∷ engine run_stops 3
    ∷ engine handle_aborted 2
    ∷ stop_goes_on
    ∷ stop_goes_on
    ∷ engine run_stops 4
    ∷ stop_goes_on
    ∷ []

torn_down : (s : Stopping) × (turns teardown before_stop ≡ some s) × (s.stage ≡ finished)
unfolding turns bind is_over_at
torn_down = (_, refl, refl)

finished-ne-not_called : ◌≢◌ {A = Stage} finished not_called
finished-ne-not_called h = cc

was_called : torn_down.0.stage ≢ not_called
was_called h = finished-ne-not_called (sym torn_down.2 ∙ h)

stop_returns_example :
    (length teardown ≤ 23)
    × (torn_down.0.system.token ≡ true)
    × (((torn_down.0.stage ≡ finished)
          × (waits torn_down.0.waited ≡ transport ∷ others)
          × All (WasAwaited torn_down.0.system.processes) torn_down.0.waited)
        ⊎ HasTurn torn_down.0)
stop_returns_example = stop_returns teardown torn_down.0 torn_down.1 was_called
