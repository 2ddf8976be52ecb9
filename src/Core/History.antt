-- ===== src/Core/History.antt =====
-- Calls of the library, and the ends of the tasks that it spawned, as events.
use fictional_octo_spork.Prelude.{ℕ}
use fictional_octo_spork.Config.{AppConfig}
use fictional_octo_spork.World.{Outside, World, PlatformContext, cancel}
use fictional_octo_spork.Core.{EngineHandle, start, stop, handle_stop}

-- A call of the library, or the end of a task that cancels the token that it shares: an instance of Leaf whose
-- `leaf::start` returned, the Arti task, or an IPC client that sent `Stop`.
pub data Event : Type 0 where
  start_call : AppConfig → PlatformContext → Event
  stop_call : Event
  handle_call : EngineHandle → Event
  task_end : (token : ℕ) → Event

module _ (os : Outside) where
  unfoldable pub perform : Event → World os → World os
  unfolding start stop handle_stop cancel
  perform (start_call cfg ctx) w = (start os cfg ctx w).1
  perform stop_call w = (stop os w).1
  perform (handle_call h) w = handle_stop os h w
  perform (task_end token) w = cancel os token w
