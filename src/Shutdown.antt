-- ===== src/Shutdown.antt =====
-- The tasks of a running engine and the token that they share: `run_leaf_with_config` of
-- rust/core/src/engine/leaf_config.rs with its watcher, its blocking thread and the task that joins it, the task of
-- `spawn_arti`, and the loops of the DNS proxy and of the IPC server. The scheduler and the environment choose
-- which of them moves.
pub mod Ends
pub mod Measure
pub mod Liveness
pub mod Spawned
pub mod Stopping
use mathlib.Core.Option.{map, bind}
use fictional_octo_spork.Prelude.{
  ℕ, zero, suc, ◌+◌, ◌||◌, Bool, true, false, Option, none, some, if◌then◌else◌, List, [], ◌∷◌,
  ◌++◌,
}

-- The watcher waits for the token, has called `leaf::shutdown`, or was aborted before it did.
pub data Watcher : Type 0 where
  waiting fired withdrawn : Watcher

-- The blocking thread has yet to register its runtime in `leaf::start`, is registered there, has come back from it, has
-- cancelled the token, or is done.
pub data Blocking : Type 0 where
  starting serving returned notified over : Blocking

-- The Arti task is in `run`, has come back from it, or is done.
pub data ArtiStage : Type 0 where
  in_run back_from_run arti_over : ArtiStage

pub data LoopStage : Type 0 where
  in_loop loop_over : LoopStage

-- An instance of Leaf with its watcher, whether `leaf::shutdown` found its runtime, its thread, and whether the task that
-- joins the thread is done.
pub data Process : Type 0 where
  leaf : Watcher → (asked : Bool) → Blocking → (joined : Bool) → Process
  arti : ArtiStage → Process
  loop : LoopStage → Process

pub data Move : Type 0 where
  watcher_fires : Move
  leaf_registers : Move  -- `leaf::start` has its runtime known under its id
  leaf_obeys : Move  -- `leaf::shutdown` makes `leaf::start` return
  leaf_cancels : Move
  leaf_withdraws : Move  -- `shutdown_watch.abort()`, the last of the thread
  leaf_joins : Move
  run_stops : Move  -- a `select!` takes the cancellation
  run_cancels : Move
  handle_aborted : Move  -- `Engine::stop` aborts a handle, after it cancelled the token
  leaf_fails : Move  -- `leaf::start` returns of itself
  run_fails : Move  -- `run` of Arti returns an error
  token_cancelled : Move  -- `cancel` from outside: `Engine::stop`, a handle, an IPC client

-- Moves that the program or its scheduler makes. The others may happen or not.
abbrev pub is_due : Move → Bool
is_due leaf_fails = false
is_due run_fails = false
is_due handle_aborted = false
is_due token_cancelled = false
is_due _ = true

withdraw : Watcher → Watcher
withdraw waiting = withdrawn
withdraw w = w

-- `leaf::shutdown` finds only a runtime that is registered.
is_registered : Blocking → Bool
is_registered serving = true
is_registered _ = false

-- A move of one process under the token: the token and the process after it, if it can be made.
step_leaf : Move → Bool → Watcher → Bool → Blocking → Bool → Option (Bool × Process)
unfolding withdraw is_registered
step_leaf watcher_fires true waiting a b j = some (true, leaf fired (is_registered b || a) b j)
step_leaf leaf_registers t w a starting j = some (t, leaf w a serving j)
step_leaf leaf_fails t w a starting j = some (t, leaf w a returned j)
step_leaf leaf_obeys t w true serving j = some (t, leaf w true returned j)
step_leaf leaf_fails t w a serving j = some (t, leaf w a returned j)
step_leaf leaf_cancels t w a returned j = some (true, leaf w a notified j)
step_leaf leaf_withdraws t w a notified j = some (t, leaf (withdraw w) a over j)
step_leaf leaf_joins t w a over false = some (t, leaf w a over true)
step_leaf handle_aborted true w a b false = some (true, leaf w a b true)
step_leaf _ _ _ _ _ _ = none

step_arti : Move → Bool → ArtiStage → Option (Bool × Process)
step_arti run_stops true in_run = some (true, arti back_from_run)
step_arti run_fails t in_run = some (t, arti back_from_run)
step_arti run_cancels t back_from_run = some (true, arti arti_over)
step_arti handle_aborted true in_run = some (true, arti arti_over)
step_arti handle_aborted true back_from_run = some (true, arti arti_over)
step_arti _ _ _ = none

step_loop : Move → Bool → LoopStage → Option (Bool × Process)
step_loop run_stops true in_loop = some (true, loop loop_over)
step_loop handle_aborted true in_loop = some (true, loop loop_over)
step_loop _ _ _ = none

pub step : Move → Bool → Process → Option (Bool × Process)
unfolding step_leaf step_arti step_loop
step m t (leaf w a b j) = step_leaf m t w a b j
step m t (arti s) = step_arti m t s
step m t (loop s) = step_loop m t s

-- The processes of an engine, and whether their token is cancelled.
pub record System : Type 0 where
  pub token : Bool
  pub processes : List Process

-- A move of the process at a place in the list.
pub step_at : Move → ℕ → Bool → List Process → Option (Bool × List Process)
unfolding step
step_at m i t [] = none
step_at m zero t (p ∷ ps) = map (λ r. (r.0, r.1 ∷ ps)) (step m t p)
step_at m (suc i) t (p ∷ ps) = map (λ r. (r.0, p ∷ r.1)) (step_at m i t ps)

abbrev pub after_step : Bool × List Process → System
after_step r = record { token = r.0; processes = r.1 }

pub cancel_token : System → Option System
cancel_token s = if s.token then none else some (record s { token = true })

-- A move of the system; a cancellation from outside counts the first time only.
pub move : Move → ℕ → System → Option System
unfolding step_at cancel_token
move token_cancelled i s = cancel_token s
move m i s = map after_step (step_at m i s.token s.processes)

-- A schedule, where every one of its moves can be made.
unfoldable pub follow : List (Move × ℕ) → System → Option System
unfolding move
follow [] s = some s
follow (m ∷ ms) s = bind (move m.0 m.1 s) (λ s'. follow ms s')

-- `Engine::start`: the transport's Leaf, Arti, the main Leaf, the DNS proxy and the IPC server.
abbrev fresh_leaf : Process
fresh_leaf = leaf waiting false starting false

abbrev pub running_engine : System
running_engine = record {
  token = false;
  processes = fresh_leaf ∷ arti in_run ∷ fresh_leaf ∷ loop in_loop ∷ loop in_loop ∷ [];
}
