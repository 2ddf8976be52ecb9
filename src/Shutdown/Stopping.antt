-- ===== src/Shutdown/Stopping.antt =====
-- rust/core/src/engine.rs: `Engine::stop`, one await at a time, beside the tasks that it stops: it cancels the token, and
-- then aborts and awaits each handle, first that of the transport (rust/core/src/pt/leaf.rs), without a limit, and
-- then the others, each for two seconds at most.

pub mod Handles
pub mod Steady
pub mod Stops
use mathlib.Core.Option.{map, bind}
use fictional_octo_spork.Prelude.{
  ℕ, zero, suc, Bool, true, false, ◌&&◌, ◌||◌, not, ◌==◌, Option, none, some, if◌then◌else◌, List,
  [], ◌∷◌, ◌++◌,
}
use fictional_octo_spork.Shutdown.{
  Process, leaf, arti, loop, arti_over, loop_over, Move, handle_aborted, is_due, System, move,
  running_engine,
}

-- The handle at a place, and whether its await has a time limit.
pub record Wait : Type 0 where
  pub place : ℕ
  pub limited : Bool

-- `stop` was not called, awaits a handle with more to come, or has returned.
pub data Stage : Type 0 where
  not_called : Stage
  awaiting : Wait → (rest : List Wait) → Stage
  finished : Stage

-- An await that is over, and whether its time ran out.
pub record Awaited : Type 0 where
  pub wait : Wait
  pub timed_out : Bool

pub record Stopping : Type 0 where
  pub system : System
  pub stage : Stage
  pub waited : List Awaited

pub data Turn : Type 0 where
  engine : Move → (place : ℕ) → Turn
  stop_called : Turn
  stop_goes_on : Turn
  stop_times_out : Turn

abbrev limited_at : ℕ → Wait
limited_at i = record { place = i; limited = true }

-- The transport, and the tasks in the order in which the engine has them.
abbrev pub transport : Wait
transport = record { place = 0; limited = false }

abbrev pub others : List Wait
others = limited_at 1 ∷ limited_at 2 ∷ limited_at 3 ∷ limited_at 4 ∷ []

-- A handle that is done: its task ended or was aborted.
pub is_over : Process → Bool
is_over (leaf w a b joined) = joined
is_over (arti arti_over) = true
is_over (arti _) = false
is_over (loop loop_over) = true
is_over (loop _) = false

unfoldable pub is_over_at : ℕ → List Process → Bool
unfolding is_over
is_over_at i [] = true
is_over_at zero (p ∷ ps) = is_over p
is_over_at (suc i) (p ∷ ps) = is_over_at i ps

is_among : ℕ → List Wait → Bool
is_among i [] = false
is_among i (w ∷ ws) = i == w.place || is_among i ws

-- Whether `stop` has aborted the handle at a place.
pub is_aborted : Stage → ℕ → Bool
unfolding is_among
is_aborted not_called i = false
is_aborted (awaiting w rest) i = not (is_among i rest)
is_aborted finished i = true

next : List Wait → Stage
next [] = finished
next (w ∷ ws) = awaiting w ws

-- The await of `w` is over.
pass : Wait → List Wait → Bool → Stopping → Stopping
unfolding next
pass w rest timed_out s = record s {
  stage = next rest;
  waited = s.waited ++ record { wait = w; timed_out = timed_out } ∷ [];
}

call_stop : Stage → Stopping → Option Stopping
call_stop not_called s =
    some (record s { system = record s.system { token = true }; stage = awaiting transport others })
call_stop _ s = none

go_on : Stage → Stopping → Option Stopping
unfolding pass
go_on (awaiting w rest) s =
    if is_over_at w.place s.system.processes then some (pass w rest false s) else none
go_on _ s = none

time_out : Stage → Stopping → Option Stopping
unfolding pass
time_out (awaiting w rest) s = if w.limited then some (pass w rest true s) else none
time_out _ s = none

-- A move of the engine; an abort takes effect only where `stop` has asked for it.
allowed : Move → Stage → ℕ → Bool
unfolding is_aborted
allowed handle_aborted stage i = is_aborted stage i
allowed _ stage i = true

pub turn : Turn → Stopping → Option Stopping
unfolding call_stop go_on time_out allowed move
turn (engine m i) s =
    if allowed m s.stage i
    then map (λ system. record s { system = system }) (move m i s.system)
    else none
turn stop_called s = call_stop s.stage s
turn stop_goes_on s = go_on s.stage s
turn stop_times_out s = time_out s.stage s

-- A schedule, where every one of its turns can be made.
unfoldable pub turns : List Turn → Stopping → Option Stopping
unfolding turn
turns [] s = some s
turns (t ∷ ts) s = bind (turn t s) (λ s'. turns ts s')

-- Turns that the program or its scheduler makes: no clock is needed, and an abort that was asked for takes effect.
abbrev pub is_ready : Turn → Bool
is_ready (engine handle_aborted i) = true
is_ready (engine m i) = is_due m
is_ready stop_goes_on = true
is_ready _ = false

abbrev pub before_stop : Stopping
before_stop = record { system = running_engine; stage = not_called; waited = [] }
