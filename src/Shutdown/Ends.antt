-- ===== src/Shutdown/Ends.antt =====
-- Once its token is cancelled an engine comes to an end, whichever of its tasks the scheduler prefers.
use fictional_octo_spork.Prelude.{ℕ, ◌+◌, ◌<◌, ◌≡◌, ◌⊎◌, refl, Bool, true, false, some, arith}
use fictional_octo_spork.Shutdown.{
  Watcher, waiting, fired, withdrawn, Blocking, starting, serving, returned, notified, over, in_run,
  back_from_run, arti_over, in_loop, loop_over, Process, leaf, arti, loop, Move, watcher_fires,
  leaf_registers, leaf_obeys, leaf_cancels, leaf_withdraws, leaf_joins, run_stops, run_cancels,
  is_due, withdraw, is_registered, step_leaf, step_arti, step_loop, step,
}

-- How many moves a process has left at most.
abbrev watcher_weight : Watcher → ℕ
watcher_weight waiting = 1
watcher_weight _ = 0

abbrev blocking_weight : Blocking → ℕ
blocking_weight starting = 4
blocking_weight serving = 3
blocking_weight returned = 2
blocking_weight notified = 1
blocking_weight over = 0

abbrev joined_weight : Bool → ℕ
joined_weight true = 0
joined_weight false = 1

unfoldable pub weight : Process → ℕ
weight (leaf w a b j) = watcher_weight w + (blocking_weight b + joined_weight j)
weight (arti in_run) = 2
weight (arti back_from_run) = 1
weight (arti arti_over) = 0
weight (loop in_loop) = 1
weight (loop loop_over) = 0

-- The process is done, and nothing of it is left.
pub ended : Process → Bool
ended (leaf waiting a b j) = false
ended (leaf _ a over true) = true
ended (leaf _ a _ _) = false
ended (arti arti_over) = true
ended (arti _) = false
ended (loop loop_over) = true
ended (loop in_loop) = false

-- Its watcher called `leaf::shutdown` before the runtime was registered, which then came up: nobody shuts it down again.
pub missed : Process → Bool
missed (leaf fired false serving j) = true
missed _ = false

-- The thread of an instance of Leaf has yet to register its runtime.
pub is_starting : Process → Bool
is_starting (leaf w a starting j) = true
is_starting _ = false

-- The thread of an instance of Leaf is through with the token, whatever became of its watcher and of the task that joins
-- it; or the Arti task or a loop is done.
pub stopped : Process → Bool
stopped (leaf w a notified j) = true
stopped (leaf w a over j) = true
stopped (leaf w a _ j) = false
stopped (arti arti_over) = true
stopped (arti _) = false
stopped (loop loop_over) = true
stopped (loop in_loop) = false

-- What holds of each process at any time, under the token: a watcher that fired has seen it cancelled, one that was
-- withdrawn has a thread that is done, and a thread, a run or a loop that is done has left a cancelled token.
unfoldable pub sound : Bool → Process → Bool
sound t (leaf waiting a starting j) = true
sound t (leaf waiting a serving j) = true
sound t (leaf waiting a returned j) = true
sound t (leaf waiting a notified j) = t
sound t (leaf waiting a over j) = false
sound t (leaf fired a starting j) = t
sound t (leaf fired a serving j) = t
sound t (leaf fired a returned j) = t
sound t (leaf fired a notified j) = t
sound t (leaf fired a over j) = t
sound t (leaf withdrawn a over j) = t
sound t (leaf withdrawn a _ j) = false
sound t (arti arti_over) = t
sound t (arti _) = true
sound t (loop loop_over) = t
sound t (loop in_loop) = true

step_leaf_lowers :
    (m : Move) (t : Bool) (w : Watcher) (a : Bool) (b : Blocking) (j : Bool) {r : Bool × Process}
    → step_leaf m t w a b j ≡ some r
    → weight r.1 < watcher_weight w + (blocking_weight b + joined_weight j)
unfolding step_leaf weight withdraw is_registered
step_leaf_lowers m t w a b j h = ground arith

pub step_lowers :
    (m : Move) (t : Bool) (p : Process) {r : Bool × Process}
    → step m t p ≡ some r
    → weight r.1 < weight p
unfolding step weight step_arti step_loop
step_lowers m t (leaf w a b j) h = step_leaf_lowers m t w a b j h
step_lowers m t (arti s) h = ground arith
step_lowers m t (loop s) h = ground arith

pub step_keeps :
    (m : Move) (t : Bool) (p : Process) {r : Bool × Process}
    → sound t p ≡ true
    → step m t p ≡ some r
    → (sound r.0 r.1 ≡ true) × ((r.0 ≡ true) ⊎ (r.0 ≡ t))
unfolding step sound step_leaf step_arti step_loop withdraw is_registered
step_keeps m t (leaf w a b j) s h = ground arith
step_keeps m t (arti s') s h = ground arith
step_keeps m t (loop s') s h = ground arith

-- A cancelled token is as good for every other process.
pub sound_cancelled : (t : Bool) (p : Process) → sound t p ≡ true → sound true p ≡ true
unfolding sound
sound_cancelled t (leaf w a b j) h = ground arith
sound_cancelled t (arti s) h = ground arith
sound_cancelled t (loop s) h = ground arith

pub sound-stopped : (t : Bool) (p : Process) → sound t p ≡ true → (stopped p ≡ false) ⊎ (t ≡ true)
unfolding sound stopped
sound-stopped t (leaf w a b j) h = ground arith
sound-stopped t (arti s) h = ground arith
sound-stopped t (loop s) h = ground arith

-- Before the token is cancelled no watcher has fired.
pub sound-missed : (p : Process) → sound false p ≡ true → missed p ≡ false
unfolding sound missed
sound-missed (leaf w a b j) h = ground arith
sound-missed (arti s) h = refl
sound-missed (loop s) h = refl

-- An instance that is registered, and was not shut down too early, is not shut down too early afterwards.
pub step_registered :
    (m : Move) (t : Bool) (p : Process) {r : Bool × Process}
    → is_starting p ≡ false
    → missed p ≡ false
    → step m t p ≡ some r
    → (is_starting r.1 ≡ false) × (missed r.1 ≡ false)
unfolding step step_leaf step_arti step_loop withdraw is_registered is_starting missed
step_registered m t (leaf w a b j) n k h = ground arith
step_registered m t (arti s) n k h = ground arith
step_registered m t (loop s) n k h = ground arith

-- A process that has not ended, under a cancelled token, has a move that is due, unless it has missed its shutdown.
pub due : Process → Move
due (leaf waiting a b j) = watcher_fires
due (leaf w a starting j) = leaf_registers
due (leaf w a serving j) = leaf_obeys
due (leaf w a returned j) = leaf_cancels
due (leaf w a notified j) = leaf_withdraws
due (leaf w a over j) = leaf_joins
due (arti in_run) = run_stops
due (arti _) = run_cancels
due (loop s) = run_stops

pub due_lem :
    (p : Process)
    → sound true p ≡ true
    → ended p ≡ false
    → missed p ≡ false
    → (is_due (due p) ≡ true) × (r : Bool × Process) × (step (due p) true p ≡ some r)
unfolding due sound ended missed step step_leaf step_arti step_loop
due_lem (leaf waiting a b j) s n k = (refl, _, refl)
due_lem (leaf fired a starting j) s n k = (refl, _, refl)
due_lem (leaf fired true serving j) s n k = (refl, _, refl)
due_lem (leaf fired false serving j) s n k = absurd (cc)
due_lem (leaf fired a returned j) s n k = (refl, _, refl)
due_lem (leaf fired a notified j) s n k = (refl, _, refl)
due_lem (leaf fired a over false) s n k = (refl, _, refl)
due_lem (leaf fired a over true) s n k = absurd (cc)
due_lem (leaf withdrawn a starting j) s n k = absurd (cc)
due_lem (leaf withdrawn a serving j) s n k = absurd (cc)
due_lem (leaf withdrawn a returned j) s n k = absurd (cc)
due_lem (leaf withdrawn a notified j) s n k = absurd (cc)
due_lem (leaf withdrawn a over false) s n k = (refl, _, refl)
due_lem (leaf withdrawn a over true) s n k = absurd (cc)
due_lem (arti in_run) s n k = (refl, _, refl)
due_lem (arti back_from_run) s n k = (refl, _, refl)
due_lem (arti arti_over) s n k = absurd (cc)
due_lem (loop in_loop) s n k = (refl, _, refl)
due_lem (loop loop_over) s n k = absurd (cc)
