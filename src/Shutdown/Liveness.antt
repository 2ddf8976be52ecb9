-- ===== src/Shutdown/Liveness.antt =====
-- The whole engine: how many moves it can make, and that it cannot get stuck once the token is cancelled.
use mathlib.Core.Option.{map}
use fictional_octo_spork.Prelude.{
  ℕ, ◌≡◌, ◌⊎◌, inl, inr, Bool, true, false, ◌||◌, some, List, [], ◌∷◌, All, All-map,
}
use fictional_octo_spork.Shutdown.{
  Process, Move, is_due, System, step_at, after_step, move, follow, running_engine,
}
use fictional_octo_spork.Shutdown.Ends.{ended, sound-stopped, missed, is_starting, stopped}
use fictional_octo_spork.Shutdown.Measure.{move_cases, follow_lem, running_engine-Sound}

-- Nothing is left of the process, or it is an instance of Leaf that missed its shutdown.
abbrev pub IsLeft : Process → Type 0
IsLeft p = (ended p ≡ true) ⊎ (missed p ≡ true)

abbrev HasDue : List Process → Type 0
HasDue ps =
    (m : Move) × (i : ℕ) × (is_due m ≡ true)
    × (r : Bool × List Process) × (step_at m i true ps ≡ some r)

pub move_due :
    (m : Move) (i : ℕ) (s : System)
    → is_due m ≡ true
    → move m i s ≡ map after_step (step_at m i s.token s.processes)
move_due m i s d = elim (move_cases m i s) [ inl c ↦ absurd (cc) | inr e ↦ e ]

-- Moves that the program or its scheduler still makes.
abbrev pub HasMove : System → Type 0
HasMove s = (m : Move) × (i : ℕ) × (is_due m ≡ true) × (s' : System) × (move m i s ≡ some s')

-- An instance that is registered and has not missed its shutdown.
abbrev IsSettled : Process → Type 0
IsSettled p = (is_starting p ≡ false) × (missed p ≡ false)

unfoldable pub any_starting : List Process → Bool
any_starting [] = false
any_starting (p ∷ ps) = is_starting p || any_starting ps

-- After any moves of a running engine, a thread of Leaf that is through with its token, whether or not it has been
-- joined, a run of Arti or a loop that is done has left the token cancelled behind it.
pub exit_is_contagious :
    (ms : List (Move × ℕ)) (s : System)
    → follow ms running_engine ≡ some s
    → All (λ p. (stopped p ≡ false) ⊎ (s.token ≡ true)) s.processes
exit_is_contagious ms s h =
    All-map _ _ s.processes (λ p k. sound-stopped s.token p k)
      (follow_lem ms running_engine running_engine-Sound.0 h).0
