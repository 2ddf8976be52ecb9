-- ===== src/Shutdown/Stopping/Handles.antt =====
-- The handles that `Engine::stop` awaits: once done they stay so, and an abort makes them so.
use mathlib.Core.Option.{map-eq-some_iff}
use fictional_octo_spork.Prelude.{
  ℕ, zero, suc, ◌≡◌, inl, inr, refl, sym, ◌∙◌, subst, Bool, true, false, some, List, [], ◌∷◌, arith,
  Bool-cases,
}
use fictional_octo_spork.Shutdown.{
  Process, leaf, arti, loop, in_run, back_from_run, arti_over, in_loop, loop_over, Move,
  handle_aborted, step, step_leaf, step_arti, step_loop, System, step_at, cancel_token, move,
}
use fictional_octo_spork.Shutdown.Measure.{move_cases}
use fictional_octo_spork.Shutdown.Stopping.{is_over, is_over_at}

-- A handle that is done stays so.
step_stays :
    (m : Move) (t : Bool) (p : Process) {r : Bool × Process}
    → step m t p ≡ some r
    → is_over p ≡ true
    → is_over r.1 ≡ true
unfolding step step_leaf step_arti step_loop is_over
step_stays m t (leaf w a b j) h o = ground arith
step_stays m t (arti s) h o = ground arith
step_stays m t (loop s) h o = ground arith

step_at_stays :
    (m : Move) (i k : ℕ) (t : Bool) (ps : List Process) {r : Bool × List Process}
    → step_at m i t ps ≡ some r
    → is_over_at k ps ≡ true
    → is_over_at k r.1 ≡ true
unfolding step_at is_over_at
step_at_stays m i k t [] h o = absurd (cc)
step_at_stays m zero zero t (p ∷ ps) h o =
    let (q, made, same) = (map-eq-some_iff _ (step m t p)).0 h in
    subst (λ (r : Bool × List Process). is_over_at 0 r.1 ≡ true) same (step_stays m t p made o)
step_at_stays m zero (suc k) t (p ∷ ps) h o =
    let (q, made, same) = (map-eq-some_iff _ (step m t p)).0 h in
    subst (λ (r : Bool × List Process). is_over_at (suc k) r.1 ≡ true) same o
step_at_stays m (suc i) zero t (p ∷ ps) h o =
    let (q, made, same) = (map-eq-some_iff _ (step_at m i t ps)).0 h in
    subst (λ (r : Bool × List Process). is_over_at 0 r.1 ≡ true) same o
step_at_stays m (suc i) (suc k) t (p ∷ ps) h o =
    let (q, made, same) = (map-eq-some_iff _ (step_at m i t ps)).0 h in
    subst (λ (r : Bool × List Process). is_over_at (suc k) r.1 ≡ true) same
      (step_at_stays m i k t ps made o)

cancel_stays :
    (k : ℕ) (s : System) {s' : System}
    → cancel_token s ≡ some s'
    → is_over_at k s.processes ≡ true
    → is_over_at k s'.processes ≡ true
unfolding cancel_token
cancel_stays k s h o = elim (Bool-cases s.token) [
  | inl t ↦ absurd (ground (arith, h, t))
  | inr t ↦ ground (arith, h, t, o)
]

pub move_stays :
    (m : Move) (i k : ℕ) (s : System) {s' : System}
    → move m i s ≡ some s'
    → is_over_at k s.processes ≡ true
    → is_over_at k s'.processes ≡ true
move_stays m i k s h o = elim (move_cases m i s) [
  | inl c ↦ cancel_stays k s (sym c.1 ∙ h) o
  | inr e ↦
      let (r, made, same) = (map-eq-some_iff _ (step_at m i s.token s.processes)).0 (sym e ∙ h) in
      subst (λ (s' : System). is_over_at k s'.processes ≡ true) same
        (step_at_stays m i k s.token s.processes made o)
]

-- An abort that was asked for can take effect.
pub abort_lem :
    (i : ℕ) (ps : List Process)
    → is_over_at i ps ≡ false
    → (r : Bool × List Process) × (step_at handle_aborted i true ps ≡ some r)
unfolding step_at is_over_at step step_leaf step_arti step_loop is_over
abort_lem i [] h = absurd (cc)
abort_lem zero (leaf w a b false ∷ ps) h = (_, refl)
abort_lem zero (leaf w a b true ∷ ps) h = absurd (cc)
abort_lem zero (arti in_run ∷ ps) h = (_, refl)
abort_lem zero (arti back_from_run ∷ ps) h = (_, refl)
abort_lem zero (arti arti_over ∷ ps) h = absurd (cc)
abort_lem zero (loop in_loop ∷ ps) h = (_, refl)
abort_lem zero (loop loop_over ∷ ps) h = absurd (cc)
abort_lem (suc i) (p ∷ ps) h =
    let (r, made) = abort_lem i ps h in (_, (map-eq-some_iff _ _).1 (r, made, refl))
