-- ===== src/Shutdown/Stopping/Stops.antt =====
-- rust/core/src/engine.rs: `Engine::stop` returns, and what it has waited for.
use mathlib.Core.Option.{map, map-eq-some_iff}
use mathlib.Core.List.{append-nil}
use fictional_octo_spork.Prelude.{
  ℕ, ◌≤◌, ◌≡◌, ◌≢◌, ◌&&◌, ◌⊎◌, inl, inr, refl, sym, ap, ◌∙◌, Bool, true, false, some, none, List,
  [], ◌∷◌, ◌++◌, length, All, arith, Bool-cases, not, if◌then◌else◌,
}
use fictional_octo_spork.Shutdown.{handle_aborted, System, step_at, after_step, move}
use fictional_octo_spork.Shutdown.Measure.{running_engine-Sound}
use fictional_octo_spork.Shutdown.Stopping.Handles.{abort_lem}
use fictional_octo_spork.Shutdown.Stopping.{
  Wait, Stage, not_called, awaiting, finished, Stopping, Turn, engine, stop_goes_on, transport,
  others, is_over_at, is_among, is_aborted, pass, go_on, allowed, turn, turns, is_ready,
  before_stop,
}
use fictional_octo_spork.Shutdown.Stopping.Steady.{
  WasAwaited, Steady, left, waits, weight, stage_weight, token_of, turns_lem,
}

before_stop-Steady : Steady before_stop × (weight before_stop ≡ 23)
unfolding weight stage_weight
before_stop-Steady =
    let (good, light) = running_engine-Sound in
    (
      record { sound = good; called = inl refl; awaited = tt; in_order = refl },
      omega (arith, light),
    )

-- The program or its scheduler can make a turn.
abbrev pub HasTurn : Stopping → Type 0
HasTurn s = (t : Turn) × (is_ready t ≡ true) × (s' : Stopping) × (turn t s ≡ some s')

-- The places are different, so that what is awaited is not also still to come.
distinct : List Wait → Bool
distinct [] = true
distinct (w ∷ ws) = not (is_among w.place ws) && distinct ws

distinct-suffix : (xs ys : List Wait) → distinct (xs ++ ys) ≡ true → distinct ys ≡ true
unfolding distinct
distinct-suffix [] ys h = h
distinct-suffix (x ∷ xs) ys h = distinct-suffix xs ys (ground arith)

aborted_lem :
    (w : Wait) (rest : List Wait) (s : Stopping)
    → Steady s
    → s.stage ≡ awaiting w rest
    → is_aborted s.stage w.place ≡ true
unfolding is_aborted distinct is_among
aborted_lem w rest s k at =
    let order : waits s.waited ++ w ∷ rest ≡ transport ∷ others =
      sym (ap (λ x. waits s.waited ++ left x) at) ∙ k.in_order in
    let unlike : distinct (w ∷ rest) ≡ true =
      distinct-suffix (waits s.waited) (w ∷ rest) (ap distinct order) in
    ap (λ x. is_aborted x w.place) at ∙ ground (arith, unlike)

move_abort :
    (i : ℕ) (s : System)
    → s.token ≡ true
    → is_over_at i s.processes ≡ false
    → (s' : System) × (move handle_aborted i s ≡ some s')
unfolding move
move_abort i s t live =
    let (r, made) = abort_lem i s.processes live in
    (
      after_step r,
      (map-eq-some_iff _ _).1 (r, ap (λ b. step_at handle_aborted i b s.processes) t ∙ made, refl),
    )

ready-HasTurn :
    (w : Wait) (rest : List Wait) (s : Stopping) → Steady s → s.stage ≡ awaiting w rest → HasTurn s
unfolding turn go_on allowed
ready-HasTurn w rest s k at = elim (Bool-cases (is_over_at w.place s.system.processes)) [
  | inl done ↦ (
    stop_goes_on,
    refl,
    pass w rest false s,
    ap (λ x. go_on x s) at ∙ ap (λ b. if b then some (pass w rest false s) else none) done,
  )
  | inr live ↦
      let (sys, moved) = move_abort w.place s.system (token_of s k at) live in
      (
        engine handle_aborted w.place,
        refl,
        record s { system = sys },
        ap
              (λ b.
                if b
                then map (λ system. record s { system = system })
                    (move handle_aborted w.place s.system)
                else none)
              (aborted_lem w rest s k at)
            ∙ ap (map (λ system. record s { system = system })) moved,
      )
]

-- How `stop` stands once it was called.
called-Ready :
    (st : Stage) (s : Stopping)
    → Steady s
    → s.stage ≡ st
    → s.stage ≢ not_called
    → ((s.stage ≡ finished)
        × (waits s.waited ≡ transport ∷ others)
        × All (WasAwaited s.system.processes) s.waited)
      ⊎ HasTurn s
called-Ready not_called s k at c = absurd (c at)
called-Ready (awaiting w rest) s k at c = inr (ready-HasTurn w rest s k at)
called-Ready finished s k at c = inl (
  at,
  sym (append-nil (waits s.waited)) ∙ sym (ap (λ x. waits s.waited ++ left x) at) ∙ k.in_order,
  k.awaited,
)

-- Called on a running engine, `stop` returns without the help of a clock: whatever turns were made, by the engine or by
-- `stop`, they were at most 23 in all, the token is
-- cancelled, and either `stop` has returned, having awaited the handle of the transport and
-- then the four others in their order, each of which is done or ran out of time, that of the transport being done; or
-- the program can make a further turn on its own.
pub stop_returns :
    (ts : List Turn) (s : Stopping)
    → turns ts before_stop ≡ some s
    → s.stage ≢ not_called
    → (length ts ≤ 23)
      × (s.system.token ≡ true)
      × (((s.stage ≡ finished)
            × (waits s.waited ≡ transport ∷ others)
            × All (WasAwaited s.system.processes) s.waited)
          ⊎ HasTurn s)
stop_returns ts s h called =
    let (steady, most) = before_stop-Steady in
    let (good, few) = turns_lem ts before_stop steady h in
    (
      omega arith,
      elim good.called [ inl n ↦ absurd (called n) | inr t ↦ t ],
      called-Ready s.stage s good refl called,
    )
