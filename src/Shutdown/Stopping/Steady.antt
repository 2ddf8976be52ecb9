-- ===== src/Shutdown/Stopping/Steady.antt =====
-- rust/core/src/engine.rs: what a turn of `Engine::stop`, or of the engine beside it, keeps.
use mathlib.Core.Option.{map, map-eq-some_iff, bind-eq-some_iff, some-injective}
use mathlib.Core.List.{append_assoc}
use fictional_octo_spork.Prelude.{
  ℕ, suc, ◌+◌, ◌≤◌, ◌<◌, ◌≡◌, ◌⊎◌, inl, inr, refl, sym, ap, ◌∙◌, subst, Bool, true, false, some,
  none, List, [], ◌∷◌, ◌++◌, length, All, All-map, All-append, arith, Bool-cases, if◌then◌else◌,
}
use fictional_octo_spork.Shutdown.{Process, Move, move}
use fictional_octo_spork.Shutdown.Measure.{Sound, measure, move_lem, move_token, cancel_lowers}
use fictional_octo_spork.Shutdown.Stopping.Handles.{move_stays}
use fictional_octo_spork.Shutdown.Stopping.{
  Wait, Stage, not_called, awaiting, finished, Awaited, Stopping, Turn, engine, stop_called,
  stop_goes_on, stop_times_out, transport, others, is_over_at, next, pass, call_stop, go_on,
  time_out, allowed, turn, turns,
}

-- How many turns `stop` has left.
unfoldable pub stage_weight : Stage → ℕ
stage_weight not_called = 6
stage_weight (awaiting w rest) = suc (length rest)
stage_weight finished = 0

abbrev pub left : Stage → List Wait
left not_called = transport ∷ others
left (awaiting w rest) = w ∷ rest
left finished = []

abbrev pub waits : List Awaited → List Wait
waits [] = []
waits (a ∷ rest) = a.wait ∷ waits rest

-- An await ended with its handle, or when its time ran out.
abbrev pub WasAwaited : List Process → Awaited → Type 0
WasAwaited ps a =
    (is_over_at a.wait.place ps ≡ true) ⊎ ((a.timed_out ≡ true) × (a.wait.limited ≡ true))

pub record Steady (s : Stopping) : Type 0 where
  pub sound : Sound s.system
  pub called : (s.stage ≡ not_called) ⊎ (s.system.token ≡ true)
  pub awaited : All (WasAwaited s.system.processes) s.waited
  pub in_order : waits s.waited ++ left s.stage ≡ transport ∷ others

unfoldable pub weight : Stopping → ℕ
weight s = measure s.system + stage_weight s.stage

waits-append : (xs : List Awaited) (a : Awaited) → waits (xs ++ a ∷ []) ≡ waits xs ++ a.wait ∷ []
waits-append [] a = refl
waits-append (x ∷ xs) a = ap (λ l. x.wait ∷ l) (waits-append xs a)

-- What a turn of `stop` or of the engine makes of it.
abbrev Advanced : Stopping → Stopping → Type 0
Advanced s s' = Steady s' × (weight s' < weight s)

left-next : (rest : List Wait) → left (next rest) ≡ rest
unfolding next
left-next [] = refl
left-next (w ∷ ws) = refl

weight-next : (rest : List Wait) → stage_weight (next rest) ≡ length rest
unfolding next stage_weight
weight-next [] = refl
weight-next (w ∷ ws) = refl

pub token_of :
    (s : Stopping) {w : Wait} {rest : List Wait}
    → Steady s
    → s.stage ≡ awaiting w rest
    → s.system.token ≡ true
token_of s k at = elim k.called [ inl n ↦ absurd (cc) | inr t ↦ t ]

pass-Advanced :
    (w : Wait) (rest : List Wait) (timed_out : Bool) (s : Stopping)
    → Steady s
    → s.stage ≡ awaiting w rest
    → WasAwaited s.system.processes (record { wait = w; timed_out = timed_out })
    → Advanced s (pass w rest timed_out s)
unfolding pass weight stage_weight
pass-Advanced w rest timed_out s k at a = (
  record {
    sound = k.sound;
    called = inr (token_of s k at);
    awaited = All-append _ s.waited _ k.awaited (a, tt);
    in_order =
        ap (λ l. l ++ left (next rest)) (waits-append s.waited _)
        ∙ append_assoc (waits s.waited) (w ∷ []) (left (next rest))
        ∙ ap (λ l. waits s.waited ++ w ∷ l) (left-next rest)
        ∙ sym (ap (λ x. waits s.waited ++ left x) at)
        ∙ k.in_order;
  },
  omega (arith, weight-next rest, ap stage_weight at),
)

call_stop-Advanced :
    (st : Stage) (s : Stopping) {s' : Stopping}
    → Steady s
    → s.stage ≡ st
    → call_stop st s ≡ some s'
    → Advanced s s'
unfolding call_stop weight stage_weight
call_stop-Advanced (awaiting w rest) s k at h = absurd (cc)
call_stop-Advanced finished s k at h = absurd (cc)
call_stop-Advanced not_called s k at h =
    let (good, light) = cancel_lowers s.system k.sound in
    subst (Advanced s) (some-injective _ _ h) (
      record {
        sound = good;
        called = inr refl;
        awaited = k.awaited;
        in_order = sym (ap (λ x. waits s.waited ++ left x) at) ∙ k.in_order;
      },
      omega (arith, ap stage_weight at),
    )

go_on-Advanced :
    (st : Stage) (s : Stopping) {s' : Stopping}
    → Steady s
    → s.stage ≡ st
    → go_on st s ≡ some s'
    → Advanced s s'
unfolding go_on
go_on-Advanced not_called s k at h = absurd (cc)
go_on-Advanced finished s k at h = absurd (cc)
go_on-Advanced (awaiting w rest) s k at h =
    elim (Bool-cases (is_over_at w.place s.system.processes)) [
      | inr live ↦ absurd (ground (arith, h, live))
      | inl done ↦
          subst (Advanced s) (ground (arith, h, done))
            (pass-Advanced w rest false s k at (inl done))
    ]

time_out-Advanced :
    (st : Stage) (s : Stopping) {s' : Stopping}
    → Steady s
    → s.stage ≡ st
    → time_out st s ≡ some s'
    → Advanced s s'
unfolding time_out
time_out-Advanced not_called s k at h = absurd (cc)
time_out-Advanced finished s k at h = absurd (cc)
time_out-Advanced (awaiting w rest) s k at h = elim (Bool-cases w.limited) [
  | inr never ↦ absurd (ground (arith, h, never))
  | inl limited ↦
      subst (Advanced s) (ground (arith, h, limited))
        (pass-Advanced w rest true s k at (inr (refl, limited)))
]

engine-Advanced :
    (m : Move) (i : ℕ) (s : Stopping) {s' : Stopping}
    → Steady s
    → turn (engine m i) s ≡ some s'
    → Advanced s s'
unfolding turn weight
engine-Advanced m i s k h = elim (Bool-cases (allowed m s.stage i)) [
  | inr never ↦ absurd (ground (arith, h, never))
  | inl may ↦
      let (sys, moved, same) = (map-eq-some_iff _ (move m i s.system)).0 (
        ap
          (λ b.
            if b then map (λ system. record s { system = system }) (move m i s.system) else none)
          (sym may)
        ∙ h) in
      let (good, less) = move_lem m i s.system k.sound moved in
      subst (Advanced s) same (
        record {
          sound = good;
          called = elim k.called [
            | inl n ↦ inl n
            | inr t ↦ inr (move_token m i s.system k.sound moved t)
          ];
          awaited =
              All-map _ _ s.waited
                (λ a d. elim d [
                  | inl over ↦ inl (move_stays m i a.wait.place s.system moved over)
                  | inr late ↦ inr late
                ])
                k.awaited;
          in_order = k.in_order;
        },
        omega arith,
      )
]

turn-Advanced :
    (t : Turn) (s : Stopping) {s' : Stopping} → Steady s → turn t s ≡ some s' → Advanced s s'
unfolding turn
turn-Advanced (engine m i) s k h = engine-Advanced m i s k h
turn-Advanced stop_called s k h = call_stop-Advanced s.stage s k refl h
turn-Advanced stop_goes_on s k h = go_on-Advanced s.stage s k refl h
turn-Advanced stop_times_out s k h = time_out-Advanced s.stage s k refl h

pub turns_lem :
    (ts : List Turn) (s : Stopping) {s' : Stopping}
    → Steady s
    → turns ts s ≡ some s'
    → Steady s' × (length ts + weight s' ≤ weight s)
unfolding turns
turns_lem [] s k h =
    subst (λ s'. Steady s' × (0 + weight s' ≤ weight s)) (some-injective _ _ h) (k, omega arith)
turns_lem (t ∷ ts) s {s' = s'} k h =
    let (between, made, rest) = (bind-eq-some_iff (turn t s) (λ s'. turns ts s')).0 h in
    let (kept, less) = turn-Advanced t s k made in
    let (good, few) = turns_lem ts between kept rest in (good, omega arith)
