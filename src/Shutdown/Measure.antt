-- ===== src/Shutdown/Measure.antt =====
-- How many moves a whole engine can make, and what holds of it whatever moves are made.
use mathlib.Core.Option.{map, map-eq-some_iff, bind-eq-some_iff, some-injective}
use fictional_octo_spork.Prelude.{
  ℕ, zero, suc, ◌+◌, ◌≤◌, ◌<◌, ◌≡◌, ◌⊎◌, inl, inr, refl, sym, ◌∙◌, subst, Bool, true, false, some,
  List, [], ◌∷◌, length, All, All-map, arith,
}
use fictional_octo_spork.Shutdown.{
  Process, Move, step, System, step_at, after_step, cancel_token, move, follow, running_engine,
  token_cancelled,
}
use fictional_octo_spork.Shutdown.Ends.{weight, sound, step_lowers, step_keeps, sound_cancelled}

total : List Process → ℕ
total [] = 0
total (p ∷ ps) = weight p + total ps

abbrev pub AllSound : Bool → List Process → Type 0
AllSound t ps = All (λ p. sound t p ≡ true) ps

step_at_lowers :
    (m : Move) (i : ℕ) (t : Bool) (ps : List Process) {r : Bool × List Process}
    → step_at m i t ps ≡ some r
    → total r.1 < total ps
unfolding step_at total
step_at_lowers m i t [] h = absurd (cc)
step_at_lowers m zero t (p ∷ ps) h =
    let (q, made, same) = (map-eq-some_iff _ (step m t p)).0 h in
    let less = step_lowers m t p made in
    subst (λ (r : Bool × List Process). total r.1 < total (p ∷ ps)) same (omega arith)
step_at_lowers m (suc i) t (p ∷ ps) h =
    let (q, made, same) = (map-eq-some_iff _ (step_at m i t ps)).0 h in
    let less = step_at_lowers m i t ps made in
    subst (λ (r : Bool × List Process). total r.1 < total (p ∷ ps)) same (omega arith)

pub AllSound-later :
    (t t' : Bool) (ps : List Process) → AllSound t ps → (t' ≡ true) ⊎ (t' ≡ t) → AllSound t' ps
AllSound-later t t' ps h (inl c) =
    subst (λ b. AllSound b ps) (sym c) (All-map _ _ ps (λ p s. sound_cancelled t p s) h)
AllSound-later t t' ps h (inr same) = subst (λ b. AllSound b ps) (sym same) h

-- What a step keeps of a token and its processes.
abbrev Kept : Bool → Bool × List Process → Type 0
Kept t r = AllSound r.0 r.1 × ((r.0 ≡ true) ⊎ (r.0 ≡ t))

step_at-Kept :
    (m : Move) (i : ℕ) (t : Bool) (ps : List Process) {r : Bool × List Process}
    → AllSound t ps
    → step_at m i t ps ≡ some r
    → Kept t r
unfolding step_at
step_at-Kept m i t [] s h = absurd (cc)
step_at-Kept m zero t (p ∷ ps) s h =
    let (q, made, same) = (map-eq-some_iff _ (step m t p)).0 h in
    let (now, later) = step_keeps m t p s.0 made in
    subst (Kept t) same ((now, AllSound-later t q.0 ps s.1 later), later)
step_at-Kept m (suc i) t (p ∷ ps) s h =
    let (q, made, same) = (map-eq-some_iff _ (step_at m i t ps)).0 h in
    let (rest, later) = step_at-Kept m i t ps s.1 made in
    let now = AllSound-later t q.0 (p ∷ []) (s.0, tt) later in
    subst (Kept t) same ((now.0, rest), later)

-- A cancellation from outside, or a move of a process.
pub move_cases :
    (m : Move) (i : ℕ) (s : System)
    → ((m ≡ token_cancelled) × (move m i s ≡ cancel_token s))
      ⊎ (move m i s ≡ map after_step (step_at m i s.token s.processes))
unfolding move
move_cases token_cancelled i s = inl (refl, refl)
move_cases m i s = inr refl

token_weight : Bool → ℕ
token_weight true = 0
token_weight false = 1

pub measure : System → ℕ
measure s = token_weight s.token + total s.processes

abbrev pub Sound : System → Type 0
Sound s = AllSound s.token s.processes

token_weight_later : (t t' : Bool) → (t' ≡ true) ⊎ (t' ≡ t) → token_weight t' ≤ token_weight t
unfolding token_weight
token_weight_later t t' h = ground arith

cancel_token_lem :
    (t : Bool) (ps : List Process) {s' : System}
    → AllSound t ps
    → cancel_token (record { token = t; processes = ps }) ≡ some s'
    → Sound s' × (measure s' < token_weight t + total ps)
unfolding cancel_token measure token_weight
cancel_token_lem true ps k h = absurd (cc)
cancel_token_lem false ps k h =
    subst (λ s'. Sound s' × (measure s' < 1 + total ps)) (some-injective _ _ h)
      (AllSound-later false true ps k (inl refl), omega arith)

pub move_lem :
    (m : Move) (i : ℕ) (s : System) {s' : System}
    → Sound s
    → move m i s ≡ some s'
    → Sound s' × (measure s' < measure s)
unfolding measure
move_lem m i s k h = elim (move_cases m i s) [
  | inl c ↦ cancel_token_lem s.token s.processes k (sym c.1 ∙ h)
  | inr e ↦
      let (r, made, same) = (map-eq-some_iff _ (step_at m i s.token s.processes)).0 (sym e ∙ h) in
      let (kept, later) = step_at-Kept m i s.token s.processes k made in
      let less = step_at_lowers m i s.token s.processes made in
      let light = token_weight_later s.token r.0 later in
      subst (λ s'. Sound s' × (measure s' < measure s)) same (kept, omega arith)
]

-- A token that is cancelled stays so.
pub move_token :
    (m : Move) (i : ℕ) (s : System) {s' : System}
    → Sound s
    → move m i s ≡ some s'
    → s.token ≡ true
    → s'.token ≡ true
unfolding cancel_token
move_token m i s k h t = elim (move_cases m i s) [
  | inl c ↦ ground (arith, c.1, h, t)
  | inr e ↦
      let (r, made, same) = (map-eq-some_iff _ (step_at m i s.token s.processes)).0 (sym e ∙ h) in
      let (kept, later) = step_at-Kept m i s.token s.processes k made in
      subst (λ s'. s'.token ≡ true) same (elim later [ inl c ↦ c | inr same ↦ same ∙ t ])
]

pub cancel_lowers :
    (s : System)
    → Sound s
    → Sound (record s { token = true }) × (measure (record s { token = true }) ≤ measure s)
unfolding measure token_weight
cancel_lowers s k = (AllSound-later s.token true s.processes k (inl refl), omega (arith))

-- What a schedule leaves: an engine that is sound, with a move less for each that was made.
pub follow_lem :
    (ms : List (Move × ℕ)) (s : System) {s' : System}
    → Sound s
    → follow ms s ≡ some s'
    → Sound s' × (length ms + measure s' ≤ measure s)
unfolding follow
follow_lem [] s k h =
    subst (λ s'. Sound s' × (0 + measure s' ≤ measure s)) (some-injective _ _ h) (k, omega arith)
follow_lem (m ∷ ms) s {s' = s'} k h =
    let (between, moved, rest) = (bind-eq-some_iff (move m.0 m.1 s) (λ s'. follow ms s')).0 h in
    let (kept, less) = move_lem m.0 m.1 s k moved in
    let (good, few) = follow_lem ms between kept rest in (good, omega arith)

pub running_engine-Sound : Sound running_engine × (measure running_engine ≡ 17)
unfolding sound measure total weight token_weight
running_engine-Sound = ((refl, (refl, (refl, (refl, (refl, tt))))), refl)
