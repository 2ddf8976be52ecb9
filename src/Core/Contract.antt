-- ===== src/Core/Contract.antt =====
-- The contract of the library towards a platform: one engine or none, and the descriptors that are closed.
use mathlib.Core.List.{append-nil}
use fictional_octo_spork.Prelude.{
  ℕ, ◌≡◌, refl, sym, ap, ◌∙◌, Bool, true, false, not, ◌&&◌, Option, none, some, List, [], ◌∷◌, ◌++◌,
  ℤ, if◌then◌else◌,
}
use fictional_octo_spork.Failure.{Result, ok, err}
use fictional_octo_spork.Config.{AppConfig}
use fictional_octo_spork.Ipc.Messages.{Status}
use fictional_octo_spork.World.{Engine, Outside, World, PlatformContext, cancel}
use fictional_octo_spork.Core.{EngineHandle, start, stop, handle_stop, status, finish}
use fictional_octo_spork.Core.Ownership.{owned, closes, Filled, start_lem, finish_lem}
use fictional_octo_spork.Core.Threads.{Turn, call, stop_takes, stop_goes_on, Process, turn, turns}
use fictional_octo_spork.Core.History.{Event, start_call, stop_call, handle_call, task_end, perform}

-- What a platform sees.
pub record Contract : Type 0 where
  pub active : Bool
  pub closed : List ℤ

-- A call, and whether it returned `Ok`. A start that did not closes the descriptor it was given.
promised : Event → Bool → Contract → Contract
promised (start_call cfg ctx) granted a =
    if granted
    then record a { active = true }
    else record a { closed = a.closed ++ owned ctx.tun_fd }
promised stop_call granted a = record a { active = false }
promised (handle_call h) granted a = a
promised (task_end token) granted a = a

-- Where another call may come in between the two parts of a `stop`, the engine is gone with the first.
promised_turn : Turn → Bool → Contract → Contract
unfolding promised
promised_turn (call e) granted a = promised e granted a
promised_turn stop_takes granted a = record a { active = false }
promised_turn (stop_goes_on thread) granted a = a

-- A sequence of calls, each with its answer.
pub promised_run : List (Turn × Bool) → Contract → Contract
unfolding promised_turn
promised_run [] a = a
promised_run ((t, granted) ∷ ts) a = promised_run ts (promised_turn t granted a)

-- A start may not succeed while there is an engine, and nothing but a start fails.
permits : Contract → Turn → Bool → Bool
permits a (call (start_call cfg ctx)) granted = not (granted && a.active)
permits a _ granted = granted

-- Whether the contract permits each answer in its turn.
pub permits_run : List (Turn × Bool) → Contract → Bool
unfolding permits promised_turn
permits_run [] a = true
permits_run ((t, granted) ∷ ts) a =
    permits a t granted && permits_run ts (promised_turn t granted a)

abbrev pub is_some : {A : Type 0} → Option A → Bool
is_some none = false
is_some (some a) = true

abbrev is_ok : {A : Type 0} → Result A → Bool
is_ok (ok a) = true
is_ok (err e) = false

module _ (os : Outside) where
  -- The slot is filled, and the status says so, exactly while the contract has an engine, and the same descriptors are closed.
  pub record Refines (w : World os) (a : Contract) : Type 0 where
    pub filled : is_some w.slot ≡ a.active
    pub reports : (status os w).running ≡ a.active
    pub closes_same : w.closed ≡ a.closed

  same_status : (w w' : World os) → w'.slot ≡ w.slot → status os w' ≡ status os w
  unfolding status
  same_status w w' h = rw h refl

  -- What the process answers to a call. Only a start and a stop return a result.
  answer : Turn → World os → Bool
  unfolding start stop
  answer (call (start_call cfg ctx)) w = is_ok (start os cfg ctx w).0
  answer (call stop_call) w = is_ok (stop os w).0
  answer _ w = true

  -- The calls, each with what the process answers to it when its turn comes.
  pub answered : List Turn → Process os → List (Turn × Bool)
  unfolding answer
  answered [] p = []
  answered (t ∷ ts) p = (t, answer t p.world) ∷ answered ts (turn os t p)

  start-Refines :
      (cfg : AppConfig) (ctx : PlatformContext) (w : World os) (a : Contract)
      → Refines w a
      → let granted = is_ok (start os cfg ctx w).0 in
        (permits a (call (start_call cfg ctx)) granted ≡ true)
        × Refines (start os cfg ctx w).1 (promised (start_call cfg ctx) granted a)
  unfolding promised permits
  start-Refines cfg ctx w a h =
      go (start os cfg ctx w).0 (start_lem os cfg ctx w).closed_by (start_lem os cfg ctx w).filled
    where
      w' : World os
      w' = (start os cfg ctx w).1

      go :
          (r : Result EngineHandle)
          → w'.closed ≡ w.closed ++ closes os ctx.tun_fd r
          → Filled os w r w'
          → (permits a (call (start_call cfg ctx)) (is_ok r) ≡ true)
            × Refines w' (promised (start_call cfg ctx) (is_ok r) a)
      go (ok handle) c (e, empty, full, _, _, running) =
          let idle : a.active ≡ false = sym h.filled ∙ ap is_some empty in
          (
            ap not idle,
            record {
              filled = ap is_some full;
              reports = running;
              closes_same = c ∙ append-nil w.closed ∙ h.closes_same;
            },
          )
      go (err y) c same = (
        refl,
        record {
          filled = ap is_some same ∙ h.filled;
          reports = ap (λ (s : Status). s.running) (same_status w w' same) ∙ h.reports;
          closes_same = c ∙ ap (λ l. l ++ owned ctx.tun_fd) h.closes_same;
        },
      )

  finish-Refines :
      (o : Option Engine) (w : World os) (a : Contract) → Refines w a → Refines (finish os o w) a
  finish-Refines o w a h =
      let q = finish_lem os o w in
      record {
        filled = ap is_some q.same_slot ∙ h.filled;
        reports =
            ap (λ (s : Status). s.running) (same_status w (finish os o w) q.same_slot) ∙ h.reports;
        closes_same = q.same_closed ∙ h.closes_same;
      }

  cancelled-Refines :
      (w : World os) (a : Contract) (token : ℕ) → Refines w a → Refines (cancel os token w) a
  unfolding cancel status
  cancelled-Refines w a token h = record {
    filled = h.filled;
    reports = h.reports;
    closes_same = h.closes_same;
  }

  taken-Refines :
      (w : World os) (a : Contract)
      → Refines w a
      → Refines (record w { slot = none }) (record a { active = false })
  unfolding status
  taken-Refines w a h = record { filled = refl; reports = refl; closes_same = h.closes_same }

  turn-Refines :
      (t : Turn) (p : Process os) (a : Contract)
      → Refines p.world a
      → (permits a t (answer t p.world) ≡ true)
        × Refines (turn os t p).world (promised_turn t (answer t p.world) a)
  unfolding turn perform promised promised_turn permits stop handle_stop cancel answer
  turn-Refines (call (start_call cfg ctx)) p a h = start-Refines cfg ctx p.world a h
  turn-Refines (call stop_call) p a h =
      (refl, finish-Refines p.world.slot _ _ (taken-Refines p.world a h))
  turn-Refines (call (handle_call handle)) p a h =
      (refl, cancelled-Refines p.world a handle.token h)
  turn-Refines (call (task_end token)) p a h = (refl, cancelled-Refines p.world a token h)
  turn-Refines stop_takes p a h = (refl, taken-Refines p.world a h)
  turn-Refines (stop_goes_on thread) p a h = (refl, finish-Refines _ p.world a h)

  -- From a process and a state of the contract that are related, any sequence of calls and ends of tasks, also with
  -- other calls between the two parts of a `stop`, is answered as the contract permits, and leads to related ones:
  -- there is one engine, which the status reports as running, or none; a start succeeds only while there is none; it
  -- closes its descriptor exactly if it fails, and then leaves the engine as it was; and no other call fails or
  -- closes one.
  pub run-Refines :
      (ts : List Turn) (p : Process os) (a : Contract)
      → Refines p.world a
      → (permits_run (answered ts p) a ≡ true)
        × Refines (turns os ts p).world (promised_run (answered ts p) a)
  unfolding turns promised_run permits_run answered
  run-Refines [] p a h = (refl, h)
  run-Refines (t ∷ ts) p a h =
      let (fine, h') = turn-Refines t p a h in
      let (rest, last) = run-Refines ts (turn os t p) (promised_turn t (answer t p.world) a) h' in
      (rw (fine, rest) refl, last)
