-- ===== src/Core/Threads.antt =====
-- Calls from several threads: `stop` takes the engine out of the slot, lets go of the lock, and then stops the engine,
-- so that other calls may come in between.
use fictional_octo_spork.Prelude.{
  pull, hold, ℕ, zero, suc, ◌<◌, ◌≡◌, ◌⊎◌, inl, inr, refl, sym, subst, Option, none, some, List, [],
  ◌∷◌, All,
}
use fictional_octo_spork.World.{Outside, World, Engine}
use fictional_octo_spork.Core.{stop, finish, handle_stop}
use fictional_octo_spork.Core.History.{Event, start_call, stop_call, handle_call, task_end, perform}
use fictional_octo_spork.Core.Orderly.{
  InSlot, Accounted, IsOrderly, taken-IsOrderly, finish-IsOrderly, cancel-IsOrderly,
  start-IsOrderly,
}

-- A call, or a part of `stop`: a thread takes the engine, or one of those that have taken one goes on.
pub data Turn : Type 0 where
  call : Event → Turn
  stop_takes : Turn
  stop_goes_on : (thread : ℕ) → Turn

-- The token is that of an engine of the list.
pub HeldBy : List Engine → ℕ → Type 0
HeldBy [] i = ⊥
HeldBy (e ∷ es) i = (i ≡ e.token) ⊎ HeldBy es i

module _ (os : Outside) where
  -- The process, and the engines that a `stop` has taken and not stopped yet.
  pub record Process : Type 0 where
    pub world : World os
    pub stopping : List Engine

  unfoldable pub turn : Turn → Process → Process
  unfolding perform finish
  turn (call e) p = record p { world = perform os e p.world }
  turn stop_takes p = record {
    world = record p.world { slot = none };
    stopping = hold p.world.slot p.stopping;
  }
  turn (stop_goes_on thread) p =
      let (o, rest) = pull thread p.stopping in
      record { world = finish os o p.world; stopping = rest }

  unfoldable pub turns : List Turn → Process → Process
  unfolding turn
  turns [] p = p
  turns (t ∷ ts) p = turns ts (turn t p)

  pull-HeldBy :
      (k : ℕ) (es : List Engine) (i : ℕ)
      → HeldBy es i
      → InSlot os (pull k es).0 i ⊎ HeldBy (pull k es).1 i
  unfolding HeldBy
  pull-HeldBy k [] i h = absurd h
  pull-HeldBy zero (e ∷ es) i h = h
  pull-HeldBy (suc k) (e ∷ es) i (inl own) = inr (inl own)
  pull-HeldBy (suc k) (e ∷ es) i (inr h) = elim (pull-HeldBy k es i h) [
    | inl out ↦ inl out
    | inr stays ↦ inr (inr stays)
  ]

  hold-HeldBy :
      (o : Option Engine) (es : List Engine) (i : ℕ)
      → InSlot os o i ⊎ HeldBy es i
      → HeldBy (hold o es) i
  unfolding HeldBy
  hold-HeldBy none es i h = elim h [ inl own ↦ absurd own | inr held ↦ held ]
  hold-HeldBy (some e) es i h = h

  -- The tasks of a process are in order, those of its engines that are being stopped included.
  abbrev Orderly : Process → Type 0
  Orderly p = IsOrderly os (HeldBy p.stopping) p.world

  perform-IsOrderly :
      (Held : ℕ → Type 0) (e : Event) (w : World os)
      → IsOrderly os Held w
      → IsOrderly os Held (perform os e w)
  unfolding perform stop handle_stop
  perform-IsOrderly Held (start_call cfg ctx) w h = start-IsOrderly os Held cfg ctx w h
  perform-IsOrderly Held stop_call w h =
      finish-IsOrderly os (λ i. InSlot os w.slot i ⊎ Held i) Held w.slot (record w { slot = none })
        (λ i own. own) (taken-IsOrderly os Held w h)
  perform-IsOrderly Held (handle_call handle) w h = cancel-IsOrderly os Held w handle.token h
  perform-IsOrderly Held (task_end token) w h = cancel-IsOrderly os Held w token h

  turn-Orderly : (t : Turn) (p : Process) → Orderly p → Orderly (turn t p)
  unfolding turn
  turn-Orderly (call e) p h = perform-IsOrderly (HeldBy p.stopping) e p.world h
  turn-Orderly stop_takes p h =
      finish-IsOrderly os _ _ none (record p.world { slot = none })
        (λ i own. inr (hold-HeldBy p.world.slot p.stopping i own))
        (taken-IsOrderly os (HeldBy p.stopping) p.world h)
  turn-Orderly (stop_goes_on thread) p h =
      finish-IsOrderly os (HeldBy p.stopping) (HeldBy (pull thread p.stopping).1)
        (pull thread p.stopping).0 p.world (pull-HeldBy thread p.stopping) h

  turns-Orderly : (ts : List Turn) (p : Process) → Orderly p → Orderly (turns ts p)
  unfolding turns
  turns-Orderly [] p h = h
  turns-Orderly (t ∷ ts) p h = turns-Orderly ts (turn t p) (turn-Orderly t p h)

  -- From a process that has spawned no task, after any sequence of starts, stops and ends of tasks, with whatever
  -- results, where other calls may come in between the two parts of a `stop`: every task that was ever spawned
  -- watches a token that is cancelled, or that of the engine in the slot, or that of an engine that a `stop` has
  -- taken and will stop.
  pub no_orphans :
      (ts : List Turn) (w : World os)
      → w.spawned ≡ []
      → let p = turns ts (record { world = w; stopping = [] }) in
        All (Accounted os (HeldBy p.stopping) p.world) p.world.spawned
  no_orphans ts w h = (turns-Orderly ts (record { world = w; stopping = [] }) fresh).accounted
    where
      fresh : IsOrderly os (HeldBy []) w
      fresh = record {
        old = subst (All (λ t. t.token < w.channels.next)) (sym h) tt;
        accounted = subst (All (Accounted os (HeldBy []) w)) (sym h) tt;
      }

  -- A `stop` that nothing interrupts, where there is an engine, is the two parts one after the other.
  stop-turns :
      (p : Process) (e : Engine)
      → p.world.slot ≡ some e
      → turns (stop_takes ∷ stop_goes_on 0 ∷ []) p ≡ turn (call stop_call) p
  unfolding turns turn perform stop
  stop-turns p e h = rw h refl
