-- ===== src/Core/Cancelled.antt =====
-- rust/core/src/lib.rs: an engine whose token was cancelled is still the engine of the process, until `stop` is called.
use mathlib.Core.List.{append-nil, append_assoc}
use fictional_octo_spork.Prelude.{
  ◌≡◌, ◌⊎◌, inl, inr, refl, sym, ap, ◌∙◌, subst, Bool, true, false, ◌||◌, some, List, [], ◌∷◌, ◌++◌,
  ℤ,
}
use fictional_octo_spork.Failure.{err, already_running}
use fictional_octo_spork.Config.{AppConfig}
use fictional_octo_spork.Util.{arm}
use fictional_octo_spork.World.{Outside, World, PlatformContext, Engine, is_cancelled, cancel}
use fictional_octo_spork.Engine.BringUp.{is_cancelled-cancel}
use fictional_octo_spork.Engine.Teardown.{Quits-cancel}
use fictional_octo_spork.Core.{handle, start, init_logging, leave, handle_stop, status}
use fictional_octo_spork.Core.History.{Event, start_call, stop_call, handle_call, task_end, perform}
use fictional_octo_spork.Core.Ownership.{owned, leave-arm}

is_stop : Event → Bool
is_stop stop_call = true
is_stop _ = false

-- `stop` is called.
unfoldable pub any_stop : List Event → Bool
unfolding is_stop
any_stop [] = false
any_stop (e ∷ es) = is_stop e || any_stop es

-- The descriptors that the starts are given.
unfoldable pub given : List Event → List ℤ
given [] = []
given (start_call cfg ctx ∷ es) = owned ctx.tun_fd ++ given es
given (stop_call ∷ es) = given es
given (handle_call h ∷ es) = given es
given (task_end token ∷ es) = given es

module _ (os : Outside) where
  unfoldable pub performs : List Event → World os → World os
  unfolding perform
  performs [] w = w
  performs (e ∷ es) w = performs es (perform os e w)

  -- The engine is the process's and is cancelled; between `w` and `w'` the descriptors were closed, and nothing was
  -- spawned or aborted.
  pub record Stuck (e : Engine) (w w' : World os) (fds : List ℤ) : Type 0 where
    pub in_slot : w'.slot ≡ some e
    pub cancelled : is_cancelled os w' e.token ≡ true
    pub closed_by : w'.closed ≡ w.closed ++ fds
    pub same_spawned : w'.spawned ≡ w.spawned
    pub same_aborted : w'.aborted ≡ w.aborted

  Stuck-trans :
      {e : Engine} {u v w : World os} {xs ys : List ℤ}
      → Stuck e u v xs
      → Stuck e v w ys
      → Stuck e u w (xs ++ ys)
  Stuck-trans {u = u} {xs = xs} {ys = ys} a b = record {
    in_slot = b.in_slot;
    cancelled = b.cancelled;
    closed_by = b.closed_by ∙ ap (λ l. l ++ ys) a.closed_by ∙ append_assoc u.closed xs ys;
    same_spawned = b.same_spawned ∙ a.same_spawned;
    same_aborted = b.same_aborted ∙ a.same_aborted;
  }

  start_taken :
      (w : World os) (e : Engine) (cfg : AppConfig) (ctx : PlatformContext)
      → w.slot ≡ some e
      → start os cfg ctx w ≡ (err already_running, leave os (arm ctx.tun_fd) (init_logging os w))
  unfolding start init_logging
  start_taken w e cfg ctx p = rw p refl

  cancel-Stuck :
      (w : World os) (e : Engine) (i : _)
      → w.slot ≡ some e
      → (is_cancelled os w e.token ≡ true) ⊎ (i ≡ e.token)
      → Stuck e w (cancel os i w) []
  unfolding cancel
  cancel-Stuck w e i p c = record {
    in_slot = p;
    cancelled = elim c [
      | inl h ↦ (Quits-cancel os w i).keeps_cancelled e.token h
      | inr same ↦
          subst (λ k. is_cancelled os (cancel os k w) e.token ≡ true) (sym same)
            (is_cancelled-cancel os w e.token)
    ];
    closed_by = sym (append-nil w.closed);
    same_spawned = refl;
    same_aborted = refl;
  }

  start-Stuck :
      (w : World os) (e : Engine) (cfg : AppConfig) (ctx : PlatformContext)
      → w.slot ≡ some e
      → is_cancelled os w e.token ≡ true
      → Stuck e w (start os cfg ctx w).1 (owned ctx.tun_fd)
  unfolding leave init_logging
  start-Stuck w e cfg ctx p c =
      subst (λ m. Stuck e w m.1 (owned ctx.tun_fd)) (sym (start_taken w e cfg ctx p)) left
    where
      left : Stuck e w (leave os (arm ctx.tun_fd) (init_logging os w)) (owned ctx.tun_fd)
      left = record {
        in_slot = p;
        cancelled = c;
        closed_by = leave-arm os ctx.tun_fd (init_logging os w);
        same_spawned = refl;
        same_aborted = refl;
      }

  performs-Stuck :
      (es : List Event) (w : World os) (e : Engine)
      → any_stop es ≡ false
      → w.slot ≡ some e
      → is_cancelled os w e.token ≡ true
      → Stuck e w (performs es w) (given es)
  unfolding performs perform any_stop given handle_stop
  performs-Stuck [] w e n p c = record {
    in_slot = p;
    cancelled = c;
    closed_by = sym (append-nil w.closed);
    same_spawned = refl;
    same_aborted = refl;
  }
  performs-Stuck (stop_call ∷ es) w e n p c = absurd (cc)
  performs-Stuck (start_call cfg ctx ∷ es) w e n p c =
      let s = start-Stuck w e cfg ctx p c in
      Stuck-trans s (performs-Stuck es _ e n s.in_slot s.cancelled)
  performs-Stuck (handle_call h ∷ es) w e n p c =
      let s = cancel-Stuck w e h.token p (inl c) in
      Stuck-trans s (performs-Stuck es _ e n s.in_slot s.cancelled)
  performs-Stuck (task_end token ∷ es) w e n p c =
      let s = cancel-Stuck w e token p (inl c) in
      Stuck-trans s (performs-Stuck es _ e n s.in_slot s.cancelled)

  first-Stuck :
      (w : World os) (e : Engine) (first : Event)
      → w.slot ≡ some e
      → (first ≡ handle_call (handle e)) ⊎ (first ≡ task_end e.token)
      → Stuck e w (perform os first w) []
  unfolding perform handle_stop
  first-Stuck w e first p (inl h) = rw h (cancel-Stuck w e e.token p (inr refl))
  first-Stuck w e first p (inr h) = rw h (cancel-Stuck w e e.token p (inr refl))

  status_taken : (w : World os) (e : Engine) → w.slot ≡ some e → status os w ≡ e.status
  unfolding status
  status_taken w e p = rw p refl

  -- Once the token of the engine in the slot was cancelled by `EngineHandle::stop`, or by a task of the engine, as by
  -- the one of an IPC client that sent `Stop`, then whatever calls and ends of tasks follow, as long as `stop` is not
  -- called: the engine stays in the slot, its status is what it was, every start fails with `AlreadyRunning` and closes
  -- its descriptor, and nothing is spawned or aborted.
  pub stays_taken :
      (w : World os) (e : Engine) (first : Event) (es : List Event) (cfg : AppConfig)
      (ctx : PlatformContext)
      → w.slot ≡ some e
      → (first ≡ handle_call (handle e)) ⊎ (first ≡ task_end e.token)
      → any_stop es ≡ false
      → let w' = performs es (perform os first w) in
        Stuck e w w' (given es)
        × (status os w' ≡ e.status)
        × ((start os cfg ctx w').0 ≡ err already_running)
  stays_taken w e first es cfg ctx p f n =
      let s = first-Stuck w e first p f in
      let k = performs-Stuck es (perform os first w) e n s.in_slot s.cancelled in
      (
        Stuck-trans s k,
        status_taken (performs es (perform os first w)) e k.in_slot,
        ap (λ m. m.0) (start_taken (performs es (perform os first w)) e cfg ctx k.in_slot),
      )
