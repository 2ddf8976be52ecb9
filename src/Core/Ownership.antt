-- ===== src/Core/Ownership.antt =====
-- Who closes the tunnel's descriptor, and what the process-wide slot holds after each call.
use mathlib.Core.List.{append-nil, append_cancel_left}
use fictional_octo_spork.Prelude.{
  ℕ, ◌≡◌, refl, sym, ap, subst, ◌∙◌, true, false, Option, none, some, List, [], ◌∷◌, ◌++◌, ℤ, pos,
  negsuc, is_negative, All, if◌then◌else◌,
}
use fictional_octo_spork.Failure.{Result, ok, err}
use fictional_octo_spork.Config.{AppConfig}
use fictional_octo_spork.Ipc.Messages.{idle_status}
use fictional_octo_spork.Util.{arm, disarm, drop_guard}
use fictional_octo_spork.World.{Outside, World, Task, PlatformContext, Engine, is_cancelled}
use fictional_octo_spork.Engine
use fictional_octo_spork.Engine.BringUp.{All-is_cancelled, is_cancelled-cancel, start_failure}
use fictional_octo_spork.Engine.Started.{start_success, Started}
use fictional_octo_spork.Engine.Handles.{ids_of, ids_of-append, start_holds}
use fictional_octo_spork.Engine.Teardown.{
  Quits, Quits-refl, Quits-stop, Quits-cancel, Quits-trans, pt_task,
}
use fictional_octo_spork.Core.{
  EngineHandle, start, settle, leave, init_logging, stop, status, finish,
}

abbrev pub handles : Option Engine → List ℕ
handles none = []
handles (some e) = pt_task e.pt ++ e.tasks

-- The descriptors that one owner closes: none if the number is negative, and else that one.
abbrev pub owned : ℤ → List ℤ
owned fd = if is_negative fd then [] else fd ∷ []

module _ (os : Outside) where
  pub leave-arm : (fd : ℤ) (w : World os) → (leave os (arm fd) w).closed ≡ w.closed ++ owned fd
  unfolding leave arm drop_guard
  leave-arm (pos n) w = refl
  leave-arm (negsuc n) w = sym (append-nil w.closed)

  -- What the slot holds after a start: the new engine, which is running and not cancelled and which the
  -- handle belongs to, or what it held before.
  abbrev pub Filled : World os → Result EngineHandle → World os → Type 0
  Filled w (ok h) w' =
      (e : Engine) × (w.slot ≡ none)
      × (w'.slot ≡ some e)
      × (e.token ≡ h.token)
      × (is_cancelled os w' h.token ≡ false)
      × ((status os w').running ≡ true)
  Filled w (err e) w' = w'.slot ≡ w.slot

  abbrev pub closes : ℤ → Result EngineHandle → List ℤ
  closes fd (ok h) = []
  closes fd (err e) = owned fd

  -- What a call of `start` closes and keeps.
  pub record Owned (ctx : PlatformContext) (w : World os) (r : Result EngineHandle) (w' : World os)
      : Type 0 where
    pub closed_by : w'.closed ≡ w.closed ++ closes ctx.tun_fd r
    pub filled : Filled w r w'

  settle_lem :
      (cfg : AppConfig) (ctx : PlatformContext) (w : World os) (m : Result Engine × World os)
      → w.slot ≡ none
      → Engine.start os cfg ctx w ≡ m
      → Owned ctx w (settle os (arm ctx.tun_fd) m).0 (settle os (arm ctx.tun_fd) m).1
  unfolding settle leave disarm drop_guard status
  settle_lem cfg ctx w (ok e, w1) none_before p =
      let s = start_success os cfg ctx w p in
      record {
        closed_by = s.same_closed ∙ sym (append-nil w.closed);
        filled = (e, none_before, refl, refl, s.not_cancelled, s.running);
      }
  settle_lem cfg ctx w (err y, w1) none_before p =
      let f = start_failure os cfg ctx w p in
      record {
        closed_by = leave-arm ctx.tun_fd w1 ∙ ap (λ l. l ++ owned ctx.tun_fd) f.same_closed;
        filled = f.same_slot;
      }

  pub start-empty :
      (cfg : AppConfig) (ctx : PlatformContext) (w : World os)
      → w.slot ≡ none
      → start os cfg ctx w
        ≡ settle os (arm ctx.tun_fd) (Engine.start os cfg ctx (init_logging os w))
  unfolding start init_logging
  start-empty cfg ctx w p = rw p refl

  owned-Filled :
      (w w' : World os) (r : Result EngineHandle) → Filled (init_logging os w) r w' → Filled w r w'
  unfolding init_logging
  owned-Filled w w' (ok h) f = f
  owned-Filled w w' (err e) f = f

  -- However `start` ends, whatever engine was running, and as long as no task that it spawned has run: a failure closes the tunnel's descriptor once
  -- if it is not negative and leaves the slot as it was, and a success closes no descriptor and is possible
  -- only with an empty slot, which then holds a running engine whose token is the handle's.
  pub start_lem :
      (cfg : AppConfig) (ctx : PlatformContext) (w : World os)
      → Owned ctx w (start os cfg ctx w).0 (start os cfg ctx w).1
  unfolding start init_logging
  start_lem cfg ctx w = go w.slot refl
    where
      go :
          (s : Option Engine)
          → w.slot ≡ s
          → Owned ctx w (start os cfg ctx w).0 (start os cfg ctx w).1
      go (some e) p =
          rw p (record { closed_by = leave-arm ctx.tun_fd (init_logging os w); filled = refl })
      go none p =
          let w1 = init_logging os w in
          let o = settle_lem cfg ctx w1 (Engine.start os cfg ctx w1) p refl in
          subst (λ m. Owned ctx w m.0 m.1) (sym (start-empty cfg ctx w p))
            (record { closed_by = o.closed_by; filled = owned-Filled w _ _ o.filled })

  -- What a start, followed by a stop, leaves behind.
  pub record Ended (w w' : World os) : Type 0 where
    pub new : List Task
    pub spawned_new : w'.spawned ≡ w.spawned ++ new
    pub all_cancelled : All (λ t. is_cancelled os w' t.token ≡ true) new
    pub all_aborted : w'.aborted ≡ w.aborted ++ ids_of new
    pub no_engine : w'.slot ≡ none
    pub idle : status os w' ≡ idle_status
    pub same_closed : w'.closed ≡ w.closed

  pub finish_lem : (o : Option Engine) (w : World os) → Quits os (handles o) w (finish os o w)
  unfolding finish Engine.drop_engine
  finish_lem none w = Quits-refl os w
  finish_lem (some e) w =
      subst (λ ids. Quits os ids w (finish os (some e) w)) (append-nil (pt_task e.pt ++ e.tasks))
        (Quits-trans os (Quits-stop os e w) (Quits-cancel os (Engine.stop os e w).1 e.token))

  Ended-stop :
      (ctx : PlatformContext) (w w1 : World os) (e : Engine)
      → Started os ctx w e w1
      → ids_of w1.spawned ≡ ids_of w.spawned ++ (pt_task e.pt ++ e.tasks)
      → Ended w (stop os (record w1 { slot = some e })).1
  unfolding stop status finish Engine.drop_engine
  Ended-stop ctx w w1 e s holds =
      let w2 = record w1 { slot = none } in
      let q = finish_lem (some e) w2 in
      let held : ids_of s.new ≡ pt_task e.pt ++ e.tasks =
        append_cancel_left (ids_of w.spawned) _ _
          (sym (ids_of-append w.spawned s.new) ∙ ap ids_of (sym s.spawned_new) ∙ holds) in
      record {
        new = s.new;
        spawned_new = q.same_spawned ∙ s.spawned_new;
        all_cancelled =
            All-is_cancelled os (finish os (some e) w2) e.token s.new
              (is_cancelled-cancel os (Engine.stop os e w2).1 e.token) s.on_token;
        all_aborted =
            q.aborts
            ∙ ap (λ l. l ++ (pt_task e.pt ++ e.tasks)) s.same_aborted
            ∙ ap (λ l. w.aborted ++ l) (sym held);
        no_engine = q.same_slot;
        idle = rw q.same_slot refl;
        same_closed = q.same_closed ∙ s.same_closed;
      }

  stop_settled :
      (cfg : AppConfig) (ctx : PlatformContext) (w : World os) (m : Result Engine × World os)
      {h : EngineHandle} {w' : World os}
      → Engine.start os cfg ctx w ≡ m
      → settle os (arm ctx.tun_fd) m ≡ (ok h, w')
      → Ended w (stop os w').1
  unfolding settle leave disarm drop_guard
  stop_settled cfg ctx w (ok e, w1) p q =
      subst (λ v. Ended w (stop os v).1) (ap (λ r. r.1) q)
        (Ended-stop ctx w w1 e (start_success os cfg ctx w p) (start_holds os cfg ctx w p))
  stop_settled cfg ctx w (err y, w1) p q = absurd (cc)

  -- If a start succeeds and the engine is then stopped, every task that the start spawned watches a token
  -- that is cancelled; these tasks and no others were aborted, in the order in which they were spawned; the
  -- slot is empty, the status is the default one, and no descriptor is closed.
  pub start-stop :
      (cfg : AppConfig) (ctx : PlatformContext) (w : World os) {h : EngineHandle} {w' : World os}
      → start os cfg ctx w ≡ (ok h, w')
      → Ended w (stop os w').1
  unfolding start init_logging
  start-stop cfg ctx w {h} {w'} p = go w.slot refl
    where
      go : (s : Option Engine) → w.slot ≡ s → Ended w (stop os w').1
      go none q =
          let w1 = init_logging os w in
          let e =
            stop_settled cfg ctx w1 (Engine.start os cfg ctx w1) refl
              (sym (start-empty cfg ctx w q) ∙ p) in
          record {
            new = e.new;
            spawned_new = e.spawned_new;
            all_cancelled = e.all_cancelled;
            all_aborted = e.all_aborted;
            no_engine = e.no_engine;
            idle = e.idle;
            same_closed = e.same_closed;
          }
      go (some e) q = absurd (let p = rw q at p in cc)
