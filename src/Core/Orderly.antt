-- ===== src/Core/Orderly.antt =====
-- Every task belongs to an engine or is about to end: what each call of the library keeps of that.
use fictional_octo_spork.Prelude.{
  ℕ, ◌+◌, ◌<◌, ◌≡◌, ◌⊎◌, inl, inr, refl, sym, ap, ◌∙◌, subst, true, Option, none, some, List, ◌++◌,
  All, All-append, All-map, All-and, arith,
}
use fictional_octo_spork.Failure.{Result, ok, err, already_running}
use fictional_octo_spork.Config.{AppConfig}
use fictional_octo_spork.Runtime
use fictional_octo_spork.Util.{FdGuard, arm}
use fictional_octo_spork.Core.Ownership.{start-empty, finish_lem}
use fictional_octo_spork.World.{Outside, World, Task, PlatformContext, Engine, is_cancelled, cancel}
use fictional_octo_spork.Engine
use fictional_octo_spork.Engine.BringUp.{start_failure, is_cancelled-cancel}
use fictional_octo_spork.Engine.Started.{start_success}
use fictional_octo_spork.Engine.Teardown.{Quits-cancel}
use fictional_octo_spork.Engine.Tokens.{Takes, start-Takes}
use fictional_octo_spork.Core.{start, settle, leave, init_logging, finish}

module _ (os : Outside) where
  -- The token is that of the engine in the slot.
  abbrev pub InSlot : Option Engine → ℕ → Type 0
  InSlot none i = ⊥
  InSlot (some e) i = i ≡ e.token

  -- The task watches a cancelled token, or belongs to the engine in the slot or to one that is held elsewhere.
  abbrev pub Accounted : (ℕ → Type 0) → World os → Task → Type 0
  Accounted Held w t = (is_cancelled os w t.token ≡ true) ⊎ (InSlot w.slot t.token ⊎ Held t.token)

  pub record IsOrderly (Held : ℕ → Type 0) (w : World os) : Type 0 where
    pub old : All (λ t. t.token < w.channels.next) w.spawned
    pub accounted : All (Accounted Held w) w.spawned

  -- The engine that `slot.take()` gives is held by the caller.
  pub taken-IsOrderly :
      (Held : ℕ → Type 0) (w : World os)
      → IsOrderly Held w
      → IsOrderly (λ i. InSlot w.slot i ⊎ Held i) (record w { slot = none })
  taken-IsOrderly Held w h = record {
    old = h.old;
    accounted =
        All-map (Accounted Held w) _ w.spawned
          (λ t a. elim a [ inl c ↦ inl c | inr own ↦ inr (inr own) ]) h.accounted;
  }

  finish_cancels :
      (o : Option Engine) (w : World os) (i : ℕ)
      → InSlot o i
      → is_cancelled os (finish os o w) i ≡ true
  unfolding finish Engine.drop_engine
  finish_cancels none w i own = absurd own
  finish_cancels (some e) w i own = rw own (is_cancelled-cancel os (Engine.stop os e w).1 e.token)

  -- An engine that was held is stopped and dropped.
  pub finish-IsOrderly :
      (Held Held' : ℕ → Type 0) (o : Option Engine) (w : World os)
      → ((i : ℕ) → Held i → InSlot o i ⊎ Held' i)
      → IsOrderly Held w
      → IsOrderly Held' (finish os o w)
  finish-IsOrderly Held Held' o w part h =
      let w' = finish os o w in
      let q = finish_lem os o w in
      record {
        old = subst (All (λ t. t.token < w'.channels.next)) (sym q.same_spawned) (
            All-map (λ t. t.token < w.channels.next) _ w.spawned
              (λ t lt. omega (arith, q.same_next)) h.old);
        accounted = subst (All (Accounted Held' w')) (sym q.same_spawned) (
            All-map (Accounted Held w) (Accounted Held' w') w.spawned
              (λ t a. elim a [
                | inl c ↦ inl (q.keeps_cancelled t.token c)
                | inr (inl own) ↦ inr (inl (subst (λ o. InSlot o t.token) (sym q.same_slot) own))
                | inr (inr held) ↦ elim (part t.token held) [
                  | inl ends ↦ inl (finish_cancels o w t.token ends)
                  | inr stays ↦ inr (inr stays)
                ]
              ])
              h.accounted);
      }

  module _ (Held : ℕ → Type 0) where
    pub cancel-IsOrderly :
        (w : World os) (i : ℕ) → IsOrderly Held w → IsOrderly Held (cancel os i w)
    unfolding cancel Runtime.cancel
    cancel-IsOrderly w i h = record {
      old = h.old;
      accounted =
          All-map (Accounted Held w) (Accounted Held (cancel os i w)) w.spawned
            (λ t a. elim a [
              | inl c ↦ inl ((Quits-cancel os w i).keeps_cancelled t.token c)
              | inr own ↦ inr own
            ])
            h.accounted;
    }

    -- A start with an empty slot, whose new tasks are accounted for.
    grow :
        (w w2 w3 : World os) (new : List Task)
        → IsOrderly Held w
        → w.slot ≡ none
        → Takes os w w2
        → w3.channels ≡ w2.channels
        → w3.spawned ≡ w2.spawned
        → w3.spawned ≡ w.spawned ++ new
        → All (Accounted Held w3) new
        → IsOrderly Held w3
    grow w w2 w3 new h empty takes same_channels same_spawned spawned_new news =
        let n : w3.channels.next ≡ w.channels.next + 1 =
          ap (λ c. c.next) same_channels ∙ takes.next_is in
        record {
          old =
              subst (All (λ t. t.token < w3.channels.next)) (sym (same_spawned ∙ takes.spawned_new))
                (All-append (λ t. t.token < w3.channels.next) w.spawned takes.new
                  (All-map (λ t. t.token < w.channels.next) _ w.spawned (λ t lt. omega (arith, n))
                    h.old)
                  (All-map (λ t. t.token ≡ w.channels.next) _ takes.new (λ t e. omega (arith, n))
                    takes.on_token));
          accounted = subst (All (Accounted Held w3)) (sym spawned_new) (
              All-append (Accounted Held w3) w.spawned new
                (All-map _ (Accounted Held w3) w.spawned (λ t both. still t both.0 both.1)
                  (All-and _ _ w.spawned h.old h.accounted))
                news);
        }
      where
        still : (t : Task) → t.token < w.channels.next → Accounted Held w t → Accounted Held w3 t
        still t lt (inl c) = inl (
            ap (λ ch. Runtime.is_cancelled os.watch ch t.token) same_channels
            ∙ takes.older t.token lt
            ∙ c)
        still t lt (inr (inl own)) = absurd (subst (λ o. InSlot o t.token) empty own)
        still t lt (inr (inr held)) = inr (inr held)

    settle-IsOrderly :
        (cfg : AppConfig) (ctx : PlatformContext) (w : World os) (m : Result Engine × World os)
        (guard : FdGuard)
        → IsOrderly Held w
        → w.slot ≡ none
        → Engine.start os cfg ctx w ≡ m
        → IsOrderly Held (settle os guard m).1
    unfolding settle leave
    settle-IsOrderly cfg ctx w (ok e, w2) guard h empty p =
        let s = start_success os cfg ctx w p in
        let takes : Takes os w w2 = rw p at (start-Takes os cfg ctx w) in
        grow w w2 _ s.new h empty takes refl refl s.spawned_new
          (All-map _ _ s.new (λ t own. inr (inl own)) s.on_token)
    settle-IsOrderly cfg ctx w (err y, w2) guard h empty p =
        let a = start_failure os cfg ctx w p in
        let takes : Takes os w w2 = rw p at (start-Takes os cfg ctx w) in
        grow w w2 _ a.new h empty takes refl refl a.spawned_new
          (All-map _ _ a.new (λ t c. inl c) a.all_cancelled)

    start_refused :
        (cfg : AppConfig) (ctx : PlatformContext) (w : World os) {e : Engine}
        → w.slot ≡ some e
        → start os cfg ctx w ≡ (err already_running, leave os (arm ctx.tun_fd) (init_logging os w))
    unfolding start init_logging
    start_refused cfg ctx w p = rw p refl

    logging-IsOrderly : (w : World os) → IsOrderly Held w → IsOrderly Held (init_logging os w)
    unfolding init_logging
    logging-IsOrderly w h = record { old = h.old; accounted = h.accounted }

    leave-IsOrderly :
        (guard : FdGuard) (w : World os) → IsOrderly Held w → IsOrderly Held (leave os guard w)
    unfolding leave
    leave-IsOrderly guard w h = record { old = h.old; accounted = h.accounted }

    pub start-IsOrderly :
        (cfg : AppConfig) (ctx : PlatformContext) (w : World os)
        → IsOrderly Held w
        → IsOrderly Held (start os cfg ctx w).1
    unfolding init_logging
    start-IsOrderly cfg ctx w h = go w.slot refl
      where
        go : (o : Option Engine) → w.slot ≡ o → IsOrderly Held (start os cfg ctx w).1
        go (some e) p =
            subst (λ m. IsOrderly Held m.1) (sym (start_refused cfg ctx w p))
              (leave-IsOrderly (arm ctx.tun_fd) (init_logging os w) (logging-IsOrderly w h))
        go none p =
            let w1 = init_logging os w in
            subst (λ m. IsOrderly Held m.1) (sym (start-empty os cfg ctx w p))
              (settle-IsOrderly cfg ctx w1 (Engine.start os cfg ctx w1) (arm ctx.tun_fd)
                (logging-IsOrderly w h) p refl)
