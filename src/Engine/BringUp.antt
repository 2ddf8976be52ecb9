-- ===== src/Engine/BringUp.antt =====
-- `Engine::start`: what a failed bring-up leaves behind.
use mathlib.Core.List.{append_assoc, append-nil}
use fictional_octo_spork.Prelude.{
  ℕ, ◌≡◌, refl, sym, subst, ap, ◌∙◌, true, List, [], ◌∷◌, ◌++◌, All, All-append, arith, ==_refl,
}
use fictional_octo_spork.Failure.{Result, Error, ok, err}
use fictional_octo_spork.Action.{after}
use fictional_octo_spork.Config.{AppConfig}
use fictional_octo_spork.Runtime
use fictional_octo_spork.Pt
use fictional_octo_spork.World.{
  Outside, World, Task, Provider, leaf_provider, lyrebird, xray, PlatformContext, LeafSocksPt,
  Engine, is_cancelled, cancel, new_cancel,
}
use fictional_octo_spork.Engine.{behind_pt, start_dns, spawn_ipc, dropping, counted, start}
use fictional_octo_spork.Engine.Extends.{Extends, Extends-quiet, Acts, acts_rules}

module _ (os : Outside) (token : ℕ) where
  Acts-start_dns : (cfg : AppConfig) (ctx : PlatformContext) → Acts os token (start_dns os cfg ctx)
  unfolding start_dns
  Acts-start_dns cfg ctx = record { at = λ w. Extends-quiet os token w w refl refl refl refl refl }

  Acts-spawn_ipc : Acts os token (spawn_ipc os)
  unfolding spawn_ipc
  Acts-spawn_ipc = record { at = λ w. Extends-quiet os token w _ refl refl refl refl refl }

  pub Acts-pt_spawn : (p : Provider) → Acts os token (Pt.spawn os p token)
  unfolding Pt.spawn
  Acts-pt_spawn leaf_provider = search acts_rules depth 10
  Acts-pt_spawn lyrebird = search acts_rules
  Acts-pt_spawn xray = search acts_rules

  pub Acts-behind_pt :
      (cfg : AppConfig) (ctx : PlatformContext) (pt : LeafSocksPt)
      → Acts os token (behind_pt os cfg ctx token pt)
  unfolding behind_pt
  Acts-behind_pt cfg ctx pt = search (acts_rules, Acts-start_dns, Acts-spawn_ipc) depth 24

module _ (os : Outside) where
  -- Cancelling a token is seen at that token, and at no other.
  pub is_cancelled-cancel : (w : World os) (i : ℕ) → is_cancelled os (cancel os i w) i ≡ true
  unfolding cancel
  is_cancelled-cancel w i = (Runtime.cancel_lem os.watch w.channels i i).1 ∙ rw (==_refl i) refl

  pub record Dropped (token : ℕ) (w w' : World os) : Type 0 where
    pub cancelled : is_cancelled os w' token ≡ true
    pub same_spawned : w'.spawned ≡ w.spawned
    pub same_closed : w'.closed ≡ w.closed
    pub same_slot : w'.slot ≡ w.slot

  pub channels-drop_pt :
      (pt : LeafSocksPt) (w : World os)
      → (Pt.drop_pt os pt w).channels ≡ (cancel os pt.token w).channels
  unfolding Pt.drop_pt
  channels-drop_pt pt w = ground arith

  pub drop_pt-Dropped : (pt : LeafSocksPt) (w : World os) → Dropped pt.token w (Pt.drop_pt os pt w)
  unfolding Pt.drop_pt
  drop_pt-Dropped pt w = record {
    cancelled =
        ap (λ c. Runtime.is_cancelled os.watch c pt.token) (channels-drop_pt pt w)
        ∙ is_cancelled-cancel w pt.token;
    same_spawned = ground arith;
    same_closed = ground arith;
    same_slot = ground arith;
  }

  pub pt_spawn_ok :
      (p : Provider) (token : ℕ) (w : World os) {pt : LeafSocksPt} {w' : World os}
      → Pt.spawn os p token w ≡ (ok pt, w')
      → pt.token ≡ token
  unfolding Pt.spawn
  pt_spawn_ok leaf_provider token w h = ground arith
  pt_spawn_ok lyrebird token w h = absurd (cc)
  pt_spawn_ok xray token w h = absurd (cc)

  pt_spawn_err :
      (p : Provider) (token : ℕ) (w : World os) {e : Error} {w' : World os}
      → Pt.spawn os p token w ≡ (err e, w')
      → w'.spawned ≡ w.spawned
  unfolding Pt.spawn
  pt_spawn_err leaf_provider token w h = ground arith
  pt_spawn_err lyrebird token w h = ground arith
  pt_spawn_err xray token w h = ground arith

  -- What a bring-up that failed leaves behind.
  pub record Abandoned (w w' : World os) : Type 0 where
    pub new : List Task
    pub spawned_new : w'.spawned ≡ w.spawned ++ new
    pub all_cancelled : All (λ t. is_cancelled os w' t.token ≡ true) new
    pub same_closed : w'.closed ≡ w.closed
    pub same_slot : w'.slot ≡ w.slot

  pub All-is_cancelled :
      (w : World os) (token : ℕ) (ts : List Task)
      → is_cancelled os w token ≡ true
      → All (λ t. t.token ≡ token) ts
      → All (λ t. is_cancelled os w t.token ≡ true) ts
  All-is_cancelled w token [] c h = tt
  All-is_cancelled w token (t ∷ ts) c h =
      (ap (λ i. is_cancelled os w i) h.0 ∙ c, All-is_cancelled w token ts c h.1)

  dropped_behind :
      (pt : LeafSocksPt) (w : World os) (m : Result Engine × World os) {e : Error} {w' : World os}
      → Extends os pt.token w m.1
      → dropping os pt m ≡ (err e, w')
      → Abandoned w (counted os w') × (is_cancelled os (counted os w') pt.token ≡ true)
  unfolding dropping counted
  dropped_behind pt w (ok engine, w1) x h = absurd (cc)
  dropped_behind pt w (err y, w1) {e} {w'} x h =
      let d = drop_pt-Dropped pt w1 in
      let same : Pt.drop_pt os pt w1 ≡ w' = cc in
      rw (← same) (
        record {
          new = x.new;
          spawned_new = d.same_spawned ∙ x.spawned_new;
          all_cancelled =
              All-is_cancelled (Pt.drop_pt os pt w1) pt.token x.new d.cancelled x.on_token;
          same_closed = d.same_closed ∙ x.same_closed;
          same_slot = d.same_slot ∙ x.same_slot;
        },
        d.cancelled,
      )

  Abandoned-trans :
      (token : ℕ) (w w1 w' : World os)
      → Extends os token w w1
      → Abandoned w1 w'
      → is_cancelled os w' token ≡ true
      → Abandoned w w'
  Abandoned-trans token w w1 w' x a c = record {
    new = x.new ++ a.new;
    spawned_new =
        a.spawned_new ∙ ap (λ l. l ++ a.new) x.spawned_new ∙ append_assoc w.spawned x.new a.new;
    all_cancelled =
        All-append (λ t. is_cancelled os w' t.token ≡ true) x.new a.new
          (All-is_cancelled w' token x.new c x.on_token) a.all_cancelled;
    same_closed = a.same_closed ∙ x.same_closed;
    same_slot = a.same_slot ∙ x.same_slot;
  }

  -- If a start fails, at whatever step, then every task that it spawned watches a token that is by then
  -- cancelled, no descriptor is closed by it, and the process-wide engine is what it was.
  pub start_failure :
      (cfg : AppConfig) (ctx : PlatformContext) (w : World os) {e : Error} {w' : World os}
      → start os cfg ctx w ≡ (err e, w')
      → Abandoned w w'
  unfolding start
  start_failure cfg ctx w {e} {w'} h = go (Pt.spawn os ctx.pt_provider token w1) refl h
    where
      token : ℕ
      token = (Runtime.new_cancel os.watch w.channels).0

      w1 : World os
      w1 = (new_cancel os w).1

      behind : LeafSocksPt → World os → Result Engine × World os
      behind pt w2 = dropping os pt (behind_pt os cfg ctx token pt w2)

      go :
          (r : Result LeafSocksPt × World os)
          → Pt.spawn os ctx.pt_provider token w1 ≡ r
          → after r (λ pt w2. ((behind pt w2).0, counted os (behind pt w2).1)) ≡ (err e, w')
          → Abandoned w w'
      go (err x, w2) p q =
          let first = (Acts-pt_spawn os token ctx.pt_provider).at w1 in
          let same : w2 ≡ w' = ap (λ r. r.1) q in
          rw (← same) (record {
            new = [];
            spawned_new = pt_spawn_err ctx.pt_provider token w1 p ∙ sym (append-nil w.spawned);
            all_cancelled = tt;
            same_closed = rw p at first.same_closed;
            same_slot = rw p at first.same_slot;
          })
      go (ok pt, w2) p q =
          let first : Extends os token w1 w2 =
            rw p at ((Acts-pt_spawn os token ctx.pt_provider).at w1) in
          let on_token = pt_spawn_ok ctx.pt_provider token w1 p in
          let then : Extends os pt.token w2 (behind_pt os cfg ctx token pt w2).1 =
            subst (λ t. Extends os t w2 (behind_pt os cfg ctx token pt w2).1) (sym on_token)
              ((Acts-behind_pt os token cfg ctx pt).at w2) in
          let failed : behind pt w2 ≡ (err e, (behind pt w2).1) =
            ap (λ r. (r.0, (behind pt w2).1)) q in
          let (left, c) = dropped_behind pt w2 (behind_pt os cfg ctx token pt w2) then failed in
          let same : counted os (behind pt w2).1 ≡ w' = ap (λ r. r.1) q in
          let all =
            Abandoned-trans token w1 w2 (counted os (behind pt w2).1) first left
              (ap (λ t. is_cancelled os (counted os (behind pt w2).1) t) (sym on_token) ∙ c) in
          rw (← same) (record {
            new = all.new;
            spawned_new = all.spawned_new;
            all_cancelled = all.all_cancelled;
            same_closed = all.same_closed;
            same_slot = all.same_slot;
          })
