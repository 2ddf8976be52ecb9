-- ===== src/Engine/Tokens.antt =====
-- `Engine::start`: it takes the next token, and touches no other.
use mathlib.Core.List.{append_assoc, append-nil}
use fictional_octo_spork.Prelude.{
  ℕ, ◌+◌, ◌<◌, ◌≡◌, ◌≢◌, refl, sym, ap, ◌∙◌, List, [], ◌++◌, All, All-append, arith,
}
use fictional_octo_spork.Failure.{Result, ok, err}
use fictional_octo_spork.Action.{after}
use fictional_octo_spork.Config.{AppConfig}
use fictional_octo_spork.Runtime
use fictional_octo_spork.Pt
use fictional_octo_spork.World.{
  Outside, World, Task, PlatformContext, LeafSocksPt, Engine, is_cancelled, cancel, new_cancel,
}
use fictional_octo_spork.Engine.{behind_pt, dropping, counted, start}
use fictional_octo_spork.Engine.Extends.{Extends}
use fictional_octo_spork.Engine.BringUp.{
  Acts-pt_spawn, Acts-behind_pt, pt_spawn_ok, channels-drop_pt, drop_pt-Dropped,
}

module _ (os : Outside) where
  -- Cancelling a token changes no other.
  pub is_cancelled-cancel_other :
      (w : World os) (i j : ℕ) → j ≢ i → is_cancelled os (cancel os i w) j ≡ is_cancelled os w j
  unfolding cancel
  is_cancelled-cancel_other w i j ne = (Runtime.cancel_lem os.watch w.channels i j).1 ∙ ground arith

  pub next-cancel : (w : World os) (i : ℕ) → (cancel os i w).channels.next ≡ w.channels.next
  unfolding cancel Runtime.cancel
  next-cancel w i = refl

module _ (os : Outside) (token : ℕ) where
  -- Tasks are spawned on the token alone, and no other token changes.
  pub record Within (w w' : World os) : Type 0 where
    pub new : List Task
    pub spawned_new : w'.spawned ≡ w.spawned ++ new
    pub on_token : All (λ t. t.token ≡ token) new
    pub same_next : w'.channels.next ≡ w.channels.next
    pub others : (j : ℕ) → j ≢ token → is_cancelled os w' j ≡ is_cancelled os w j

  Within-trans : {u v w : World os} → Within u v → Within v w → Within u w
  Within-trans {u} a b = record {
    new = a.new ++ b.new;
    spawned_new =
        b.spawned_new ∙ ap (λ l. l ++ b.new) a.spawned_new ∙ append_assoc u.spawned a.new b.new;
    on_token = All-append (λ t. t.token ≡ token) a.new b.new a.on_token b.on_token;
    same_next = b.same_next ∙ a.same_next;
    others = λ j ne. b.others j ne ∙ a.others j ne;
  }

  Extends-Within : {w w' : World os} → Extends os token w w' → Within w w'
  Extends-Within x = record {
    new = x.new;
    spawned_new = x.spawned_new;
    on_token = x.on_token;
    same_next = ap (λ c. c.next) x.same_channels;
    others = λ j ne. ap (λ c. Runtime.is_cancelled os.watch c j) x.same_channels;
  }

  drop_pt-Within :
      (pt : LeafSocksPt) (w : World os) → pt.token ≡ token → Within w (Pt.drop_pt os pt w)
  drop_pt-Within pt w same = record {
    new = [];
    spawned_new = (drop_pt-Dropped os pt w).same_spawned ∙ sym (append-nil w.spawned);
    on_token = tt;
    same_next = ap (λ c. c.next) (channels-drop_pt os pt w) ∙ next-cancel os w pt.token;
    others = λ j ne.
        ap (λ c. Runtime.is_cancelled os.watch c j) (channels-drop_pt os pt w)
        ∙ is_cancelled-cancel_other os w pt.token j (λ e. ne (e ∙ same));
  }

  dropping-Within :
      (pt : LeafSocksPt) (w : World os) (m : Result Engine × World os)
      → pt.token ≡ token
      → Within w m.1
      → Within w (dropping os pt m).1
  unfolding dropping
  dropping-Within pt w (ok e, w1) same x = x
  dropping-Within pt w (err e, w1) same x = Within-trans x (drop_pt-Within pt w1 same)

module _ (os : Outside) where
  abbrev next_token : World os → ℕ
  next_token w = w.channels.next

  Within-start :
      (cfg : AppConfig) (ctx : PlatformContext) (w : World os)
      → Within os (next_token w) (new_cancel os w).1 (start os cfg ctx w).1
  unfolding start new_cancel Runtime.new_cancel counted
  Within-start cfg ctx w = go (Pt.spawn os ctx.pt_provider token w1) refl
    where
      token : ℕ
      token = next_token w

      w1 : World os
      w1 = (new_cancel os w).1

      go :
          (m : Result LeafSocksPt × World os)
          → Pt.spawn os ctx.pt_provider token w1 ≡ m
          → Within os token w1
              (after m (λ pt w2.
                let (r, w') = dropping os pt (behind_pt os cfg ctx token pt w2) in
                (r, counted os w'))).1
      go (err e, w2) p =
          Extends-Within os token (rw p at ((Acts-pt_spawn os token ctx.pt_provider).at w1))
      go (ok pt, w2) p =
          let x =
            Extends-Within os token {w = w1} {w' = w2}
              (rw p at ((Acts-pt_spawn os token ctx.pt_provider).at w1)) in
          let y =
            dropping-Within os token pt w2 (behind_pt os cfg ctx token pt w2)
              (pt_spawn_ok os ctx.pt_provider token w1 p)
              (Extends-Within os token ((Acts-behind_pt os token cfg ctx pt).at w2)) in
          let z = Within-trans os token x y in
          record {
            new = z.new;
            spawned_new = z.spawned_new;
            on_token = z.on_token;
            same_next = z.same_next;
            others = z.others;
          }

  -- What a start does to the tokens, whether it succeeds or fails.
  pub record Takes (w w' : World os) : Type 0 where
    pub new : List Task
    pub spawned_new : w'.spawned ≡ w.spawned ++ new
    pub on_token : All (λ t. t.token ≡ next_token w) new
    pub next_is : next_token w' ≡ next_token w + 1
    pub older : (j : ℕ) → j < next_token w → is_cancelled os w' j ≡ is_cancelled os w j

  older-new_cancel :
      (w : World os) (j : ℕ)
      → j < next_token w
      → is_cancelled os (new_cancel os w).1 j ≡ is_cancelled os w j
  unfolding new_cancel Runtime.new_cancel Runtime.is_cancelled
  older-new_cancel w j lt = ground arith

  next-new_cancel : (w : World os) → next_token (new_cancel os w).1 ≡ next_token w + 1
  unfolding new_cancel Runtime.new_cancel
  next-new_cancel w = refl

  spawned-new_cancel : (w : World os) → (new_cancel os w).1.spawned ≡ w.spawned
  unfolding new_cancel
  spawned-new_cancel w = refl

  pub start-Takes :
      (cfg : AppConfig) (ctx : PlatformContext) (w : World os) → Takes w (start os cfg ctx w).1
  start-Takes cfg ctx w =
      let x = Within-start cfg ctx w in
      record {
        new = x.new;
        spawned_new = x.spawned_new ∙ ap (λ l. l ++ x.new) (spawned-new_cancel w);
        on_token = x.on_token;
        next_is = x.same_next ∙ next-new_cancel w;
        older = λ j lt. x.others j (λ e. absurd (omega arith)) ∙ older-new_cancel w j lt;
      }
