-- ===== src/Engine/Started.antt =====
-- `Engine::start`: what a successful bring-up has reached.
use fictional_octo_spork.Prelude.{ℕ, ◌≡◌, refl, ap, ◌∙◌, subst, true, false, some, List, ◌++◌, All}
use fictional_octo_spork.Failure.{Result, ok, err}
use fictional_octo_spork.Action.{Action, after-eq-ok, ◌>>=◌, pure}
use fictional_octo_spork.Config.{AppConfig}
use fictional_octo_spork.Net.{show_ip}
use fictional_octo_spork.Ipc.Messages.{Status}
use fictional_octo_spork.Runtime
use fictional_octo_spork.Pt
use fictional_octo_spork.World.{
  Outside, World, Task, PlatformContext, LeafSocksPt, Engine, is_cancelled, new_cancel,
}
use fictional_octo_spork.Engine.{behind_pt, dropping, counted, start}
use fictional_octo_spork.Engine.Extends.{Extends, Extends-trans}
use fictional_octo_spork.Engine.BringUp.{Acts-pt_spawn, Acts-behind_pt}

-- Every result of the action has the property.
record Yields {S A : Type 0} (P : A → Type 0) (m : Action S A) : Type 0 where
  at : {s s' : S} {a : A} → m s ≡ (ok a, s') → P a

Yields-bind :
    {S A B : Type 0} {P : B → Type 0} (m : Action S A) (f : A → Action S B)
    → ((a : A) → Yields P (f a))
    → Yields P (m >>= f)
Yields-bind m f k = record { at = λ {s} h. let (a, s1, p, q) = after-eq-ok (m s) f h in (k a).at q }

Yields-pure : {S A : Type 0} {P : A → Type 0} (a : A) → P a → Yields {S = S} P (pure a)
Yields-pure {P = P} a h = record { at = λ q. subst P (ap (λ r. got a r.0) q) h }
  where
    got : {A : Type 0} → A → Result A → A
    got d (ok a) = a
    got d (err e) = d

ruleset yields_rules = (Yields-bind, Yields-pure)

-- What every engine that a start returns has, of what it was given.
record Made (ctx : PlatformContext) (token : ℕ) (pt : LeafSocksPt) (e : Engine) : Type 0 where
  its_token : e.token ≡ token
  its_pt : e.pt ≡ some pt
  running : e.status.running ≡ true
  its_addr : e.status.tun_addr ≡ some (show_ip ctx.tun_addr)

Made-intro :
    (ctx : PlatformContext) (token : ℕ) (pt : LeafSocksPt) (status : Status) (tasks : List ℕ)
    → status.running ≡ true
    → status.tun_addr ≡ some (show_ip ctx.tun_addr)
    → Made ctx token pt (record { token = token; status = status; tasks = tasks; pt = some pt })
Made-intro ctx token pt status tasks r a = record {
  its_token = refl;
  its_pt = refl;
  running = r;
  its_addr = a;
}

module _ (os : Outside) where
  Yields-behind_pt :
      (cfg : AppConfig) (ctx : PlatformContext) (token : ℕ) (pt : LeafSocksPt)
      → Yields (Made ctx token pt) (behind_pt os cfg ctx token pt)
  unfolding behind_pt
  Yields-behind_pt cfg ctx token pt = search (yields_rules, Made-intro) depth 24

  -- What a bring-up that succeeded leaves behind.
  pub record Started (ctx : PlatformContext) (w : World os) (e : Engine) (w' : World os)
      : Type 0 where
    pub new : List Task
    pub spawned_new : w'.spawned ≡ w.spawned ++ new
    pub on_token : All (λ t. t.token ≡ e.token) new
    pub not_cancelled : is_cancelled os w' e.token ≡ false
    pub running : e.status.running ≡ true
    pub its_addr : e.status.tun_addr ≡ some (show_ip ctx.tun_addr)
    pub same_aborted : w'.aborted ≡ w.aborted
    pub same_closed : w'.closed ≡ w.closed
    pub same_slot : w'.slot ≡ w.slot

  pub dropping_ok :
      (pt : LeafSocksPt) (m : Result Engine × World os) {e : Engine} {w' : World os}
      → dropping os pt m ≡ (ok e, w')
      → m ≡ (ok e, w')
  unfolding dropping
  dropping_ok pt (ok e, w) h = h
  dropping_ok pt (err y, w) h = absurd (cc)

  Started-intro :
      (ctx : PlatformContext) (pt : LeafSocksPt) (w w2 w3 : World os) (e : Engine)
      → Extends os (Runtime.new_cancel os.watch w.channels).0 (new_cancel os w).1 w2
      → Extends os (Runtime.new_cancel os.watch w.channels).0 w2 w3
      → Made ctx (Runtime.new_cancel os.watch w.channels).0 pt e
      → Started ctx w e (counted os w3)
  unfolding new_cancel counted
  Started-intro ctx pt w w2 w3 e x y made =
      let z = Extends-trans os (Runtime.new_cancel os.watch w.channels).0 x y in
      record {
        new = z.new;
        spawned_new = z.spawned_new;
        on_token = rw made.its_token z.on_token;
        not_cancelled =
            rw (made.its_token, z.same_channels) (Runtime.cancel_lem os.watch w.channels 0 0).0;
        running = made.running;
        its_addr = made.its_addr;
        same_aborted = z.same_aborted;
        same_closed = z.same_closed;
        same_slot = z.same_slot;
      }

  -- If a start succeeds, and no task that it spawned has run yet, then the tasks that it spawned all watch the engine's own token, which is not
  -- cancelled, and the engine's status is running with the address of the tunnel; no task is aborted,
  -- no descriptor is closed, and the process-wide engine is what it was.
  pub start_success :
      (cfg : AppConfig) (ctx : PlatformContext) (w : World os) {e : Engine} {w' : World os}
      → start os cfg ctx w ≡ (ok e, w')
      → Started ctx w e w'
  unfolding start
  start_success cfg ctx w {e} {w'} h =
      let token = (Runtime.new_cancel os.watch w.channels).0 in
      let w1 = (new_cancel os w).1 in
      let (pt, w2, p, q) = after-eq-ok (Pt.spawn os ctx.pt_provider token w1) _ h in
      let made = behind_pt os cfg ctx token pt w2 in
      let x : Extends os token w1 w2 = rw p at ((Acts-pt_spawn os token ctx.pt_provider).at w1) in
      let y = (Acts-behind_pt os token cfg ctx pt).at w2 in
      let kept : dropping os pt made ≡ (ok e, (dropping os pt made).1) =
        ap (λ r. (r.0, (dropping os pt made).1)) q in
      let m = dropping_ok pt made kept in
      let same : counted os made.1 ≡ w' = ap (λ r. counted os r.1) m ∙ ap (λ r. r.1) q in
      subst (Started ctx w e) same
        (Started-intro ctx pt w w2 made.1 e x y ((Yields-behind_pt cfg ctx token pt).at m))
