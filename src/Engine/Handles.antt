-- ===== src/Engine/Handles.antt =====
-- `Engine::start`: the tasks that it spawns, and the handles that the engine keeps.
use mathlib.Core.List.{append_assoc, append-nil}
use fictional_octo_spork.Prelude.{
  ℕ, ◌≡◌, refl, sym, ap, ◌∙◌, subst, some, List, [], ◌∷◌, ◌++◌, arith,
}
use fictional_octo_spork.Text.{Text}
use fictional_octo_spork.Failure.{Result, ok, err}
use fictional_octo_spork.Action.{Action, after-eq-ok, ◌>>=◌, pure, lift}
use fictional_octo_spork.Config.{AppConfig}
use fictional_octo_spork.Ipc.Messages.{Status}
use fictional_octo_spork.Runtime
use fictional_octo_spork.Pt
use fictional_octo_spork.World.{
  Outside, World, Task, Kind, Provider, leaf_provider, lyrebird, xray, PlatformContext, LeafSocksPt,
  Engine, spawn, random_endpoint, run_leaf_with_config, new_cancel,
}
use fictional_octo_spork.Engine.{behind_pt, start_dns, spawn_ipc, dropping, counted, start}
use fictional_octo_spork.Engine.Started.{dropping_ok}
use fictional_octo_spork.Engine.Teardown.{pt_task, handle_of}

abbrev pub ids_of : List Task → List ℕ
ids_of [] = []
ids_of (t ∷ ts) = t.id ∷ ids_of ts

pub ids_of-append : (xs ys : List Task) → ids_of (xs ++ ys) ≡ ids_of xs ++ ids_of ys
ids_of-append [] ys = refl
ids_of-append (x ∷ xs) ys = ap (λ l. x.id ∷ l) (ids_of-append xs ys)

result_or : {A : Type 0} → A → Result A → A
result_or d (ok a) = a
result_or d (err e) = d

module _ (os : Outside) (base : List ℕ) where
  -- Run where the tasks `acc` were spawned on top of `base`, a success has spawned a list with the property.
  record Tracks {A : Type 0} (P : A → List ℕ → Type 0) (acc : List ℕ) (m : Action (World os) A)
      : Type 0 where
    at :
        {w w' : World os} {a : A}
        → ids_of w.spawned ≡ base ++ acc
        → m w ≡ (ok a, w')
        → (now : List ℕ) × (ids_of w'.spawned ≡ base ++ now) × P a now

  record Quiet {A : Type 0} (m : Action (World os) A) : Type 0 where
    at : (w : World os) → (m w).1.spawned ≡ w.spawned

  module _ {B : Type 0} {P : B → List ℕ → Type 0} {acc : List ℕ} where
    Tracks-Quiet :
        {A : Type 0} (m : Action (World os) A) (f : A → Action (World os) B)
        → Quiet m
        → ((a : A) → Tracks P acc (f a))
        → Tracks P acc (m >>= f)
    Tracks-Quiet m f q k = record {
      at = λ {w} h e.
          let (a, w1, p, r) = after-eq-ok (m w) f e in
          let same : w1.spawned ≡ w.spawned = rw p at (q.at w) in (k a).at (ap ids_of same ∙ h) r;
    }

    Tracks-spawn :
        (kind : Kind) (token : ℕ) (f : ℕ → Action (World os) B)
        → ((id : ℕ) → Tracks P (acc ++ id ∷ []) (f id))
        → Tracks P acc (spawn os kind token >>= f)
    unfolding spawn
    Tracks-spawn kind token f k = record {
      at = λ {w} h e.
          (k w.next_task).at
            (ids_of-append w.spawned _
              ∙ ap (λ l. l ++ w.next_task ∷ []) h
              ∙ append_assoc base acc (w.next_task ∷ []))
            e;
    }

    Tracks-run_leaf_with_config :
        (name config : Text) (token : ℕ) (f : ℕ → Action (World os) B)
        → ((id : ℕ) → Tracks P (acc ++ id ∷ []) (f id))
        → Tracks P acc (run_leaf_with_config os name config token >>= f)
    unfolding run_leaf_with_config
    Tracks-run_leaf_with_config name config token f k = record {
      at = λ {w} h e.
          (k w.next_task).at
            (ids_of-append w.spawned _
              ∙ ap (λ l. l ++ w.next_task ∷ []) h
              ∙ append_assoc base acc (w.next_task ∷ []))
            e;
    }

    Tracks-pure : (b : B) → P b acc → Tracks P acc (pure b)
    unfolding result_or
    Tracks-pure b p = record {
      at = λ h e. (
        acc,
        ap (λ r. ids_of r.1.spawned) (sym e) ∙ h,
        subst (λ x. P x acc) (ap (λ r. result_or b r.0) e) p,
      );
    }

  Quiet-lift : {A : Type 0} (r : Result A) → Quiet (lift r)
  Quiet-lift r = record { at = λ w. refl }

  Quiet-random_endpoint : Quiet (random_endpoint os)
  unfolding random_endpoint
  Quiet-random_endpoint = record { at = λ w. ground arith }

  Quiet-start_dns : (cfg : AppConfig) (ctx : PlatformContext) → Quiet (start_dns os cfg ctx)
  unfolding start_dns
  Quiet-start_dns cfg ctx = record { at = λ w. refl }

  Quiet-spawn_ipc : Quiet (spawn_ipc os)
  unfolding spawn_ipc
  Quiet-spawn_ipc = record { at = λ w. refl }

  ruleset tracks_rules = (
    Tracks-Quiet, Tracks-spawn, Tracks-run_leaf_with_config, Tracks-pure, Quiet-lift,
    Quiet-random_endpoint, Quiet-start_dns, Quiet-spawn_ipc,
  )

  -- The engine holds exactly the tasks of the list.
  abbrev Holds : Engine → List ℕ → Type 0
  Holds e ids = ids ≡ pt_task e.pt ++ e.tasks

  abbrev HoldsOwn : LeafSocksPt → List ℕ → Type 0
  HoldsOwn pt ids = ids ≡ handle_of pt.task

  Holds-intro :
      (token : ℕ) (status : Status) (pt : LeafSocksPt) (a b c d : ℕ)
      → Holds
          (record { token = token; status = status; tasks = a ∷ b ∷ c ∷ d ∷ []; pt = some pt })
          ((((handle_of pt.task ++ a ∷ []) ++ b ∷ []) ++ c ∷ []) ++ d ∷ [])
  Holds-intro token status pt a b c d = simp append_assoc refl

  Tracks-behind_pt :
      (cfg : AppConfig) (ctx : PlatformContext) (token : ℕ) (pt : LeafSocksPt)
      → Tracks Holds (handle_of pt.task) (behind_pt os cfg ctx token pt)
  unfolding behind_pt
  Tracks-behind_pt cfg ctx token pt = search (tracks_rules, Holds-intro) depth 24

  Tracks-pt_spawn : (p : Provider) (token : ℕ) → Tracks HoldsOwn [] (Pt.spawn os p token)
  unfolding Pt.spawn
  Tracks-pt_spawn leaf_provider token = search (tracks_rules) depth 12
  Tracks-pt_spawn lyrebird token = record { at = λ h e. absurd (cc) }
  Tracks-pt_spawn xray token = record { at = λ h e. absurd (cc) }

module _ (os : Outside) where
  -- If a start succeeds, the identifiers of the tasks that it spawned are, in the order in which it spawned them,
  -- those of the transport's task and of the engine's tasks, so that the engine holds a handle of each.
  pub start_holds :
      (cfg : AppConfig) (ctx : PlatformContext) (w : World os) {e : Engine} {w' : World os}
      → start os cfg ctx w ≡ (ok e, w')
      → ids_of w'.spawned ≡ ids_of w.spawned ++ (pt_task e.pt ++ e.tasks)
  unfolding start new_cancel counted
  start_holds cfg ctx w {e} {w'} h =
      let token = (Runtime.new_cancel os.watch w.channels).0 in
      let w1 = (new_cancel os w).1 in
      let base = ids_of w.spawned in
      let (pt, w2, p, q) = after-eq-ok (Pt.spawn os ctx.pt_provider token w1) _ h in
      let (own, x, is) =
        (Tracks-pt_spawn os base ctx.pt_provider token).at {w = w1} (sym (append-nil base)) p in
      let made = behind_pt os cfg ctx token pt w2 in
      let kept : dropping os pt made ≡ (ok e, (dropping os pt made).1) =
        ap (λ r. (r.0, (dropping os pt made).1)) q in
      let m = dropping_ok os pt made kept in
      let (now, y, holds) =
        (Tracks-behind_pt os base cfg ctx token pt).at (x ∙ ap (λ l. base ++ l) is) m in
      ap (λ r. ids_of r.1.spawned) (sym q) ∙ y ∙ ap (λ l. base ++ l) holds
