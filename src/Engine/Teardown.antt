-- ===== src/Engine/Teardown.antt =====
-- `Engine::stop`: what is cancelled, aborted and left of the status.
use mathlib.Core.List.{append_assoc, append-nil}
use fictional_octo_spork.Prelude.{
  ℕ, ◌≡◌, refl, sym, ap, subst, ◌∙◌, true, false, Option, none, some, List, [], ◌∷◌, ◌++◌, arith,
}
use fictional_octo_spork.Runtime
use fictional_octo_spork.Pt
use fictional_octo_spork.World.{Outside, World, LeafSocksPt, Engine, is_cancelled, cancel, abort}
use fictional_octo_spork.Engine.{stop, stop_pt, abort_all}
use fictional_octo_spork.Engine.BringUp.{is_cancelled-cancel}

-- The handle of the transport's task, while there is one.
abbrev pub handle_of : Option ℕ → List ℕ
handle_of none = []
handle_of (some id) = id ∷ []

abbrev pub pt_task : Option LeafSocksPt → List ℕ
pt_task none = []
pt_task (some pt) = handle_of pt.task

module _ (os : Outside) where
  -- A change of the world that cancels tokens and aborts the tasks `ids`, and does nothing else.
  pub record Quits (ids : List ℕ) (w w' : World os) : Type 0 where
    pub keeps_cancelled : (i : ℕ) → is_cancelled os w i ≡ true → is_cancelled os w' i ≡ true
    pub same_next : w'.channels.next ≡ w.channels.next
    pub aborts : w'.aborted ≡ w.aborted ++ ids
    pub same_spawned : w'.spawned ≡ w.spawned
    pub same_closed : w'.closed ≡ w.closed
    pub same_slot : w'.slot ≡ w.slot

  cancel-keeps :
      (w : World os) (i j : ℕ)
      → is_cancelled os w j ≡ true
      → is_cancelled os (cancel os i w) j ≡ true
  unfolding cancel
  cancel-keeps w i j h = (Runtime.cancel_lem os.watch w.channels i j).1 ∙ (rw h (ground arith))

  pub Quits-cancel : (w : World os) (i : ℕ) → Quits [] w (cancel os i w)
  unfolding cancel Runtime.cancel
  Quits-cancel w i = record {
    keeps_cancelled = cancel-keeps w i;
    same_next = refl;
    aborts = sym (append-nil w.aborted);
    same_spawned = refl;
    same_closed = refl;
    same_slot = refl;
  }

  Quits-abort : (w : World os) (id : ℕ) → Quits (id ∷ []) w (abort os id w)
  unfolding abort
  Quits-abort w id = record {
    keeps_cancelled = λ i h. h;
    same_next = refl;
    aborts = refl;
    same_spawned = refl;
    same_closed = refl;
    same_slot = refl;
  }

  pub Quits-refl : (w : World os) → Quits [] w w
  Quits-refl w = record {
    keeps_cancelled = λ i h. h;
    same_next = refl;
    aborts = sym (append-nil w.aborted);
    same_spawned = refl;
    same_closed = refl;
    same_slot = refl;
  }

  pub Quits-trans :
      {xs ys : List ℕ} {u v w : World os} → Quits xs u v → Quits ys v w → Quits (xs ++ ys) u w
  Quits-trans {xs} {ys} {u} a b = record {
    keeps_cancelled = λ i h. b.keeps_cancelled i (a.keeps_cancelled i h);
    same_next = b.same_next ∙ a.same_next;
    aborts = b.aborts ∙ ap (λ l. l ++ ys) a.aborts ∙ append_assoc u.aborted xs ys;
    same_spawned = b.same_spawned ∙ a.same_spawned;
    same_closed = b.same_closed ∙ a.same_closed;
    same_slot = b.same_slot ∙ a.same_slot;
  }

  Quits-abort_all : (ids : List ℕ) (w : World os) → Quits ids w (abort_all os ids w)
  unfolding abort_all
  Quits-abort_all [] w = Quits-refl w
  Quits-abort_all (id ∷ ids) w =
      Quits-trans (Quits-abort w id) (Quits-abort_all ids (abort os id w))

  Quits-abort_task : (t : Option ℕ) (w : World os) → Quits (handle_of t) w (Pt.abort_task os t w)
  unfolding Pt.abort_task
  Quits-abort_task none w = Quits-refl w
  Quits-abort_task (some id) w = Quits-abort w id

  Quits-stop_pt : (pt : Option LeafSocksPt) (w : World os) → Quits (pt_task pt) w (stop_pt os pt w)
  unfolding stop_pt Pt.shutdown Pt.drop_pt Pt.abort_task
  Quits-stop_pt none w = Quits-refl w
  Quits-stop_pt (some pt) w =
      let aborted = Pt.abort_task os pt.task (cancel os pt.token w) in
      subst (λ ids. Quits ids w (cancel os pt.token aborted)) (append-nil (handle_of pt.task))
        (Quits-trans
          (Quits-trans (Quits-cancel w pt.token) (Quits-abort_task pt.task (cancel os pt.token w)))
          (Quits-cancel aborted pt.token))

  pub Quits-stop : (e : Engine) (w : World os) → Quits (pt_task e.pt ++ e.tasks) w (stop os e w).1
  unfolding stop
  Quits-stop e w =
      let c = Quits-cancel w e.token in
      let p = Quits-stop_pt e.pt (cancel os e.token w) in
      let a = Quits-abort_all e.tasks (stop_pt os e.pt (cancel os e.token w)) in
      Quits-trans c (Quits-trans p a)

  -- What is true of the engine and the world that `stop` leaves.
  pub record Stopped (e : Engine) (w : World os) (after : Engine × World os) : Type 0 where
    pub cancelled : is_cancelled os after.1 e.token ≡ true
    pub aborts : after.1.aborted ≡ w.aborted ++ (pt_task e.pt ++ e.tasks)
    pub not_running : after.0.status ≡ record e.status { running = false }
    pub no_tasks : (after.0.tasks ≡ []) × (after.0.pt ≡ none)
    pub same_closed : after.1.closed ≡ w.closed
    pub same_slot : after.1.slot ≡ w.slot

  -- Stopping an engine, in any state, leaves its token cancelled; it aborts the transport's task, if
  -- there is one, and then the engine's tasks in their order, and no others; the engine is left not
  -- running and without tasks and transport, and no descriptor is closed and the slot is kept.
  pub stop_lem : (e : Engine) (w : World os) → Stopped e w (stop os e w)
  unfolding stop
  stop_lem e w =
      let q = Quits-stop e w in
      let c = Quits-cancel w e.token in
      let p = Quits-stop_pt e.pt (cancel os e.token w) in
      let a = Quits-abort_all e.tasks (stop_pt os e.pt (cancel os e.token w)) in
      record {
        cancelled =
            a.keeps_cancelled e.token
              (p.keeps_cancelled e.token (is_cancelled-cancel os w e.token));
        aborts = q.aborts;
        not_running = refl;
        no_tasks = (refl, refl);
        same_closed = q.same_closed;
        same_slot = q.same_slot;
      }
