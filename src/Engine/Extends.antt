-- ===== src/Engine/Extends.antt =====
-- What every step of a bring-up does to the world: it may spawn tasks, all on one token, and
-- leaves the tokens, the aborted tasks, the closed descriptors and the slot alone.
use mathlib.Core.List.{append_assoc, append-nil}
use fictional_octo_spork.Prelude.{
  ℕ, ◌+◌, ◌≡◌, refl, sym, ap, ◌∙◌, List, [], ◌∷◌, ◌++◌, All, All-append, arith,
}
use fictional_octo_spork.Text.{Text}
use fictional_octo_spork.Failure.{Result, Error, ok, err}
use fictional_octo_spork.Action.{Action, after, ◌>>=◌, pure, raise, lift}
use fictional_octo_spork.World.{
  Outside, World, Task, Kind, leaf, spawn, random_endpoint, run_leaf_with_config,
}

module _ (os : Outside) (token : ℕ) where
  pub record Extends (w w' : World os) : Type 0 where
    pub new : List Task
    pub spawned_new : w'.spawned ≡ w.spawned ++ new
    pub on_token : All (λ t. t.token ≡ token) new
    pub same_channels : w'.channels ≡ w.channels
    pub same_aborted : w'.aborted ≡ w.aborted
    pub same_closed : w'.closed ≡ w.closed
    pub same_slot : w'.slot ≡ w.slot

  -- A step that spawns nothing.
  pub Extends-quiet :
      (w w' : World os)
      → w'.spawned ≡ w.spawned
      → w'.channels ≡ w.channels
      → w'.aborted ≡ w.aborted
      → w'.closed ≡ w.closed
      → w'.slot ≡ w.slot
      → Extends w w'
  Extends-quiet w w' s c a d o = record {
    new = [];
    spawned_new = s ∙ sym (append-nil w.spawned);
    on_token = tt;
    same_channels = c;
    same_aborted = a;
    same_closed = d;
    same_slot = o;
  }

  Extends-refl : (w : World os) → Extends w w
  Extends-refl w = Extends-quiet w w refl refl refl refl refl

  pub Extends-trans : {u v w : World os} → Extends u v → Extends v w → Extends u w
  Extends-trans {u} a b = record {
    new = a.new ++ b.new;
    spawned_new =
        b.spawned_new ∙ ap (λ l. l ++ b.new) a.spawned_new ∙ append_assoc u.spawned a.new b.new;
    on_token = All-append (λ t. t.token ≡ token) a.new b.new a.on_token b.on_token;
    same_channels = b.same_channels ∙ a.same_channels;
    same_aborted = b.same_aborted ∙ a.same_aborted;
    same_closed = b.same_closed ∙ a.same_closed;
    same_slot = b.same_slot ∙ a.same_slot;
  }

  -- The action does no more than that, whether it succeeds or fails.
  pub record Acts {A : Type 0} (m : Action (World os) A) : Type 0 where
    pub at : (w : World os) → Extends w (m w).1

  pub Acts-pure : {A : Type 0} (a : A) → Acts (pure a)
  Acts-pure a = record { at = Extends-refl }

  pub Acts-raise : {A : Type 0} (e : Error) → Acts (raise {A = A} e)
  Acts-raise e = record { at = Extends-refl }

  pub Acts-lift : {A : Type 0} (r : Result A) → Acts (lift r)
  Acts-lift r = record { at = Extends-refl }

  pub Acts-bind :
      {A B : Type 0} (m : Action (World os) A) (f : A → Action (World os) B)
      → Acts m
      → ((a : A) → Acts (f a))
      → Acts (m >>= f)
  Acts-bind {A = A} {B = B} m f h k = record { at = λ w. go w (m w) (h.at w) }
    where
      go : (w : World os) (r : Result A × World os) → Extends w r.1 → Extends w (after r f).1
      go w (ok a, w') x = Extends-trans x ((k a).at w')
      go w (err e, w') x = x

  pub Acts-spawn : (kind : Kind) → Acts (spawn os kind token)
  unfolding spawn
  Acts-spawn kind = record {
    at = λ w. record {
      new = record { id = w.next_task; kind = kind; token = token } ∷ [];
      spawned_new = refl;
      on_token = (refl, tt);
      same_channels = refl;
      same_aborted = refl;
      same_closed = refl;
      same_slot = refl;
    };
  }

  pub Acts-random_endpoint : Acts (random_endpoint os)
  unfolding random_endpoint
  Acts-random_endpoint = record {
    at = λ w.
        Extends-quiet w _ (ground arith) (ground arith) (ground arith) (ground arith)
          (ground arith);
  }

  pub Acts-run_leaf_with_config :
      (name config : Text) → Acts (run_leaf_with_config os name config token)
  unfolding run_leaf_with_config
  Acts-run_leaf_with_config name config = record {
    at = λ w. record {
      new =
          record {
            id = w.next_task;
            kind = leaf name (1024 + os.rng.draw w.server.cell.draws 64511) config;
            token = token;
          }
          ∷ [];
      spawned_new = refl;
      on_token = (refl, tt);
      same_channels = refl;
      same_aborted = refl;
      same_closed = refl;
      same_slot = refl;
    };
  }

  pub ruleset acts_rules = (
    Acts-pure, Acts-raise, Acts-lift, Acts-bind, Acts-spawn, Acts-random_endpoint,
    Acts-run_leaf_with_config,
  )
