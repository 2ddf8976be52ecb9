-- ===== src/Ipc/Sessions/Lifecycle.antt =====
-- rust/core/src/ipc.rs: the socket of the server, from `spawn_ipc_server` to the end of its loop.
use fictional_octo_spork.Prelude.{
  ◌≡◌, ◌≢◌, ◌⊎◌, inl, inr, refl, ◌∙◌, Bool, true, false, ◌||◌, List, [], ◌∷◌, length, arith,
}
use fictional_octo_spork.Text.{Text}
use fictional_octo_spork.Failure.{Reported, ok}
use fictional_octo_spork.Util.Outside.{Rng}
use fictional_octo_spork.Ipc.Messages.{Request}
use fictional_octo_spork.Ipc.Server.{Server, Outcomes, spawn_ipc_server, spawn_ipc_server_lem}
use fictional_octo_spork.Ipc.Sessions.{
  Event, loop_wakes, cancels, Ipc, serving, step, steps, is_shared, shared,
}
use fictional_octo_spork.Ipc.Sessions.Keeps.{Keeps, step-Keeps}
use fictional_octo_spork.Ipc.Sessions.Phases.{
  IsOpen, IsShut, step-Phase, step_cancelled, loop_closes, loop_over, Keeps-IsShut, later_IsShut,
  later_Phase,
}

is_loop_wakes : Event → Bool
is_loop_wakes loop_wakes = true
is_loop_wakes _ = false

-- The loop is woken.
unfoldable pub wakes_loop : List Event → Bool
unfolding is_loop_wakes
wakes_loop [] = false
wakes_loop (e ∷ es) = is_loop_wakes e || wakes_loop es

or_left : (a b : Bool) → a ≡ true → a || b ≡ true
or_left a b h = ground arith

or_right : (a b : Bool) → b ≡ true → a || b ≡ true
or_right a b h = ground arith

module _ (removal : Reported (Unit {0})) where
  module _ (taken : Bool) (rng : Rng) (decode : Text → Reported Request) where
    steps-Phase :
        (es : List Event) (s : Ipc)
        → (shared es ≡ true → taken ≡ true)
        → IsOpen removal taken s ⊎ IsShut removal taken s
        → IsOpen removal taken (steps rng decode es s)
          ⊎ IsShut removal taken (steps rng decode es s)
    unfolding steps shared
    steps-Phase [] s f h = h
    steps-Phase (e ∷ es) s f h =
        steps-Phase es (step rng decode e s) (λ t. f (ground arith))
          (step-Phase removal taken rng decode e s (λ t. f (ground arith)) h)

    -- Once the loop is over it stays so, and no client is added.
    step-IsShut :
        (e : Event) (s : Ipc)
        → (is_shared e ≡ true → taken ≡ true)
        → IsShut removal taken s
        → IsShut removal taken (step rng decode e s)
          × (length (step rng decode e s).sessions ≡ length s.sessions)
    step-IsShut e s f h = go (step-Keeps rng decode e s)
      where
        same :
            (s' : Ipc)
            → (s.ended ≡ false) ⊎ (length s'.sessions ≡ length s.sessions)
            → length s'.sessions ≡ length s.sessions
        same s' (inl n) = let p = h.has_ended in absurd (cc)
        same s' (inr l) = l

        go :
            Keeps (is_shared e) s (step rng decode e s) ⊎ (e ≡ loop_wakes)
            → IsShut removal taken (step rng decode e s)
              × (length (step rng decode e s).sessions ≡ length s.sessions)
        go (inl k) = (Keeps-IsShut removal taken f k h, same (step rng decode e s) k.same_length)
        go (inr is) = rw is (loop_over removal taken rng decode s h)

    steps-IsShut :
        (es : List Event) (s : Ipc)
        → (shared es ≡ true → taken ≡ true)
        → IsShut removal taken s
        → IsShut removal taken (steps rng decode es s)
          × (length (steps rng decode es s).sessions ≡ length s.sessions)
    unfolding steps shared
    steps-IsShut [] s f h = (h, refl)
    steps-IsShut (e ∷ es) s f h =
        let (k, l) = step-IsShut e s (λ t. f (ground arith)) h in
        let (m, n) = steps-IsShut es (step rng decode e s) (λ t. f (ground arith)) k in (m, n ∙ l)

    cancels_lem : (s : Ipc) → (step rng decode cancels s).cancelled ≡ true
    unfolding step
    cancels_lem s = refl

    -- With the token cancelled, the next time that the loop wakes is its end.
    steps-closes :
        (es : List Event) (s : Ipc)
        → (shared es ≡ true → taken ≡ true)
        → IsOpen removal taken s ⊎ IsShut removal taken s
        → s.cancelled ≡ true
        → wakes_loop es ≡ true
        → IsShut removal taken (steps rng decode es s)
    unfolding steps wakes_loop shared
    steps-closes [] s f h c w = absurd (cc)
    steps-closes (loop_wakes ∷ es) s f h c w =
        (steps-IsShut es _ (λ t. f (ground arith)) (loop_closes removal taken rng decode s h c)).0
    steps-closes (e ∷ es) s f h c w =
        steps-closes es (step rng decode e s) (λ t. f (ground arith))
          (step-Phase removal taken rng decode e s (λ t. f (ground arith)) h)
          (step_cancelled removal taken rng decode e s h c) w

    cancels-Phase :
        (s : Ipc)
        → IsOpen removal taken s ⊎ IsShut removal taken s
        → IsOpen removal taken (step rng decode cancels s)
          ⊎ IsShut removal taken (step rng decode cancels s)
    unfolding is_shared
    cancels-Phase s h = step-Phase removal taken rng decode cancels s (λ t. absurd (cc)) h

  -- From the bring-up of the server to the end of its loop. If it does not come up, nothing listens. If it does, then
  -- whatever the clients and the process do, it listens until its loop is over, which it is only if the token is
  -- cancelled, and the socket file may be used by its owner only. Once something cancels the token and the loop is woken
  -- after that, the loop is over: nothing of it listens, the socket file is gone, unless its removal failed, and
  -- whatever happens later, this stays so and no client is added. What is said of the file holds as long as no other
  -- start has brought up a server at the same path, nor ended one.
  pub server_lifecycle :
      (rng : Rng) (decode : Text → Reported Request) (o : Outcomes) (idle : Server)
      (before after later : List Event)
      → idle.listening ≡ false
      → wakes_loop after ≡ true
      → let (r, up) = spawn_ipc_server rng o idle in
        let a = steps rng decode before (serving up removal) in
        let b = steps rng decode after (step rng decode cancels a) in
        let c = steps rng decode later b in
        let taken = shared before in
        let taken' = shared before || shared after in
        ((r ≢ ok tt) × (up.listening ≡ false))
        ⊎ ((r ≡ ok tt)
            × (IsOpen removal taken a ⊎ IsShut removal taken a)
            × IsShut removal taken' b
            × IsShut removal (taken' || shared later) c
            × (length c.sessions ≡ length b.sessions))
  server_lifecycle rng decode o idle before after later h w =
      elim (spawn_ipc_server_lem rng o idle h) [
        | inl (r, l, m, _) ↦
            let up = (spawn_ipc_server rng o idle).1 in
            let a = steps rng decode before (serving up removal) in
            let taken = shared before in
            let taken' = shared before || shared after in
            let taken'' = taken' || shared later in
            let phase =
              steps-Phase taken rng decode before (serving up removal) (λ t. t)
                (inl (record { not_ended = refl; listens = l; mode = inr m; removal_is = refl })) in
            let b =
              steps-closes taken' rng decode after (step rng decode cancels a)
                (λ t. or_right (shared before) _ t)
                (cancels-Phase taken' rng decode a
                  (later_Phase removal taken taken' (λ t. or_left _ _ t) phase))
                (cancels_lem taken rng decode a) w in
            let (c, same) =
              steps-IsShut taken'' rng decode later
                (steps rng decode after (step rng decode cancels a)) (λ t. or_right taken' _ t)
                (later_IsShut removal taken' taken'' (λ t. or_left _ _ t) b) in
            inr (r, phase, b, c, same)
        | inr (bad, l, _) ↦ inl (bad, l)
      ]
