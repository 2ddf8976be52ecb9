-- ===== src/Ipc/Sessions/Confined.antt =====
-- rust/core/src/ipc.rs: what the clients of a server can do, whatever the order in which they come and talk.
use fictional_octo_spork.Prelude.{
  ℕ, ◌≡◌, ◌⊎◌, inl, inr, refl, sym, subst, Bool, true, false, ◌||◌, ◌&&◌, not, if◌then◌else◌,
  Option, none, some, List, [], ◌∷◌, ◌++◌, All, All-append, All-put_at, All-get_at, get_at, put_at,
  All-map, arith,
}
use fictional_octo_spork.Text.{Text}
use fictional_octo_spork.Failure.{Reported, good, failed, ok}
use fictional_octo_spork.Util.Outside.{Rng}
use fictional_octo_spork.Ipc.Messages.{Request}
use fictional_octo_spork.Ipc.Token.{HoldsToken, IsToken, tokens_well_formed}
use fictional_octo_spork.Ipc.Client.{
  Round, connect, Ending, waiting, until_cancelled, returned, handle_client,
}
use fictional_octo_spork.Ipc.Auth.{Presented, IsLockedOut}
use fictional_octo_spork.Ipc.Server.{Server, close_down, spawn_ipc_server-cell}
use fictional_octo_spork.Ipc.Sessions.{
  Talk, Session, spawned, talks, Event, accepted, accept_error, loop_wakes, begins, speaks, wakes,
  cancels, starts, closes, Ipc, serving, begin, hear, speak, speak_at, wake, wake_at, step, steps,
  is_cancels, cancelled_elsewhere,
}
use fictional_octo_spork.Ipc.Sessions.Talks.{
  Any, Any-here, Any-put_at, Any-append, hear-IsItsOwn, waits-IsItsOwn, Presented-more,
  Presented-or_locked, IsItsOwn, PresentedBy,
}

close_down-cell : (r : Reported (Unit {0})) (s : Server) → (close_down r s).cell ≡ s.cell
unfolding close_down
close_down-cell (good x) s = refl
close_down-cell (failed m) s = refl

module _ (decode : Text → Reported Request) (rng : Rng) where
  Own : Bool → Session → Type 0
  Own b spawned = Unit
  Own b (talks t) = IsToken rng t.token × IsItsOwn decode b t

  -- `Q` is what is known if something else cancels the engine.
  record InOrder (Q : Type 0) (s : Ipc) : Type 0 where
    holds : HoldsToken rng s.server.cell
    own : All (Own s.cancelled) s.sessions
    cause : (s.cancelled ≡ false) ⊎ Q ⊎ Any (PresentedBy decode) s.sessions

  later_Own : (b b' : Bool) → (b ≡ true → b' ≡ true) → (x : Session) → Own b x → Own b' x
  unfolding Own IsItsOwn
  later_Own b b' f spawned h = tt
  later_Own b b' f (talks t) (k, inl h) = (k, inl h)
  later_Own b b' f (talks t) (k, inr (h, e, c)) = (k, inr (h, e, f c))

  later_All :
      (b b' : Bool) (xs : List Session) → (b ≡ true → b' ≡ true) → All (Own b) xs → All (Own b') xs
  later_All b b' xs f h = All-map (Own b) (Own b') xs (later_Own b b' f) h

  if_InOrder :
      {Q : Type 0} (b : Bool) (x y : Ipc)
      → (b ≡ true → InOrder Q x)
      → (b ≡ false → InOrder Q y)
      → InOrder Q (if b then x else y)
  if_InOrder true x y f g = f refl
  if_InOrder false x y f g = g refl

  module _ (Q : Type 0) (s : Ipc) (h : InOrder Q s) where
    -- What is known of a cancellation stays known when a session is replaced by a later state of it.
    cause_kept :
        (i : ℕ) {x : Session} (y : Session)
        → get_at i s.sessions ≡ some x
        → (PresentedBy decode x → PresentedBy decode y)
        → (s.cancelled ≡ false) ⊎ Q ⊎ Any (PresentedBy decode) s.sessions
        → (s.cancelled ≡ false) ⊎ Q ⊎ Any (PresentedBy decode) (put_at i y s.sessions)
    cause_kept i y e f (inl p) = inl p
    cause_kept i y e f (inr (inl q)) = inr (inl q)
    cause_kept i y e f (inr (inr p)) =
        inr (inr (Any-put_at (PresentedBy decode) i _ s.sessions e f p))

    added_cause :
        (s.cancelled ≡ false) ⊎ Q ⊎ Any (PresentedBy decode) s.sessions
        → (s.cancelled ≡ false) ⊎ Q ⊎ Any (PresentedBy decode) (s.sessions ++ spawned ∷ [])
    added_cause (inl p) = inl p
    added_cause (inr (inl q)) = inr (inl q)
    added_cause (inr (inr p)) =
        inr (inr (Any-append (PresentedBy decode) s.sessions (spawned ∷ []) p))

    -- A client that cancels the engine has presented its token.
    speak_cause :
        (i : ℕ) (r : Round) (t : Talk)
        → get_at i s.sessions ≡ some (talks t)
        → let next = hear decode r t in
          handle_client decode next.heard (connect t.token) ≡ (next.ending, next.client)
          → (s.cancelled ≡ false) ⊎ Q ⊎ Any (PresentedBy decode) s.sessions
          → (s.cancelled || next.client.cancelled ≡ false)
            ⊎ Q
            ⊎ Any (PresentedBy decode) (put_at i (talks next) s.sessions)
    unfolding PresentedBy hear
    speak_cause i r t at now c =
        elim (Presented-or_locked decode t.token (hear decode r t).heard now) [
          | inl p ↦ inr (inr (Any-here (PresentedBy decode) i _ s.sessions at p))
          | inr out ↦
              elim (cause_kept i (talks (hear decode r t)) at
                (Presented-more decode t.token t.heard r) c) [
                  | inl going ↦ inl (ground (arith, out.not_cancelled))
                  | inr known ↦ inr known
                ]
        ]

    begin-InOrder :
        (i : ℕ) (o : Option Session) → get_at i s.sessions ≡ o → InOrder Q (begin rng i o s)
    unfolding begin Own IsItsOwn handle_client PresentedBy
    begin-InOrder i none e = h
    begin-InOrder i (some (talks t)) e = h
    begin-InOrder i (some spawned) e =
        let (held, is, _, _) = tokens_well_formed rng s.server.cell h.holds in
        record {
          holds = held;
          own = All-put_at (Own s.cancelled) i _ s.sessions h.own (is, inl refl);
          cause = cause_kept i _ e (λ x. absurd x) h.cause;
        }

    speak-InOrder :
        (i : ℕ) (r : Round) (t : Talk) (e : Ending)
        → get_at i s.sessions ≡ some (talks t)
        → t.ending ≡ e
        → InOrder Q (speak decode i r t e s)
    unfolding speak Own IsItsOwn
    speak-InOrder i r t until_cancelled at w = h
    speak-InOrder i r t (returned x) at w = h
    speak-InOrder i r t waiting at w =
        let (is, mine) = All-get_at (Own s.cancelled) i s.sessions h.own at in
        let next = hear decode r t in
        let now = hear-IsItsOwn decode s.cancelled r t w mine in
        record {
          holds = h.holds;
          own =
              All-put_at (Own (s.cancelled || next.client.cancelled)) i _ s.sessions
                (later_All s.cancelled _ s.sessions (λ c. ground arith) h.own) (is, inl now);
          cause = speak_cause i r t at now h.cause;
        }

    speak_at-InOrder :
        (i : ℕ) (r : Round) (o : Option Session)
        → get_at i s.sessions ≡ o
        → InOrder Q (speak_at decode i r o s)
    unfolding speak_at
    speak_at-InOrder i r none at = h
    speak_at-InOrder i r (some spawned) at = h
    speak_at-InOrder i r (some (talks t)) at = speak-InOrder i r t t.ending at refl

    wake-InOrder :
        (i : ℕ) (t : Talk) (e : Ending)
        → get_at i s.sessions ≡ some (talks t)
        → t.ending ≡ e
        → InOrder Q (wake i t e s)
    unfolding wake Own IsItsOwn PresentedBy
    wake-InOrder i t waiting at w = h
    wake-InOrder i t (returned x) at w = h
    wake-InOrder i t until_cancelled at w =
        let (is, mine) = All-get_at (Own s.cancelled) i s.sessions h.own at in
        if_InOrder s.cancelled _ s
          (λ c. record {
            holds = h.holds;
            own =
                All-put_at (Own s.cancelled) i _ s.sessions h.own
                  (is, inr (waits-IsItsOwn decode s.cancelled t w mine, refl, c));
            cause =
                cause_kept i (talks (record t { ending = returned (ok tt) })) at (λ x. x) h.cause;
          })
          (λ c. h)

    wake_at-InOrder :
        (i : ℕ) (o : Option Session) → get_at i s.sessions ≡ o → InOrder Q (wake_at i o s)
    unfolding wake_at
    wake_at-InOrder i none at = h
    wake_at-InOrder i (some spawned) at = h
    wake_at-InOrder i (some (talks t)) at = wake-InOrder i t t.ending at refl

    step-InOrder : (e : Event) → (is_cancels e ≡ true → Q) → InOrder Q (step rng decode e s)
    unfolding step is_cancels Own
    step-InOrder accepted k =
        if_InOrder s.ended s _ (λ e. h)
          (λ e. record {
            holds = h.holds;
            own = All-append (Own s.cancelled) s.sessions (spawned ∷ []) h.own (tt, tt);
            cause = added_cause h.cause;
          })
    step-InOrder (accept_error m) k = h
    step-InOrder loop_wakes k =
        if_InOrder (s.cancelled && not s.ended) _ s
          (λ c. record {
            holds = subst (HoldsToken rng) (sym (close_down-cell s.removal s.server)) h.holds;
            own = h.own;
            cause = h.cause;
          })
          (λ c. h)
    step-InOrder (begins i) k = begin-InOrder i _ refl
    step-InOrder (speaks i r) k = speak_at-InOrder i r _ refl
    step-InOrder (wakes i) k = wake_at-InOrder i _ refl
    step-InOrder cancels k = record {
      holds = h.holds;
      own = later_All s.cancelled true s.sessions (λ c. refl) h.own;
      cause = inr (inl (k refl));
    }
    step-InOrder (starts o) k =
        let (_, _, held, _) = tokens_well_formed rng s.server.cell h.holds in
        record {
          holds = elim (spawn_ipc_server-cell rng o s.server) [
            | inl same ↦ subst (HoldsToken rng) (sym same) h.holds
            | inr (up, new) ↦ subst (HoldsToken rng) (sym new) held
          ];
          own = h.own;
          cause = h.cause;
        }
    step-InOrder (closes r) k = record {
      holds = subst (HoldsToken rng) (sym (close_down-cell r s.server)) h.holds;
      own = h.own;
      cause = h.cause;
    }

  steps-InOrder :
      (es : List Event) (Q : Type 0) (s : Ipc)
      → InOrder Q s
      → (cancelled_elsewhere es ≡ true → Q)
      → InOrder Q (steps rng decode es s)
  unfolding steps cancelled_elsewhere
  steps-InOrder [] Q s h k = h
  steps-InOrder (e ∷ es) Q s h k =
      steps-InOrder es Q (step rng decode e s) (step-InOrder Q s h e (λ c. k (ground arith)))
        (λ c. k (ground arith))

  -- A client has a token of its own to present, stands as its own rounds put it, and without having presented the
  -- token has got nothing but errors.
  unfoldable pub Confined : Bool → Session → Type 0
  Confined b spawned = Unit
  Confined b (talks t) =
      IsToken rng t.token
      × IsItsOwn decode b t
      × (Presented decode t.token t.heard ⊎ IsLockedOut t.client)

  Own-Confined : (b : Bool) (x : Session) → Own b x → Confined b x
  unfolding Own Confined IsItsOwn
  Own-Confined b spawned h = tt
  Own-Confined b (talks t) (is, inl h) = (is, inl h, Presented-or_locked decode t.token t.heard h)
  Own-Confined b (talks t) (is, inr h) = (is, inr h, Presented-or_locked decode t.token t.heard h.0)

  -- From a server that has just come up, with a well-formed token in the cell, whatever clients come, in whatever
  -- order they talk, and whatever happens beside them: each client stands as its own rounds alone put it, its token
  -- is 32 ASCII letters or digits, and unless it has presented that token it has not logged in, has cancelled
  -- nothing and has got nothing but errors. The engine's token is cancelled only if something else cancels it or
  -- some client has presented its token.
  pub steps-Confined :
      (es : List Event) (server : Server) (removal : Reported (Unit {0}))
      → HoldsToken rng server.cell
      → let s = steps rng decode es (serving server removal) in
        All (Confined s.cancelled) s.sessions
        × ((s.cancelled ≡ false)
            ⊎ (cancelled_elsewhere es ≡ true)
            ⊎ Any (PresentedBy decode) s.sessions)
  steps-Confined es server removal h =
      let s = steps rng decode es (serving server removal) in
      let end =
        steps-InOrder es (cancelled_elsewhere es ≡ true) (serving server removal)
          (record { holds = h; own = tt; cause = inl refl }) (λ c. c) in
      (
        All-map (Own s.cancelled) (Confined s.cancelled) s.sessions (Own-Confined s.cancelled)
            end.own,
        end.cause,
      )
