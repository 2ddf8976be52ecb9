-- ===== src/Ipc/Sessions/Talks.antt =====
-- rust/core/src/ipc.rs: a client of a server by the rounds that it had.
use fictional_octo_spork.Prelude.{
  ℕ, zero, suc, ◌≡◌, ◌⊎◌, inl, inr, refl, subst, ap, ◌∙◌, Bool, true, some, List, [], ◌∷◌, ◌++◌,
  get_at, put_at,
}
use fictional_octo_spork.Text.{Text}
use fictional_octo_spork.Failure.{Reported, Result, ok, err}
use fictional_octo_spork.Ipc.Messages.{Request}
use fictional_octo_spork.Ipc.Client.{
  Round, Client, connect, Flow, go_on, leave, await_cancel, Ending, waiting, until_cancelled,
  returned, round, proceed, handle_client,
}
use fictional_octo_spork.Ipc.Auth.{Presented, IsLockedOut, locked_run}
use fictional_octo_spork.Ipc.Sessions.{Talk, Session, spawned, talks, hear}

-- Lists of sessions.
module _ (P : Session → Type 0) where
  abbrev pub Any : List Session → Type 0
  Any [] = ⊥
  Any (x ∷ xs) = P x ⊎ Any xs

  pub Any-here :
      (i : ℕ) (y : Session) (xs : List Session) {x : Session}
      → get_at i xs ≡ some x
      → P y
      → Any (put_at i y xs)
  Any-here i y [] e k = absurd (cc)
  Any-here zero y (x ∷ xs) e k = inl k
  Any-here (suc i) y (x ∷ xs) e k = inr (Any-here i y xs e k)

  pub Any-put_at :
      (i : ℕ) (y : Session) (xs : List Session) {x : Session}
      → get_at i xs ≡ some x
      → (P x → P y)
      → Any xs
      → Any (put_at i y xs)
  Any-put_at i y [] e f h = h
  Any-put_at zero y (x ∷ xs) e f (inl h) = inl (f (subst P (cc) h))
  Any-put_at zero y (x ∷ xs) e f (inr h) = inr h
  Any-put_at (suc i) y (x ∷ xs) e f (inl h) = inl h
  Any-put_at (suc i) y (x ∷ xs) e f (inr h) = inr (Any-put_at i y xs e f h)

  pub Any-append : (xs ys : List Session) → Any xs → Any (xs ++ ys)
  Any-append [] ys h = absurd h
  Any-append (x ∷ xs) ys (inl h) = inl h
  Any-append (x ∷ xs) ys (inr h) = inr (Any-append xs ys h)

module _ (decode : Text → Reported Request) where
  handle_client-snoc :
      (rs : List Round) (r : Round) (c c' : Client)
      → handle_client decode rs c ≡ (waiting, c')
      → handle_client decode (rs ++ r ∷ []) c
        ≡ proceed (round decode r r.input c') (λ c. (waiting, c))
  unfolding handle_client
  handle_client-snoc [] r c c' h =
      ap (λ m. proceed (round decode r r.input m.1) (λ d. (waiting, d))) h
  handle_client-snoc (q ∷ rs) r c c' h =
      go (round decode q q.input c) (λ d k. handle_client-snoc rs r d c' k) h
    where
      go :
          (m : Result Flow × Client)
          → ((d : Client)
              → handle_client decode rs d ≡ (waiting, c')
              → handle_client decode (rs ++ r ∷ []) d
                ≡ proceed (round decode r r.input c') (λ c. (waiting, c)))
          → proceed m (handle_client decode rs) ≡ (waiting, c')
          → proceed m (handle_client decode (rs ++ r ∷ []))
            ≡ proceed (round decode r r.input c') (λ c. (waiting, c))
      go (ok go_on, d) rest k = rest d k
      go (ok leave, d) rest k = absurd (cc)
      go (ok await_cancel, d) rest k = absurd (cc)
      go (err e, d) rest k = absurd (cc)

  -- A talk stands as its rounds put it, one after another from a fresh connection; only a wait for the token may be
  -- over, once the token is cancelled.
  unfoldable pub IsItsOwn : Bool → Talk → Type 0
  IsItsOwn cancelled t =
      (handle_client decode t.heard (connect t.token) ≡ (t.ending, t.client))
      ⊎ ((handle_client decode t.heard (connect t.token) ≡ (until_cancelled, t.client))
          × (t.ending ≡ returned (ok tt))
          × (cancelled ≡ true))

  pub hear-IsItsOwn :
      (b : Bool) (r : Round) (t : Talk)
      → t.ending ≡ waiting
      → IsItsOwn b t
      → handle_client decode (hear decode r t).heard (connect t.token)
        ≡ ((hear decode r t).ending, (hear decode r t).client)
  unfolding hear IsItsOwn
  hear-IsItsOwn b r t w (inl h) =
      handle_client-snoc t.heard r (connect t.token) t.client (h ∙ ap (λ e. (e, t.client)) w)
  hear-IsItsOwn b r t w (inr h) = absurd (cc)

  pub waits-IsItsOwn :
      (b : Bool) (t : Talk)
      → t.ending ≡ until_cancelled
      → IsItsOwn b t
      → handle_client decode t.heard (connect t.token) ≡ (until_cancelled, t.client)
  unfolding IsItsOwn
  waits-IsItsOwn b t w (inl h) = h ∙ ap (λ e. (e, t.client)) w
  waits-IsItsOwn b t w (inr h) = h.0

  pub Presented-more :
      (token : Text) (rs : List Round) (r : Round)
      → Presented decode token rs
      → Presented decode token (rs ++ r ∷ [])
  Presented-more token [] r h = absurd h
  Presented-more token (q ∷ rs) r (inl h) = inl h
  Presented-more token (q ∷ rs) r (inr h) = inr (Presented-more token rs r h)

  -- A talk in which nobody presents the token is locked out.
  pub Presented-or_locked :
      (token : Text) (rs : List Round) {e : Ending} {c : Client}
      → handle_client decode rs (connect token) ≡ (e, c)
      → Presented decode token rs ⊎ IsLockedOut c
  Presented-or_locked token rs {e} {c} h =
      elim (locked_run decode rs (connect token)
        (record { not_authed = refl; not_cancelled = refl; only_refusals = tt })) [
          | inl p ↦ inl p
          | inr out ↦ inr (subst IsLockedOut (ap (λ m. m.1) h) out)
        ]

  unfoldable pub PresentedBy : Session → Type 0
  PresentedBy spawned = ⊥
  PresentedBy (talks t) = Presented decode t.token t.heard
