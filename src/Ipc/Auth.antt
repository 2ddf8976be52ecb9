-- ===== src/Ipc/Auth.antt =====
-- Authentication of IPC clients: what a peer reaches without the token.
use fictional_octo_spork.Prelude.{◌≡◌, ◌⊎◌, inl, inr, refl, false, List, [], ◌∷◌, ◌++◌, All, arith}
use fictional_octo_spork.Text.{Text, text, trim}
use fictional_octo_spork.Failure.{Result, Reported, ok, err, good, failed}
use fictional_octo_spork.Util.Compare.{ct_eq_iff}
use fictional_octo_spork.Ipc.Messages.{Request, auth, Reply, refused}
use fictional_octo_spork.Ipc.Client.{
  Round, Input, line, closed, broken, Client, connect, Flow, go_on, leave, await_cancel, Ending,
  answer, on_line, round, proceed, handle_client,
}

abbrev pub IsRefusal : Reply → Type 0
IsRefusal (refused m) = Unit
IsRefusal _ = ⊥

-- What an observer may see of a client that has not logged in.
pub record IsLockedOut (c : Client) : Type 0 where
  pub not_authed : c.authed ≡ false
  pub not_cancelled : c.cancelled ≡ false
  pub only_refusals : All IsRefusal c.sent

All-append_one :
    (rs : List Reply) (r : Reply) → All IsRefusal rs → IsRefusal r → All IsRefusal (rs ++ r ∷ [])
All-append_one [] r h k = (k, tt)
All-append_one (x ∷ rs) r h k = (h.0, All-append_one rs r h.1 k)

module _ (decode : Text → Reported Request) where
  -- The round's line is a request to log in with the token.
  abbrev pub PresentsInput : Text → Input → Type 0
  PresentsInput token (line l) = decode (trim l) ≡ good (auth token)
  PresentsInput token _ = ⊥

  abbrev pub Presented : Text → List Round → Type 0
  Presented token [] = ⊥
  Presented token (r ∷ rs) = PresentsInput token r.input ⊎ Presented token rs

  answer_locked :
      (r : Round) (req : Request) (c : Client)
      → IsLockedOut c
      → (req ≡ auth c.expected)
        ⊎ (IsLockedOut (answer r req c).1 × ((answer r req c).1.expected ≡ c.expected))
  unfolding answer
  answer_locked r (auth token) c h = ground (
    arith,
    ct_eq_iff token c.expected,
    All-append_one c.sent (refused (text "invalid auth token")) h.only_refusals tt,
  )
  answer_locked r _ c h =
      ground (arith, All-append_one c.sent (refused (text "auth required")) h.only_refusals tt)

  round_locked :
      (r : Round) (i : Input) (c : Client)
      → IsLockedOut c
      → PresentsInput c.expected i
        ⊎ (IsLockedOut (round decode r i c).1 × ((round decode r i c).1.expected ≡ c.expected))
  unfolding round
  round_locked r (line l) c h = go (decode (trim l)) refl
    where
      go :
          (d : Reported Request)
          → decode (trim l) ≡ d
          → (decode (trim l) ≡ good (auth c.expected))
            ⊎ (IsLockedOut (on_line decode r d c).1
                × ((on_line decode r d c).1.expected ≡ c.expected))
      go (good req) e = ground (arith, answer_locked r req c h)
      go (failed m) e = ground (arith, All-append_one c.sent (refused m) h.only_refusals tt)
  round_locked r closed c h = inr (h, refl)
  round_locked r (broken m) c h = inr (h, refl)

  proceed_locked :
      (m : Result Flow × Client) (rest : Client → Ending × Client) {P : Type 0}
      → IsLockedOut m.1
      → P ⊎ IsLockedOut (rest m.1).1
      → P ⊎ IsLockedOut (proceed m rest).1
  proceed_locked (ok go_on, c) rest h k = k
  proceed_locked (ok leave, c) rest h k = inr h
  proceed_locked (ok await_cancel, c) rest h k = inr h
  proceed_locked (err e, c) rest h k = inr h

  -- From a client that is locked out, either the token is presented in some round, or the client is
  -- locked out at the end of them.
  pub locked_run :
      (rs : List Round) (c : Client)
      → IsLockedOut c
      → Presented c.expected rs ⊎ IsLockedOut (handle_client decode rs c).1
  unfolding handle_client
  locked_run [] c h = inr h
  locked_run (r ∷ rs) c h = elim (round_locked r r.input c h) [
    | inl now ↦ inl (inl now)
    | inr (still, same) ↦
        proceed_locked (round decode r r.input c) (handle_client decode rs) still
          (elim (locked_run rs (round decode r r.input c).1 still) [
            | inl later ↦ inl (inr (rw same at later))
            | inr out ↦ inr out
          ])
  ]

  -- Whatever lines a peer sends: if the token of the connection is in none of them presented by an
  -- `auth` request, then at the end the client is not authenticated, it has not cancelled the engine, and
  -- every reply that it got was an error.
  pub no_access_without_token :
      (token : Text) (rs : List Round)
      → ¬ Presented token rs
      → IsLockedOut (handle_client decode rs (connect token)).1
  no_access_without_token token rs h =
      elim (locked_run rs (connect token)
        (record { not_authed = refl; not_cancelled = refl; only_refusals = tt })) [
          | inl p ↦ absurd (h p)
          | inr out ↦ out
        ]
