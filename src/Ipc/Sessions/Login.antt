-- ===== src/Ipc/Sessions/Login.antt =====
-- rust/core/src/ipc.rs: the token that the platform is handed is the one that logs a client in.
use fictional_octo_spork.Prelude.{
  ℕ, ◌≡◌, inl, inr, refl, sym, ap, ◌∙◌, Bool, true, false, ◌&&◌, not, if◌then◌else◌, Option, none,
  some, List, [], ◌∷◌, ◌++◌, All, All-append, All-put_at, All-get_at, get_at, get_at-put_at, arith,
}
use fictional_octo_spork.Text.{Text, trim}
use fictional_octo_spork.Failure.{Reported, good, failed}
use fictional_octo_spork.Util.Outside.{Rng}
use fictional_octo_spork.Ipc.Messages.{Request, auth, done}
use fictional_octo_spork.Ipc.Token.{current_auth_token, current_auth_token-some, HoldsToken}
use fictional_octo_spork.Ipc.Client.{
  Round, line, Client, connect, Ending, waiting, until_cancelled, returned, round, proceed,
  handle_client,
}
use fictional_octo_spork.Ipc.Replies.{decoded, round-login}
use fictional_octo_spork.Ipc.Server.{Server, close_down, spawn_ipc_server-cell}
use fictional_octo_spork.Ipc.Sessions.{
  Talk, Session, spawned, talks, Event, accepted, accept_error, loop_wakes, begins, speaks, wakes,
  cancels, starts, closes, Ipc, serving, begin, hear, speak, speak_at, wake, wake_at, step, steps,
  is_rotates, rotated,
}
use fictional_octo_spork.Ipc.Sessions.Talks.{IsItsOwn}
use fictional_octo_spork.Ipc.Sessions.Confined.{Confined, steps-Confined}

-- The token is the one in the cell, and that of every client.
HasToken : Text → Session → Type 0
HasToken t spawned = Unit
HasToken t (talks k) = k.token ≡ t

record OneToken (t : Text) (s : Ipc) : Type 0 where
  in_cell : s.server.cell.token ≡ some t
  theirs : All (HasToken t) s.sessions

if_OneToken :
    {t : Text} (b : Bool) (x y : Ipc)
    → OneToken t x
    → OneToken t y
    → OneToken t (if b then x else y)
if_OneToken true x y h k = h
if_OneToken false x y h k = k

close_down-token :
    (r : Reported (Unit {0})) (s : Server) → (close_down r s).cell.token ≡ s.cell.token
unfolding close_down
close_down-token (good x) s = refl
close_down-token (failed m) s = refl

module _ (t : Text) (s : Ipc) (h : OneToken t s) where
  begin-OneToken : (rng : Rng) (i : ℕ) (o : Option Session) → OneToken t (begin rng i o s)
  unfolding begin HasToken
  begin-OneToken rng i none = h
  begin-OneToken rng i (some (talks k)) = h
  begin-OneToken rng i (some spawned) =
      let same = current_auth_token-some rng s.server.cell h.in_cell in
      record {
        in_cell = ap (λ r. r.1.token) same ∙ h.in_cell;
        theirs = All-put_at (HasToken t) i _ s.sessions h.theirs (ap (λ r. r.0) same);
      }

  speak-OneToken :
      (decode : Text → Reported Request) (i : ℕ) (r : Round) (k : Talk) (e : Ending)
      → k.token ≡ t
      → OneToken t (speak decode i r k e s)
  unfolding speak hear HasToken
  speak-OneToken decode i r k until_cancelled same = h
  speak-OneToken decode i r k (returned x) same = h
  speak-OneToken decode i r k waiting same = record {
    in_cell = h.in_cell;
    theirs = All-put_at (HasToken t) i _ s.sessions h.theirs same;
  }

  speak_at-OneToken :
      (decode : Text → Reported Request) (i : ℕ) (r : Round) (o : Option Session)
      → get_at i s.sessions ≡ o
      → OneToken t (speak_at decode i r o s)
  unfolding speak_at HasToken
  speak_at-OneToken decode i r none at = h
  speak_at-OneToken decode i r (some spawned) at = h
  speak_at-OneToken decode i r (some (talks k)) at =
      speak-OneToken decode i r k k.ending (All-get_at (HasToken t) i s.sessions h.theirs at)

  wake-OneToken : (i : ℕ) (k : Talk) (e : Ending) → k.token ≡ t → OneToken t (wake i k e s)
  unfolding wake HasToken
  wake-OneToken i k waiting same = h
  wake-OneToken i k (returned x) same = h
  wake-OneToken i k until_cancelled same =
      if_OneToken s.cancelled _ s
        (record {
          in_cell = h.in_cell;
          theirs = All-put_at (HasToken t) i _ s.sessions h.theirs same;
        })
        h

  wake_at-OneToken :
      (i : ℕ) (o : Option Session) → get_at i s.sessions ≡ o → OneToken t (wake_at i o s)
  unfolding wake_at HasToken
  wake_at-OneToken i none at = h
  wake_at-OneToken i (some spawned) at = h
  wake_at-OneToken i (some (talks k)) at =
      wake-OneToken i k k.ending (All-get_at (HasToken t) i s.sessions h.theirs at)

  step-OneToken :
      (rng : Rng) (decode : Text → Reported Request) (e : Event)
      → is_rotates e ≡ false
      → OneToken t (step rng decode e s)
  unfolding step is_rotates HasToken
  step-OneToken rng decode accepted n = if_OneToken s.ended s _ h (record {
    in_cell = h.in_cell;
    theirs = All-append (HasToken t) s.sessions (spawned ∷ []) h.theirs (tt, tt);
  })
  step-OneToken rng decode (accept_error m) n = h
  step-OneToken rng decode loop_wakes n =
      if_OneToken (s.cancelled && not s.ended) _ s
        (record { in_cell = close_down-token s.removal s.server ∙ h.in_cell; theirs = h.theirs }) h
  step-OneToken rng decode (begins i) n = begin-OneToken rng i (get_at i s.sessions)
  step-OneToken rng decode (speaks i r) n = speak_at-OneToken decode i r _ refl
  step-OneToken rng decode (wakes i) n = wake_at-OneToken i _ refl
  step-OneToken rng decode cancels n = record { in_cell = h.in_cell; theirs = h.theirs }
  step-OneToken rng decode (starts o) n = elim (spawn_ipc_server-cell rng o s.server) [
    | inl same ↦ record { in_cell = ap (λ c. c.token) same ∙ h.in_cell; theirs = h.theirs }
    | inr (up, new) ↦ absurd (cc)
  ]
  step-OneToken rng decode (closes r) n = record {
    in_cell = close_down-token r s.server ∙ h.in_cell;
    theirs = h.theirs;
  }

module _ (rng : Rng) (decode : Text → Reported Request) where
  steps-OneToken :
      (t : Text) (es : List Event) (s : Ipc)
      → OneToken t s
      → rotated es ≡ false
      → OneToken t (steps rng decode es s)
  unfolding steps rotated
  steps-OneToken t [] s h n = h
  steps-OneToken t (e ∷ es) s h n =
      steps-OneToken t es (step rng decode e s) (step-OneToken t s h rng decode e (ground arith))
        (ground arith)

  -- What a client that has not spoken yet is like.
  silent_lem :
      (b : Bool) (k : Talk)
      → IsItsOwn decode b k
      → k.heard ≡ []
      → (k.ending ≡ waiting) × (k.client ≡ connect k.token)
  unfolding IsItsOwn handle_client
  silent_lem b k (inl own) n =
      let e : ◌≡◌ {A = Ending × Client} (waiting, connect k.token) (k.ending, k.client) =
        ap (λ rs. handle_client decode rs (connect k.token)) (sym n) ∙ own in
      (sym (ap (λ m. m.0) e), sym (ap (λ m. m.1) e))
  silent_lem b k (inr own) n =
      let e : ◌≡◌ {A = Ending × Client} (waiting, connect k.token) (until_cancelled, k.client) =
        ap (λ rs. handle_client decode rs (connect k.token)) (sym n) ∙ own.0 in
      absurd (cc)

  -- A client that has logged in, in its first round.
  abbrev pub logged_in : Text → Round → Talk
  logged_in token r = record {
    token = token;
    heard = r ∷ [];
    ending = waiting;
    client = record (connect token) { authed = true; sent = done ∷ [] };
  }

  abbrev a_talk : Text → List Round → Ending × Client → Talk
  a_talk token heard m = record { token = token; heard = heard; ending = m.0; client = m.1 }

  hear_lem :
      (t : Text) (k : Talk) (r : Round)
      → k.token ≡ t
      → k.heard ≡ []
      → k.client ≡ connect t
      → decoded decode r.input ≡ some (good (auth t))
      → r.write ≡ good tt
      → hear decode r k ≡ logged_in t r
  unfolding hear
  hear_lem t k r same silent fresh is writes =
      let answered =
        ap (λ c. proceed (round decode r r.input c) (λ d. (waiting, d))) fresh
        ∙ ap (λ m. proceed m (λ d. (waiting, d)))
            (round-login decode (connect t) r r.input refl is writes) in
      ap (λ m. a_talk k.token (k.heard ++ r ∷ []) m) answered
      ∙ ap (λ token. a_talk token (k.heard ++ r ∷ []) (waiting, (logged_in t r).client)) same
      ∙ ap (λ rs. a_talk t (rs ++ r ∷ []) (waiting, (logged_in t r).client)) silent

  -- From a server that has come up with a token in the cell, whatever has happened but another rotation: a client that
  -- has not spoken yet, and whose first line is a login with the token that the platform is handed at that moment, is
  -- logged in and told so, if its reply can be written.
  pub platform_token_logs_in :
      (es : List Event) (server : Server) (removal : Reported (Unit {0})) (t : Text) (place : ℕ)
      (k : Talk) (r : Round) (l : Text)
      → HoldsToken rng server.cell
      → server.cell.token ≡ some t
      → rotated es ≡ false
      → get_at place (steps rng decode es (serving server removal)).sessions ≡ some (talks k)
      → k.heard ≡ []
      → r.input ≡ line l
      → let s = steps rng decode es (serving server removal) in
        decode (trim l) ≡ good (auth (current_auth_token rng s.server.cell).0)
        → r.write ≡ good tt
        → let s = steps rng decode es (serving server removal) in
          get_at place (step rng decode (speaks place r) s).sessions ≡ some (talks (logged_in t r))
  unfolding step speak_at speak HasToken Confined
  platform_token_logs_in es server removal t place k r l holds in_cell same at silent says is
        writes =
      let s = steps rng decode es (serving server removal) in
      let one =
        steps-OneToken t es (serving server removal) (record { in_cell = in_cell; theirs = tt })
          same in
      let mine = All-get_at (HasToken t) place s.sessions one.theirs at in
      let (is_token, own, _) =
        All-get_at (Confined decode rng s.cancelled) place s.sessions
          (steps-Confined decode rng es server removal holds).0 at in
      let (waits, fresh) = silent_lem s.cancelled k own silent in
      let handed = current_auth_token-some rng s.server.cell one.in_cell in
      let heard =
        hear_lem t k r mine silent (fresh ∙ ap connect mine)
          (ap (decoded decode) says ∙ ap some (is ∙ ap (λ r. good (auth r.0)) handed)) writes in
      ap (λ o. get_at place (speak_at decode place r o s).sessions) at
      ∙ ap (λ e. get_at place (speak decode place r k e s).sessions) waits
      ∙ get_at-put_at place (talks (hear decode r k)) s.sessions at
      ∙ ap (λ x. some (talks x)) heard
