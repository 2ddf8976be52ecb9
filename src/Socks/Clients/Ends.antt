-- ===== src/Socks/Clients/Ends.antt =====
-- rust/core/src/engine/arti_runtime.rs: how the relays of the listener end once the engine is cancelled.
use fictional_octo_spork.Prelude.{
  ℕ, ◌≡◌, inl, inr, refl, sym, ap, subst, ◌∙◌, Bool, true, false, ◌==◌, ==_iff, Bool-cases,
  if◌then◌else◌, Option, none, some, List, [], ◌∷◌, ◌++◌, get_at, put_at, get_at-put_at,
  get_at-put_at_other, get_at-append, get_at-map,
}
use fictional_octo_spork.Socks.{Credentials, Tor}
use fictional_octo_spork.Socks.Pumps.{up, down, Relay, on, is_live, woken, has_returned}
use fictional_octo_spork.Socks.Pumps
use fictional_octo_spork.Socks.Pumps.Returns.{woken_ends}
use fictional_octo_spork.Socks.Clients.{
  Relaying, Visitor, relays, Event, accepted, accept_error, serves, acts, cancels, loop_wakes,
  Listening, listening, hear, hear_cancel, serve, act, at_place, step, steps,
}

not_both : (b : Bool) → b ≡ true → b ≡ false → ⊥
not_both b h k = cc

either {ℓ} : {A : Type ℓ} (P : A → Type 0) (b : Bool) (x y : A) → P x → P y → P (if b then x else y)
either P true x y h k = h
either P false x y h k = k

module _ (tor : Tor) where
  heard_by : ℕ → Event tor → List Pumps.Event
  heard_by place (acts p side a) = if p == place then on side a ∷ [] else []
  heard_by place cancels = Pumps.cancelled ∷ []
  heard_by place _ = []

  -- What the relay at a place hears of what happens.
  unfoldable pub own : ℕ → List (Event tor) → List Pumps.Event
  unfolding heard_by
  own place [] = []
  own place (e ∷ es) = heard_by place e ++ own place es

  hears : List Pumps.Event → Relaying tor → Relaying tor
  unfolding hear
  hears [] r = r
  hears (e ∷ es) r = hears es (hear tor e r)

  hears-append :
      (es es' : List Pumps.Event) (r : Relaying tor) → hears (es ++ es') r ≡ hears es' (hears es r)
  unfolding hears
  hears-append [] es' r = refl
  hears-append (e ∷ es) es' r = hears-append es es' (hear tor e r)

  pumps-hears :
      (es : List Pumps.Event) (r : Relaying tor) → (hears es r).pumps ≡ Pumps.relay es r.pumps
  unfolding hears hear Pumps.relay
  pumps-hears [] r = refl
  pumps-hears (e ∷ es) r = pumps-hears es (hear tor e r)

  kept :
      (es : List Pumps.Event) (r : Relaying tor)
      → ((hears es r).peer ≡ r.peer) × ((hears es r).dialed ≡ r.dialed)
  unfolding hears hear
  kept [] r = (refl, refl)
  kept (e ∷ es) r = kept es (hear tor e r)

  at_place_lem :
      (place p : ℕ) (f : Visitor tor → Visitor tor) (s : Listening tor) (o : Option (Visitor tor))
      {v : Visitor tor}
      → get_at p s.visitors ≡ o
      → get_at place s.visitors ≡ some v
      → get_at place (at_place tor p f o s).visitors ≡ some (if p == place then f v else v)
  unfolding at_place
  at_place_lem place p f s none {v} e at = elim (Bool-cases (p == place)) [
    | inl is ↦ let same = (==_iff p place).0 is in absurd (cc)
    | inr other ↦ rw other at
  ]
  at_place_lem place p f s (some w) {v} e at = elim (Bool-cases (p == place)) [
    | inl is ↦
        let same = (==_iff p place).0 is in
        let it : w ≡ v = cc in
        rw is (
          subst (λ q. get_at q (put_at p (f w) s.visitors) ≡ some (f v)) same
            (get_at-put_at p (f w) s.visitors e ∙ ap (λ x. some (f x)) it))
    | inr other ↦ rw other (
        get_at-put_at_other place p (f w) s.visitors
          (λ q. not_both (p == place) ((==_iff p place).1 q) other)
        ∙ at)
  ]

  relays_if :
      (b : Bool) (r : Relaying tor) (e : Pumps.Event)
      → (if b then relays (hear tor e r) else relays r)
        ≡ relays (hears (if b then e ∷ [] else []) r)
  unfolding hears
  relays_if true r e = refl
  relays_if false r e = refl

  same_either {ℓ} : {A : Type ℓ} (b : Bool) (x : A) → (if b then x else x) ≡ x
  same_either true x = refl
  same_either false x = refl

  module _ (auth : Credentials) where
    -- A relay stays one, and hears what is its own.
    step_at :
        (place : ℕ) (e : Event tor) (s : Listening tor) {r : Relaying tor}
        → get_at place s.visitors ≡ some (relays r)
        → get_at place (step tor auth e s).visitors ≡ some (relays (hears (heard_by place e) r))
    unfolding step heard_by hears serve act hear_cancel
    step_at place (accepted peer) s {r} at =
        either (λ t. get_at place t.visitors ≡ some (relays r)) s.ended s _ at
          (get_at-append place s.visitors _ at)
    step_at place (accept_error m) s at = at
    step_at place (serves p answers) s at =
        at_place_lem place p _ s _ refl at ∙ ap some (same_either (p == place) _)
    step_at place (acts p side a) s {r} at =
        at_place_lem place p _ s _ refl at ∙ ap some (relays_if (p == place) r (on side a))
    step_at place cancels s at = get_at-map (hear_cancel tor) place s.visitors at
    step_at place loop_wakes s {r} at =
        either (λ t. get_at place t.visitors ≡ some (relays r)) s.cancelled _ s at at

    steps_at :
        (place : ℕ) (es : List (Event tor)) (s : Listening tor) {r : Relaying tor}
        → get_at place s.visitors ≡ some (relays r)
        → get_at place (steps tor auth es s).visitors ≡ some (relays (hears (own place es) r))
    unfolding steps own hears
    steps_at place [] s at = at
    steps_at place (e ∷ es) s {r} at =
        steps_at place es (step tor auth e s) (step_at place e s at)
        ∙ ap (λ x. some (relays x)) (sym (hears-append (heard_by place e) (own place es) r))

    steps-append :
        (es es' : List (Event tor)) (s : Listening tor)
        → steps tor auth (es ++ es') s ≡ steps tor auth es' (steps tor auth es s)
    unfolding steps
    steps-append [] es' s = refl
    steps-append (e ∷ es) es' s = steps-append es es' (step tor auth e s)

  ended_pumps :
      (es : List Pumps.Event) (r : Relay)
      → r.token ≡ true
      → woken up true es ≡ true
      → woken down true es ≡ true
      → has_returned (Pumps.relay es r) ≡ true
  unfolding has_returned
  ended_pumps es r t u d = rw (woken_ends up es r (rw t u), woken_ends down es r (rw t d)) refl

  -- Once a connection relays and then the token is cancelled, its handler has returned as soon as each of its two
  -- tasks is woken after that, in either order, whatever the peer, Tor, the loop and the other connections do
  -- before, meanwhile and after.
  pub cancelled_relay_ends :
      (auth : Credentials) (before after : List (Event tor)) (place : ℕ) (r : Relaying tor)
      → get_at place (steps tor auth before (listening tor)).visitors ≡ some (relays r)
      → woken up true (own place after) ≡ true
      → woken down true (own place after) ≡ true
      → (last : Relaying tor) × (get_at place
            (steps tor auth (before ++ cancels ∷ after) (listening tor)).visitors
          ≡ some (relays last))
        × (last.peer ≡ r.peer)
        × (last.dialed ≡ r.dialed)
        × (has_returned last.pumps ≡ true)
  unfolding own heard_by Pumps.step Pumps.relay Pumps.token_after
  cancelled_relay_ends auth before after place r at u d =
      let heard = Pumps.cancelled ∷ own place after in
      let (peer, dialed) = kept heard r in
      (
        hears heard r,
        ap (λ s. get_at place s.visitors)
              (steps-append auth before (cancels ∷ after) (listening tor))
            ∙ steps_at auth place (cancels ∷ after) (steps tor auth before (listening tor)) at,
        peer,
        dialed,
        ap has_returned (pumps-hears heard r)
            ∙ ended_pumps (own place after) (Pumps.step Pumps.cancelled r.pumps) refl u d,
      )
