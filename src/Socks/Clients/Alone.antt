-- ===== src/Socks/Clients/Alone.antt =====
-- rust/core/src/engine/arti_runtime.rs: what the connections to the listener can do.
use mathlib.Core.List.{map}
use fictional_octo_spork.Prelude.{
  ℕ, ◌≡◌, refl, sym, ap, ◌∙◌, Bool, true, false, ◌||◌, if◌then◌else◌, Option, none, some, List, [],
  ◌∷◌, ◌++◌, All, All-append, All-put_at, All-get_at, get_at,
}
use fictional_octo_spork.Failure.{Result, Reported, Error, ok, err}
use fictional_octo_spork.Socks.{Credentials, Tor}
use fictional_octo_spork.Socks.Stream.{Conn}
use fictional_octo_spork.Socks.Serve.{Session, handle_socks_conn}
use fictional_octo_spork.Socks.Pumps.{
  Side, up, down, Act, Relay, on, start_relay, token_after, sent, woken, has_returned,
}
use fictional_octo_spork.Socks.Pumps
use fictional_octo_spork.Socks.Clients.{
  answering, Relaying, Visitor, arrived, gone, relays, Event, accepted, accept_error, serves, acts,
  cancels, loop_wakes, Listening, hear, hear_cancel, begin_relay, relaying, handled, serve, act,
  at_place, step, is_cancels,
}

relay-snoc :
    (es : List Pumps.Event) (e : Pumps.Event) (r : Relay)
    → Pumps.relay (es ++ e ∷ []) r ≡ Pumps.step e (Pumps.relay es r)
unfolding Pumps.relay
relay-snoc [] e r = refl
relay-snoc (d ∷ es) e r = relay-snoc es e (Pumps.step d r)

module _ (tor : Tor) (auth : Credentials) where
  -- What the handler of a connection comes to, if nobody else is served.
  abbrev pub handler_alone :
      (answers : tor.TorAddr → Reported (Unit {0}))
      → Conn
      → Result (Unit {0}) × Session (answering tor answers)
  handler_alone answers peer =
      handle_socks_conn (answering tor answers) auth
        (record { stream = peer; dialed = []; pumping = false })

  -- Where the handler came to its relay.
  unfoldable pub Begun : Relaying tor → Type 0
  Begun r =
      (answers : tor.TorAddr → Reported (Unit {0})) × (pumping : Bool) × (handler_alone answers
          r.peer
        ≡ (ok tt, record { stream = r.stream; dialed = r.dialed; pumping = pumping }))

  -- Where it failed.
  unfoldable pub Failed : Conn → Error → List tor.TorAddr → Type 0
  Failed peer e dialed =
      (answers : tor.TorAddr → Reported (Unit {0})) × (stream : Conn) × (pumping : Bool)
      × (handler_alone answers peer
          ≡ (err e, record { stream = stream; dialed = dialed; pumping = pumping }))

  pub record Carries (b : Bool) (r : Relaying tor) : Type 0 where
    pub begun : Begun r
    pub stands : r.pumps ≡ Pumps.relay r.heard (start_relay r.stream.input)
    pub knows_token : r.pumps.token ≡ b

  unfoldable pub Own : Bool → Visitor tor → Type 0
  Own b (arrived peer) = Unit
  Own b (gone peer e dialed) = Failed peer e dialed
  Own b (relays r) = Carries b r

  hear-Carries :
      (b : Bool) (e : Pumps.Event) (r : Relaying tor)
      → Carries b r
      → Carries (token_after b e) (hear tor e r)
  unfolding hear Begun Pumps.step
  hear-Carries b e r h = record {
    begun = h.begun;
    stands = ap (Pumps.step e) h.stands ∙ sym (relay-snoc r.heard e (start_relay r.stream.input));
    knows_token = ap (λ t. token_after t e) h.knows_token;
  }

  hear_cancel-Own : (b : Bool) (v : Visitor tor) → Own b v → Own true (hear_cancel tor v)
  unfolding hear_cancel Own token_after
  hear_cancel-Own b (arrived peer) h = h
  hear_cancel-Own b (gone peer e dialed) h = h
  hear_cancel-Own b (relays r) h = hear-Carries b Pumps.cancelled r h

  begin_relay-Carries :
      (b : Bool) (r : Relaying tor) → Carries false r → Carries b (begin_relay tor b r)
  unfolding begin_relay token_after
  begin_relay-Carries false r h = h
  begin_relay-Carries true r h = hear-Carries false Pumps.cancelled r h

  handled-Own :
      (answers : tor.TorAddr → Reported (Unit {0})) (b : Bool) (peer : Conn)
      (m : Result (Unit {0}) × Session (answering tor answers))
      → handler_alone answers peer ≡ m
      → Own b (handled tor answers b peer m)
  unfolding handled Own Failed Begun start_relay Pumps.relay
  handled-Own answers b peer (err e, s) h = (answers, s.stream, s.pumping, h)
  handled-Own answers b peer (ok t, s) h =
      begin_relay-Carries b (relaying tor {answers = answers} peer s)
        (record { begun = (answers, s.pumping, h); stands = refl; knows_token = refl })

  serve-Own :
      (answers : tor.TorAddr → Reported (Unit {0})) (b : Bool) (v : Visitor tor)
      → Own b v
      → Own b (serve tor auth b answers v)
  unfolding serve Own
  serve-Own answers b (arrived peer) h = handled-Own answers b peer _ refl
  serve-Own answers b (gone peer e dialed) h = h
  serve-Own answers b (relays r) h = h

  act-Own :
      (side : Side) (a : Act) (b : Bool) (v : Visitor tor) → Own b v → Own b (act tor side a v)
  unfolding act Own token_after
  act-Own side a b (arrived peer) h = h
  act-Own side a b (gone peer e dialed) h = h
  act-Own side a b (relays r) h = hear-Carries b (on side a) r h

  pub record InOrder (c : Bool) (s : Listening tor) : Type 0 where
    pub known : s.cancelled ≡ c
    pub own : All (Own s.cancelled) s.visitors

  at_place-InOrder :
      {c : Bool} (place : ℕ) (f : Visitor tor → Visitor tor) (s : Listening tor)
      (o : Option (Visitor tor))
      → get_at place s.visitors ≡ o
      → ((v : Visitor tor) → Own s.cancelled v → Own s.cancelled (f v))
      → InOrder c s
      → InOrder c (at_place tor place f o s)
  unfolding at_place
  at_place-InOrder place f s none at k h = h
  at_place-InOrder place f s (some v) at k h = record {
    known = h.known;
    own =
        All-put_at (Own s.cancelled) place (f v) s.visitors h.own
          (k v (All-get_at (Own s.cancelled) place s.visitors h.own at));
  }

  cancelled_Own :
      (b : Bool) (vs : List (Visitor tor))
      → All (Own b) vs
      → All (Own true) (map (hear_cancel tor) vs)
  cancelled_Own b [] h = tt
  cancelled_Own b (v ∷ vs) h = (hear_cancel-Own b v h.0, cancelled_Own b vs h.1)

  if_InOrder :
      {c : Bool} (b : Bool) (x y : Listening tor)
      → InOrder c x
      → InOrder c y
      → InOrder c (if b then x else y)
  if_InOrder true x y h k = h
  if_InOrder false x y h k = k

  pub step-InOrder :
      (e : Event tor) (c : Bool) (s : Listening tor)
      → InOrder c s
      → InOrder (is_cancels tor e || c) (step tor auth e s)
  unfolding step is_cancels Own
  step-InOrder (accepted peer) c s h = if_InOrder s.ended s _ h (record {
    known = h.known;
    own = All-append (Own s.cancelled) s.visitors (arrived peer ∷ []) h.own (tt, tt);
  })
  step-InOrder (accept_error m) c s h = h
  step-InOrder (serves place answers) c s h =
      at_place-InOrder place _ s _ refl (λ v k. serve-Own answers s.cancelled v k) h
  step-InOrder (acts place side a) c s h =
      at_place-InOrder place _ s _ refl (λ v k. act-Own side a s.cancelled v k) h
  step-InOrder cancels c s h = record {
    known = refl;
    own = cancelled_Own s.cancelled s.visitors h.own;
  }
  step-InOrder loop_wakes c s h =
      if_InOrder s.cancelled _ s (record { known = h.known; own = h.own }) h
