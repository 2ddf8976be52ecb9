-- ===== src/Socks/Clients/Served.antt =====
-- rust/core/src/engine/arti_runtime.rs: whom the listener serves, and what its relays carry.
use mathlib.Core.List.{cons-ne-nil}
use fictional_octo_spork.Prelude.{
  ◌≡◌, ◌⊎◌, inl, inr, refl, sym, ap, subst, ◌∙◌, Bool, true, false, ◌||◌, List, [], ◌∷◌, ◌++◌, All,
  All-map, arith,
}
use fictional_octo_spork.Text.{Bytes}
use fictional_octo_spork.Failure.{Error}
use fictional_octo_spork.Socks.{Credentials, Tor, contains}
use fictional_octo_spork.Socks.Stream.{Conn}
use fictional_octo_spork.Socks.Handshake.{client_hello}
use fictional_octo_spork.Socks.Serve.{dial_needs_login, relay_needs_login}
use fictional_octo_spork.Socks.Pumps.{Side, up, down, start_relay, direction, sent}
use fictional_octo_spork.Socks.Pumps.Relayed.{Fate, Relayed, relay-Relayed}
use fictional_octo_spork.Socks.Clients.Alone.{Begun, Failed, Carries, Own, InOrder, step-InOrder}
use fictional_octo_spork.Socks.Clients.{
  answering, Relaying, Visitor, arrived, gone, relays, Event, Listening, listening, step, steps,
  is_cancels, any_cancels,
}

-- The peer offers user/password and sends exactly the credentials, before anything else.
abbrev pub LoggedIn : Credentials → Conn → Type 0
LoggedIn auth peer =
    (methods : Bytes) × (rest : Bytes) × (contains methods 0x02 ≡ true)
    × (peer.input ≡ client_hello methods auth rest)

or_false : (b : Bool) → b || false ≡ b
or_false true = refl
or_false false = refl

module _ (tor : Tor) (auth : Credentials) where
  steps-InOrder :
      (es : List (Event tor)) (c : Bool) (s : Listening tor)
      → InOrder tor auth c s
      → InOrder tor auth (any_cancels tor es || c) (steps tor auth es s)
  unfolding steps any_cancels
  steps-InOrder [] c s h = h
  steps-InOrder (e ∷ es) c s h =
      subst (λ b. InOrder tor auth b (steps tor auth es (step tor auth e s))) (ground arith)
        (steps-InOrder es (is_cancels tor e || c) (step tor auth e s)
          (step-InOrder tor auth e c s h))

  -- A handler that failed dialled nothing or had logged its peer in; one that relays has logged its peer in, and
  -- carries, in each direction and in order, a first part of what its sender sends. The handler came there as it
  -- would alone.
  unfoldable pub Confined : Bool → Visitor tor → Type 0
  Confined b (arrived peer) = Unit
  Confined b (gone peer e dialed) =
      Failed tor auth peer e dialed × ((dialed ≡ []) ⊎ LoggedIn auth peer)
  Confined b (relays r) =
      Begun tor auth r
      × LoggedIn auth r.peer
      × Relayed b (r.stream.input ++ sent up false r.heard) r.pumps.upward
      × Relayed b (sent down false r.heard) r.pumps.downward

  Failed-login :
      (peer : Conn) (e : Error) (dialed : List tor.TorAddr)
      → Failed tor auth peer e dialed
      → (dialed ≡ []) ⊎ LoggedIn auth peer
  unfolding Failed
  Failed-login peer e [] h = inl refl
  Failed-login peer e (a ∷ dialed) (answers, stream, pumping, same) = inr (
      dial_needs_login (answering tor answers) auth
        (record { stream = peer; dialed = []; pumping = false })
        λ none_dialed. cons-ne-nil a dialed (sym (ap (λ m. m.1.dialed) same) ∙ none_dialed))

  carried :
      (side : Side) (b : Bool) (r : Relaying tor) {arrived : Bytes}
      → Carries tor auth b r
      → let started = start_relay r.stream.input in
        Relayed started.token arrived (direction side started)
        → Relayed b
            (arrived ++ sent side (direction side started).closed r.heard)
            (direction side r.pumps)
  carried side b r {arrived} h k =
      let started = start_relay r.stream.input in
      let all = arrived ++ sent side (direction side started).closed r.heard in
      subst (λ t. Relayed t all (direction side r.pumps)) h.knows_token
        (subst (λ p. Relayed p.token all (direction side p)) (sym h.stands)
          (relay-Relayed side r.heard started k))

  Carries-Confined : (b : Bool) (r : Relaying tor) → Carries tor auth b r → Confined b (relays r)
  unfolding Confined Begun start_relay Fate
  Carries-Confined b r h =
      let (answers, pumping, same) = h.begun in
      (
        h.begun,
        relay_needs_login (answering tor answers) auth
            (record { stream = r.peer; dialed = []; pumping = false }) same,
        carried up b r h (record { whole = refl; fate = refl }),
        carried down b r h (record { whole = refl; fate = refl }),
      )

  Own-Confined : (b : Bool) (v : Visitor tor) → Own tor auth b v → Confined b v
  unfolding Own Confined
  Own-Confined b (arrived peer) h = h
  Own-Confined b (gone peer e dialed) h = (h, Failed-login peer e dialed h)
  Own-Confined b (relays r) h = Carries-Confined b r h

  -- From a listener that has just come up, whatever peers come, in whatever order they are served and their relays
  -- go on, whatever Tor answers to each dial, and whenever the token is cancelled: every handler came as far as it
  -- would alone. It has dialled nothing, or its peer sent exactly the credentials first, behind an offer of
  -- user/password, as the peer of every relay did. Each relay carries, in each direction and in order, a first part
  -- of what its own sender sends, and its tasks end by the token only where something has cancelled that.
  pub peers-Confined :
      (es : List (Event tor))
      → let s = steps tor auth es (listening tor) in
        (s.cancelled ≡ any_cancels tor es) × All (Confined s.cancelled) s.visitors
  peers-Confined es =
      let s = steps tor auth es (listening tor) in
      let end = steps-InOrder es false (listening tor) (record { known = refl; own = tt }) in
      (
        end.known ∙ or_false (any_cancels tor es),
        All-map (Own tor auth s.cancelled) (Confined s.cancelled) s.visitors
            (Own-Confined s.cancelled) end.own,
      )
