-- ===== src/Socks/Clients.antt =====
-- rust/core/src/engine/arti_runtime.rs: the accept loop of `run` with the connections that it hands to tasks of their
-- own, which are served and relay in any order, until the token ends them.
pub mod Alone
pub mod Served
pub mod Ends
use fictional_octo_spork.Prelude.{
  ℕ, Bool, true, false, ◌||◌, ◌&&◌, not, if◌then◌else◌, Option, none, some, List, [], ◌∷◌, ◌++◌,
  map, get_at, put_at,
}
use fictional_octo_spork.Text.{Text}
use fictional_octo_spork.Failure.{Result, Reported, Error, ok, err}
use fictional_octo_spork.Socks.{Credentials, Tor}
use fictional_octo_spork.Socks.Stream.{Conn}
use fictional_octo_spork.Socks.Serve.{Session, handle_socks_conn}
use fictional_octo_spork.Socks.Pumps.{Side, Act, Relay, on, start_relay}
use fictional_octo_spork.Socks.Pumps

-- What Tor answers to the dials of one connection.
abbrev pub answering : (tor : Tor) → (tor.TorAddr → Reported (Unit {0})) → Tor
answering tor answers = record tor { connect = answers }

module _ (tor : Tor) where
  -- A connection whose handler relays: its stream as the peer made it and as the reply left it, the dials, what has
  -- happened since to its two tasks, and how these stand.
  pub record Relaying : Type 0 where
    pub peer : Conn
    pub stream : Conn
    pub dialed : List tor.TorAddr
    pub heard : List Pumps.Event
    pub pumps : Relay

  -- A connection: accepted, ended by an error, or relaying.
  pub data Visitor : Type 0 where
    arrived : Conn → Visitor
    gone : Conn → Error → List tor.TorAddr → Visitor
    relays : Relaying → Visitor

  pub data Event : Type 0 where
    accepted : Conn → Event
    accept_error : Text → Event
    serves : (place : ℕ) → (tor.TorAddr → Reported (Unit {0})) → Event  -- a handler runs as far as its relay
    acts : (place : ℕ) → Side → Act → Event
    cancels : Event
    loop_wakes : Event  -- the loop sees the token

  pub record Listening : Type 0 where
    pub cancelled : Bool
    pub ended : Bool
    pub visitors : List Visitor

  -- The listener has just come up.
  abbrev pub listening : Listening
  listening = record { cancelled = false; ended = false; visitors = [] }

  hear : Pumps.Event → Relaying → Relaying
  hear e r = record r { heard = r.heard ++ e ∷ []; pumps = Pumps.step e r.pumps }

  -- Every relay has a clone of the token.
  hear_cancel : Visitor → Visitor
  unfolding hear
  hear_cancel (relays r) = relays (hear Pumps.cancelled r)
  hear_cancel v = v

  -- What follows `handle_socks_conn` up to the relay, with a token that is cancelled or not.
  begin_relay : Bool → Relaying → Relaying
  unfolding hear
  begin_relay cancelled r = if cancelled then hear Pumps.cancelled r else r

  abbrev pub relaying :
      {answers : tor.TorAddr → Reported (Unit {0})}
      → Conn
      → Session (answering tor answers)
      → Relaying
  relaying peer s = record {
    peer = peer;
    stream = s.stream;
    dialed = s.dialed;
    heard = [];
    pumps = start_relay s.stream.input;
  }

  handled :
      (answers : tor.TorAddr → Reported (Unit {0}))
      → Bool
      → Conn
      → Result (Unit {0}) × Session (answering tor answers)
      → Visitor
  unfolding begin_relay
  handled answers cancelled peer (err e, s) = gone peer e s.dialed
  handled answers cancelled peer (ok t, s) =
      relays (begin_relay cancelled (relaying {answers = answers} peer s))

  serve : Credentials → Bool → (tor.TorAddr → Reported (Unit {0})) → Visitor → Visitor
  unfolding handled
  serve auth cancelled answers (arrived peer) = handled answers cancelled peer (
      handle_socks_conn (answering tor answers) auth
        (record { stream = peer; dialed = []; pumping = false }))
  serve auth cancelled answers v = v

  act : Side → Act → Visitor → Visitor
  unfolding hear
  act side a (relays r) = relays (hear (on side a) r)
  act side a v = v

  at_place : ℕ → (Visitor → Visitor) → Option Visitor → Listening → Listening
  at_place place f none s = s
  at_place place f (some v) s = record s { visitors = put_at place (f v) s.visitors }

  unfoldable pub step : Credentials → Event → Listening → Listening
  unfolding serve act hear_cancel at_place
  step auth (accepted peer) s =
      if s.ended then s else record s { visitors = s.visitors ++ arrived peer ∷ [] }
  step auth (accept_error m) s = s
  step auth (serves place answers) s =
      at_place place (serve auth s.cancelled answers) (get_at place s.visitors) s
  step auth (acts place side a) s = at_place place (act side a) (get_at place s.visitors) s
  step auth cancels s = record s { cancelled = true; visitors = map hear_cancel s.visitors }
  step auth loop_wakes s = if s.cancelled then record s { ended = true } else s

  unfoldable pub steps : Credentials → List Event → Listening → Listening
  unfolding step
  steps auth [] s = s
  steps auth (e ∷ es) s = steps auth es (step auth e s)

  pub is_cancels : Event → Bool
  is_cancels cancels = true
  is_cancels _ = false

  unfoldable pub any_cancels : List Event → Bool
  unfolding is_cancels
  any_cancels [] = false
  any_cancels (e ∷ es) = is_cancels e || any_cancels es
