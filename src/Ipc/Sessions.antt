-- ===== src/Ipc/Sessions.antt =====
-- rust/core/src/ipc.rs: the loop of `spawn_ipc_server` with the clients that it hands to tasks of their own, which talk
-- in any order, while the process goes on: anyone may cancel the engine, and another start, in the same directory, may
-- bring up a server of its own at the same path, which rotates the token, and whose loop may end.
pub mod Talks
pub mod Confined
pub mod Login
pub mod Keeps
pub mod Phases
pub mod Lifecycle
use fictional_octo_spork.Prelude.{
  ℕ, zero, suc, Bool, true, false, ◌||◌, ◌&&◌, not, if◌then◌else◌, Option, none, some, List, [],
  ◌∷◌, ◌++◌, get_at, put_at,
}
use fictional_octo_spork.Text.{Text}
use fictional_octo_spork.Failure.{Reported, ok}
use fictional_octo_spork.Util.Outside.{Rng}
use fictional_octo_spork.Ipc.Messages.{Request}
use fictional_octo_spork.Ipc.Token.{current_auth_token, rotate_auth_token}
use fictional_octo_spork.Ipc.Client.{
  Round, Client, connect, Ending, waiting, until_cancelled, returned, round, proceed,
}
use fictional_octo_spork.Ipc.Server.{Server, Outcomes, comes_up, spawn_ipc_server, close_down}

-- A client that is being served: the token it has to present, its rounds so far, and how it stands.
pub record Talk : Type 0 where
  pub token : Text
  pub heard : List Round
  pub ending : Ending
  pub client : Client

-- A task that was spawned for a client, before and after it first runs.
pub data Session : Type 0 where
  spawned : Session
  talks : Talk → Session

pub data Event : Type 0 where
  accepted : Event
  accept_error : Text → Event
  loop_wakes : Event  -- the loop sees the token
  begins : (place : ℕ) → Event
  speaks : (place : ℕ) → Round → Event
  wakes : (place : ℕ) → Event  -- a client's task that waits for the token sees it
  cancels : Event  -- from elsewhere in the process
  starts : Outcomes → Event  -- another start calls `spawn_ipc_server`
  closes : Reported (Unit {0}) → Event  -- the loop of another start's server removes the socket file and ends

-- `socket_mode` is that of the file at the path, `listening` is of this server's own listener, and the token is the
-- process's. `removal` is how the removal of the socket file at the end goes.
pub record Ipc : Type 0 where
  pub server : Server
  pub removal : Reported (Unit {0})
  pub cancelled : Bool
  pub ended : Bool
  pub sessions : List Session

-- A server that has come up.
abbrev pub serving : Server → Reported (Unit {0}) → Ipc
serving server removal = record {
  server = server;
  removal = removal;
  cancelled = false;
  ended = false;
  sessions = [];
}

-- `serde_json::from_str`, a parameter.
module _ (decode : Text → Reported Request) where
  pub hear : Round → Talk → Talk
  unfolding round
  hear r t =
      let (ending, client) = proceed (round decode r r.input t.client) (λ c. (waiting, c)) in
      record t { heard = t.heard ++ r ∷ []; ending = ending; client = client }

  -- A round of a client that is waiting for a line; a client that stops the engine cancels the token.
  speak : ℕ → Round → Talk → Ending → Ipc → Ipc
  unfolding hear
  speak place r t waiting s =
      let next = hear r t in
      record s {
        cancelled = s.cancelled || next.client.cancelled;
        sessions = put_at place (talks next) s.sessions;
      }
  speak place r t _ s = s

  speak_at : ℕ → Round → Option Session → Ipc → Ipc
  unfolding speak
  speak_at place r (some (talks t)) s = speak place r t t.ending s
  speak_at place r _ s = s

-- `cancel.cancelled().await; return Ok(())`
wake : ℕ → Talk → Ending → Ipc → Ipc
wake place t until_cancelled s =
    if s.cancelled
    then record s {
      sessions = put_at place (talks (record t { ending = returned (ok tt) })) s.sessions;
    }
    else s
wake place t _ s = s

wake_at : ℕ → Option Session → Ipc → Ipc
unfolding wake
wake_at place (some (talks t)) s = wake place t t.ending s
wake_at place _ s = s

module _ (rng : Rng) where
  -- The start of `handle_client`, which reads the token.
  begin : ℕ → Option Session → Ipc → Ipc
  begin place (some spawned) s =
      let (token, cell) = current_auth_token rng s.server.cell in
      let talk : Talk = record {
        token = token;
        heard = [];
        ending = waiting;
        client = connect token;
      } in
      record s {
        server = record s.server { cell = cell };
        sessions = put_at place (talks talk) s.sessions;
      }
  begin place _ s = s

module _ (rng : Rng) (decode : Text → Reported Request) where
  unfoldable pub step : Event → Ipc → Ipc
  unfolding begin speak_at wake_at close_down
  step accepted s = if s.ended then s else record s { sessions = s.sessions ++ spawned ∷ [] }
  step (accept_error m) s = s
  step loop_wakes s =
      if s.cancelled && not s.ended
      then record s { ended = true; server = close_down s.removal s.server }
      else s
  step (begins place) s = begin rng place (get_at place s.sessions) s
  step (speaks place r) s = speak_at decode place r (get_at place s.sessions) s
  step (wakes place) s = wake_at place (get_at place s.sessions) s
  step cancels s = record s { cancelled = true }
  step (starts o) s = record s {
    server = record ((spawn_ipc_server rng o s.server).1) { listening = s.server.listening };
  }
  step (closes r) s = record s {
    server = record (close_down r s.server) { listening = s.server.listening };
  }

  unfoldable pub steps : List Event → Ipc → Ipc
  unfolding step
  steps [] s = s
  steps (e ∷ es) s = steps es (step e s)

is_cancels : Event → Bool
is_cancels cancels = true
is_cancels _ = false

-- Something else in the process cancels the engine.
unfoldable pub cancelled_elsewhere : List Event → Bool
unfolding is_cancels
cancelled_elsewhere [] = false
cancelled_elsewhere (e ∷ es) = is_cancels e || cancelled_elsewhere es

is_rotates : Event → Bool
unfolding comes_up
is_rotates (starts o) = comes_up o
is_rotates _ = false

-- Another start comes up and rotates the token.
unfoldable pub rotated : List Event → Bool
unfolding is_rotates
rotated [] = false
rotated (e ∷ es) = is_rotates e || rotated es

pub is_shared : Event → Bool
is_shared (starts o) = true
is_shared (closes r) = true
is_shared _ = false

-- Another start takes the socket file over, or removes it.
unfoldable pub shared : List Event → Bool
unfolding is_shared
shared [] = false
shared (e ∷ es) = is_shared e || shared es
