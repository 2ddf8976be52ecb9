-- ===== src/Ipc/Client.antt =====
-- `handle_client`, a round of its loop at a time. A round is a line that the peer sent, with what the
-- rest of the process does meanwhile: the status that a lock of it would show, and how a write ends.
use fictional_octo_spork.Prelude.{Bool, true, false, List, [], ◌∷◌, ◌++◌, if◌then◌else◌}
use fictional_octo_spork.Text.{Text, text, trim}
use fictional_octo_spork.Failure.{Result, Reported, ok, err, good, failed, ipc}
use fictional_octo_spork.Action.{Action, ◌>>◌, pure, raise, modify}
use fictional_octo_spork.Util.{ct_eq}
use fictional_octo_spork.Ipc.Messages.{
  Request, auth, status, subscribe_logs, stop, Status, Reply, done, refused, snapshot, log,
}

-- The result of `read_line`.
pub data Input : Type 0 where
  line : Text → Input
  closed : Input  -- `n == 0`
  broken : Text → Input

pub record Round : Type 0 where
  pub input : Input
  pub shared_status : Status
  pub write : Reported (Unit {0})

-- The locals of the loop, the replies that went out, and whether this client cancelled the engine.
pub record Client : Type 0 where
  pub authed : Bool
  pub expected : Text
  pub sent : List Reply
  pub cancelled : Bool

-- A fresh connection; `expected` is the token at that moment.
abbrev pub connect : Text → Client
connect token = record { authed = false; expected = token; sent = []; cancelled = false }

-- How a round ends: the next one, `return Ok(())`, or a wait for the cancellation.
pub data Flow : Type 0 where
  go_on leave await_cancel : Flow

-- `send`: the reply counts as sent once it is written.
unfoldable pub send : Round → Reply → Action Client (Unit {0})
send r reply c = elim r.write [
  | good t ↦ (ok tt, record c { sent = c.sent ++ reply ∷ [] })
  | failed m ↦ (err (ipc m), c)
]

-- `let _ = send(…).await`
unfoldable pub send_ignoring : Round → Reply → Action Client (Unit {0})
unfolding send
send_ignoring r reply c = (ok tt, (send r reply c).1)

cancel : Action Client (Unit {0})
cancel = modify (λ c. record c { cancelled = true })

log_in : Round → Text → Action Client Flow
unfolding send
log_in r token c =
    if ct_eq token c.expected
    then (do send r done; pure go_on) (record c { authed = true })
    else (do send r (refused (text "invalid auth token")); pure leave) c

-- `if !authed { match req { … } }`
unauthed : Round → Request → Action Client Flow
unfolding send log_in
unauthed r (auth token) = log_in r token
unauthed r _ = do send r (refused (text "auth required")); pure leave

-- The `match req` of an authenticated client.
serve : Round → Request → Action Client Flow
unfolding send cancel
serve r (auth token) = do send r (refused (text "already authenticated")); pure go_on
serve r status = do send r (snapshot r.shared_status); pure go_on
serve r subscribe_logs = do send r (log (text "log stream up")); pure await_cancel
serve r stop = do send r done; cancel; pure leave

unfoldable pub answer : Round → Request → Action Client Flow
unfolding unauthed serve
answer r req c = if c.authed then serve r req c else unauthed r req c

-- How a connection stands after some rounds.
pub data Ending : Type 0 where
  waiting : Ending  -- for the next line
  until_cancelled : Ending
  returned : Result (Unit {0}) → Ending

-- What is left to do after a round, `rest` being the rounds to come.
abbrev pub proceed : Result Flow × Client → (Client → Ending × Client) → Ending × Client
proceed (ok go_on, c) rest = rest c
proceed (ok leave, c) rest = (returned (ok tt), c)
proceed (ok await_cancel, c) rest = (until_cancelled, c)
proceed (err e, c) rest = (returned (err e), c)

-- `serde_json::from_str`, a parameter.
module _ (decode : Text → Reported Request) where
  unfoldable pub on_line : Round → Reported Request → Action Client Flow
  unfolding send_ignoring
  on_line r (good req) = answer r req
  on_line r (failed m) = do send_ignoring r (refused m); pure go_on

  -- A round of the loop.
  unfoldable pub round : Round → Input → Action Client Flow
  unfolding on_line
  round r (line l) = on_line r (decode (trim l))
  round r closed = pure leave
  round r (broken m) = raise (ipc m)

  -- `handle_client`
  unfoldable pub handle_client : List Round → Client → Ending × Client
  unfolding round
  handle_client [] c = (waiting, c)
  handle_client (r ∷ rs) c = proceed (round r r.input c) (λ c'. handle_client rs c')
