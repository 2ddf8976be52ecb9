-- ===== src/Socks/Pumps.antt =====
-- rust/core/src/engine/arti_runtime.rs, the end of `handle_socks_conn`: two tasks copy bytes between the client and
-- the Tor stream, one in each direction, until their end of file, an error or the token ends each.
pub mod Relayed
pub mod Returns
use fictional_octo_spork.Prelude.{
  ℕ, ◌≡◌, refl, sym, ap, ◌∙◌, Option, none, some, Bool, true, false, Bool-cases, inl, inr, ◌&&◌,
  ◌||◌, not, if◌then◌else◌, List, [], ◌∷◌, ◌++◌, take, drop, take-append-drop, arith,
}
use mathlib.Core.List.{append_assoc, append-nil}
use fictional_octo_spork.Text.{Bytes}

-- From the client to Tor, and back.
pub data Side : Type 0 where
  up down : Side

-- Why a task ended: its reader's end, an error of a read or a write, or the token.
pub data How : Type 0 where
  at_eof broke by_cancel : How

-- One direction: what its reader has not read yet, what it wrote, what a task that ended early had read and not
-- written, and whether the sender has closed its end.
pub record Pipe : Type 0 where
  pub queued : Bytes
  pub written : Bytes
  pub lost : Bytes
  pub closed : Bool
  pub ended : Option How

-- What happens in one direction: the sender sends or closes; the copy writes some bytes on, or sees the end, or fails;
-- the task sees that the token is cancelled. The count is how many bytes the copy held in between.
pub data Act : Type 0 where
  sends : Bytes → Act
  closes : Act
  copies : (count : ℕ) → Act
  sees_end : Act
  fails : (count : ℕ) → Act
  wakes : (count : ℕ) → Act
  idle : Act

pub data Event : Type 0 where
  on : Side → Act → Event
  cancelled : Event

unfoldable pub is_live : Option How → Bool
is_live none = true
is_live (some how) = false

unfoldable pub is_empty : Bytes → Bool
is_empty [] = true
is_empty (b ∷ bs) = false

-- The task ends, and drops what it held.
end_with : How → ℕ → Pipe → Pipe
end_with how count p = record p {
  ended = some how;
  lost = p.lost ++ take count p.queued;
  queued = drop count p.queued;
}

-- `select!` of the token, if it is cancelled, and `tokio::io::copy`
pump : Bool → Act → Pipe → Pipe
unfolding is_live is_empty end_with
pump token (sends bs) p = if p.closed then p else record p { queued = p.queued ++ bs }
pump token closes p = record p { closed = true }
pump token (copies count) p =
    if is_live p.ended
    then record p { written = p.written ++ take count p.queued; queued = drop count p.queued }
    else p
pump token sees_end p =
    if is_live p.ended && p.closed && is_empty p.queued then end_with at_eof 0 p else p
pump token (fails count) p = if is_live p.ended then end_with broke count p else p
pump token (wakes count) p = if is_live p.ended && token then end_with by_cancel count p else p
pump token idle p = p

-- What an event is to one direction.
unfoldable pub seen : Side → Event → Act
seen up (on up a) = a
seen up (on down a) = idle
seen down (on up a) = idle
seen down (on down a) = a
seen side cancelled = idle

unfoldable pub token_after : Bool → Event → Bool
token_after token (on side a) = token
token_after token cancelled = true

-- Both directions, and whether the token is cancelled.
pub record Relay : Type 0 where
  pub upward : Pipe
  pub downward : Pipe
  pub token : Bool

abbrev pub direction : Side → Relay → Pipe
direction up r = r.upward
direction down r = r.downward

-- What `handle_socks_conn` starts, where the client has sent so many bytes behind its request.
unfoldable pub start_relay : Bytes → Relay
start_relay early = record {
  upward = record { queued = early; written = []; lost = []; closed = false; ended = none };
  downward = record { queued = []; written = []; lost = []; closed = false; ended = none };
  token = false;
}

unfoldable pub step : Event → Relay → Relay
unfolding pump seen token_after
step e r = record {
  upward = pump r.token (seen up e) r.upward;
  downward = pump r.token (seen down e) r.downward;
  token = token_after r.token e;
}

unfoldable pub relay : List Event → Relay → Relay
unfolding step
relay [] r = r
relay (e ∷ es) r = relay es (step e r)

-- `a.await` and `b.await` are over.
unfoldable pub has_returned : Relay → Bool
has_returned r = not (is_live r.upward.ended) && not (is_live r.downward.ended)

new_bytes : Act → Bool → Bytes
new_bytes (sends bs) closed = if closed then [] else bs
new_bytes _ closed = []

closed_after : Act → Bool → Bool
closed_after closes closed = true
closed_after _ closed = closed

-- What a sender sends before it closes its end.
unfoldable pub sent : Side → Bool → List Event → Bytes
unfolding seen new_bytes closed_after
sent side closed [] = []
sent side closed (e ∷ es) =
    new_bytes (seen side e) closed ++ sent side (closed_after (seen side e) closed) es

is_wake : Act → Bool
is_wake (wakes count) = true
is_wake _ = false

-- The task of that direction is woken after the token is cancelled.
unfoldable pub woken : Side → Bool → List Event → Bool
unfolding is_wake seen token_after
woken side token [] = false
woken side token (e ∷ es) = token && is_wake (seen side e) || woken side (token_after token e) es
