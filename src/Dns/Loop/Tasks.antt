-- ===== src/Dns/Loop/Tasks.antt =====
-- `run` of dns.rs with the tasks that it spawns: a query waits in a task of its own until that task's request is
-- answered, in whatever order, and while the loop receives, or after it has ended.
pub mod Met
pub mod Reordered
use fictional_octo_spork.Prelude.{
  ℕ, ◌≡◌, refl, sym, ap, ◌∙◌, subst, Option, none, some, Bool, true, false, Bool-cases, inl, inr,
  if◌then◌else◌, List, [], ◌∷◌, ◌++◌, length, take, pull, hold, pull-perm, length-replicate,
  replicate,
}
use mathlib.Core.List.{Perm, append_assoc, append-nil, perm_middle}
use mathlib.Core.List.Perm
use fictional_octo_spork.Text.{Bytes, Text}
use fictional_octo_spork.Failure.{Reported}
use fictional_octo_spork.Net.{SocketAddr}
use fictional_octo_spork.Dns.{max_udp_dns}
use fictional_octo_spork.Dns.Forward.{Post, Reqwest, forward_doh}
use fictional_octo_spork.Dns.Loop.{receive, received, reply_for, listed}

-- What a spawned task owns: its copy of the datagram and the peer.
pub record Query : Type 0 where
  pub query : Bytes
  pub peer : SocketAddr

-- What happens next: the token, an error of `recv_from`, a datagram, or the task at a place among those that have not
-- ended makes its request, which the network answers by `send`, and ends.
pub data Step (reqwest : Reqwest) : Type 0 where
  cancelled : Step reqwest
  recv_error : Text → Step reqwest
  datagram : (payload : Bytes) (peer : SocketAddr) → Step reqwest
  finishes : (place : ℕ) (send : Post → Reported reqwest.Response) → Step reqwest

module _ (reqwest : Reqwest) where
  -- A task that has ended, and how its request went.
  pub record Answered : Type 0 where
    pub task : Query
    pub send : Post → Reported reqwest.Response

  -- The loop's buffer, the tasks under way and those that have ended, and what was sent, in order.
  pub record Proxy : Type 0 where
    pub buf : Bytes
    pub pending : List Query
    pub answered : List Answered
    pub sent : List (SocketAddr × Bytes)
    pub ended : Bool

  abbrev pub listening : Proxy
  listening = record {
    buf = replicate max_udp_dns 0;
    pending = [];
    answered = [];
    sent = [];
    ended = false;
  }

  -- `servfail` is `build_servfail`.
  module _ (servfail : Bytes → Option Bytes) (doh_url : Text) where
    -- What a task sends to its peer.
    abbrev pub reply : Answered → List (SocketAddr × Bytes)
    reply a = listed reqwest servfail doh_url a.task.peer (
        reply_for reqwest servfail doh_url a.task.query
          (forward_doh reqwest a.send doh_url a.task.query))

    abbrev pub replies : List Answered → List (SocketAddr × Bytes)
    replies [] = []
    replies (a ∷ rest) = reply a ++ replies rest

    -- `tokio::spawn` of the task for a datagram
    spawn_reply : Bytes → SocketAddr → Proxy → Proxy
    unfolding receive
    spawn_reply payload peer p =
        let (n, buf) = receive payload p.buf in
        record p {
          buf = buf;
          pending = p.pending ++ record { query = take n buf; peer = peer } ∷ [];
        }

    reply_task : Option Query → (Post → Reported reqwest.Response) → Proxy → Proxy
    reply_task none send p = p
    reply_task (some q) send p =
        let a : Answered = record { task = q; send = send } in
        record p { answered = p.answered ++ a ∷ []; sent = p.sent ++ reply a }

    unfoldable pub step : Step reqwest → Proxy → Proxy
    unfolding spawn_reply reply_task
    step cancelled p = record p { ended = true }
    step (recv_error m) p = p
    step (datagram payload peer) p = if p.ended then p else spawn_reply payload peer p
    step (finishes place send) p =
        let (q, rest) = pull place p.pending in reply_task q send (record p { pending = rest })

    unfoldable pub steps : List (Step reqwest) → Proxy → Proxy
    unfolding step
    steps [] p = p
    steps (s ∷ ss) p = steps ss (step s p)

  -- The queries that came before the loop ended: each datagram, as far as 4096 bytes, with its sender.
  unfoldable pub arrivals : List (Step reqwest) → List Query
  arrivals [] = []
  arrivals (cancelled ∷ ss) = []
  arrivals (recv_error m ∷ ss) = arrivals ss
  arrivals (datagram payload peer ∷ ss) =
      record { query = take max_udp_dns payload; peer = peer } ∷ arrivals ss
  arrivals (finishes place send ∷ ss) = arrivals ss

  -- What the network does with the requests of the tasks that end.
  unfoldable pub networks : List (Step reqwest) → List (Post → Reported reqwest.Response)
  networks [] = []
  networks (finishes place send ∷ ss) = send ∷ networks ss
  networks (cancelled ∷ ss) = networks ss
  networks (recv_error m ∷ ss) = networks ss
  networks (datagram payload peer ∷ ss) = networks ss

  abbrev pub tasks : List Answered → List Query
  tasks [] = []
  tasks (a ∷ rest) = a.task ∷ tasks rest
