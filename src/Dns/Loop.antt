-- ===== src/Dns/Loop.antt =====
-- `run` of dns.rs: datagrams in, answers out. Each datagram is answered by a task of its own; the answers are
-- listed in the order in which these tasks were spawned, which need not be that of the sends.
pub mod Tasks
use fictional_octo_spork.Prelude.{
  ℕ, ◌≡◌, refl, ap, ◌∙◌, Option, none, some, Bool, true, false, List, [], ◌∷◌, ◌++◌, arith, length,
  take, drop, take-take_append, take-all, length-take, length-drop, length-append, length-replicate,
  sym, replicate,
}
use Prim.Native.Nat.{min}
use mathlib.Core.List.{append_assoc, append-nil}
use native.Mathlib.Decide.{dec_le}
use fictional_octo_spork.Text.{Bytes, Text}
use fictional_octo_spork.Failure.{Reported, Result, ok, err}
use fictional_octo_spork.Net.{SocketAddr}
use fictional_octo_spork.Dns.{max_udp_dns}
use fictional_octo_spork.Dns.Forward.{Post, Reqwest, forward_doh}

-- What wakes the loop: the token, an error of `recv_from`, or a datagram and what the network does with the DoH
-- request for it.
pub data Event (reqwest : Reqwest) : Type 0 where
  cancelled : Event reqwest
  recv_error : Text → Event reqwest
  datagram :
      (payload : Bytes) (peer : SocketAddr) (send : Post → Reported reqwest.Response)
      → Event reqwest

pub record Proxy : Type 0 where
  pub buf : Bytes
  pub sent : List (SocketAddr × Bytes)
  pub ended : Bool

pub listening : Proxy
listening = record { buf = replicate max_udp_dns 0; sent = []; ended = false }

-- `recv_from(&mut buf)`: the datagram is written over the head of the buffer, and cut if it is longer.
-- The result is how many bytes were written.
receive : Bytes → Bytes → ℕ × Bytes
receive payload buf = let n = min (length payload) (length buf) in (n, take n payload ++ drop n buf)

received :
    (payload buf : Bytes)
    → length buf ≡ max_udp_dns
    → (take (receive payload buf).0 (receive payload buf).1 ≡ take max_udp_dns payload)
      × (length (receive payload buf).1 ≡ max_udp_dns)
unfolding receive
received payload buf h =
    let n = min (length payload) (length buf) in
    (
      take-take_append n payload (drop n buf) (omega arith) ∙ cut,
      omega (
        arith,
        length-append (take n payload) (drop n buf),
        length-take n payload,
        length-drop n buf,
      ),
    )
  where
    cut : take (min (length payload) (length buf)) payload ≡ take max_udp_dns payload
    cut = elim (dec_le (length payload) (length buf)) [
      | yes short ↦
          let e : min (length payload) (length buf) ≡ length payload = omega arith in
          rw e (
            take-all (length payload) payload (omega arith)
            ∙ sym (take-all max_udp_dns payload (omega arith)))
      | no long ↦ let e : min (length payload) (length buf) ≡ max_udp_dns = omega arith in rw e refl
    ]

-- `servfail` is `build_servfail`.
module _ (reqwest : Reqwest) (servfail : Bytes → Option Bytes) (doh_url : Text) where
  -- What the task for a query sends.
  unfoldable pub reply_for : Bytes → Result Bytes → Option Bytes
  reply_for query (ok answer) = some answer
  reply_for query (err e) = servfail query

  deliver : SocketAddr → Option Bytes → Proxy → Proxy
  deliver peer none p = p
  deliver peer (some bytes) p = record p { sent = p.sent ++ (peer, bytes) ∷ [] }

  on_datagram : Bytes → SocketAddr → (Post → Reported reqwest.Response) → Proxy → Proxy
  unfolding receive reply_for deliver forward_doh
  on_datagram payload peer send p =
      let (n, buf) = receive payload p.buf in
      let query = take n buf in
      deliver peer (reply_for query (forward_doh reqwest send doh_url query))
        (record p { buf = buf })

  unfoldable pub run : List (Event reqwest) → Proxy → Proxy
  unfolding on_datagram
  run [] p = p
  run (cancelled ∷ es) p = record p { ended = true }
  run (recv_error m ∷ es) p = run es p
  run (datagram payload peer send ∷ es) p = run es (on_datagram payload peer send p)

  -- The answers that a list of events calls for, without a buffer: a datagram counts up to 4096 bytes, and what comes
  -- behind a cancellation not at all.
  abbrev pub listed : SocketAddr → Option Bytes → List (SocketAddr × Bytes)
  listed peer none = []
  listed peer (some bytes) = (peer, bytes) ∷ []

  unfoldable pub answers : List (Event reqwest) → List (SocketAddr × Bytes)
  unfolding reply_for forward_doh
  answers [] = []
  answers (cancelled ∷ es) = []
  answers (recv_error m ∷ es) = answers es
  answers (datagram payload peer send ∷ es) =
      let query = take max_udp_dns payload in
      listed peer (reply_for query (forward_doh reqwest send doh_url query)) ++ answers es

  deliver_lem :
      (peer : SocketAddr) (o : Option Bytes) (p : Proxy)
      → ((deliver peer o p).buf ≡ p.buf) × ((deliver peer o p).sent ≡ p.sent ++ listed peer o)
  unfolding deliver
  deliver_lem peer none p = (refl, sym (append-nil p.sent))
  deliver_lem peer (some bytes) p = (refl, refl)

  run-answers :
      (es : List (Event reqwest)) (p : Proxy)
      → length p.buf ≡ max_udp_dns
      → (run es p).sent ≡ p.sent ++ answers es
  unfolding run answers
  run-answers [] p h = sym (append-nil p.sent)
  run-answers (cancelled ∷ es) p h = sym (append-nil p.sent)
  run-answers (recv_error m ∷ es) p h = run-answers es p h
  run-answers (datagram payload peer send ∷ es) p h =
      let (query, full) = received payload p.buf h in
      let (n, buf) = receive payload p.buf in
      let reply = reply_for (take n buf) (forward_doh reqwest send doh_url (take n buf)) in
      let next = record p { buf = buf } in
      let (kept, sent) = deliver_lem peer reply next in
      run-answers es (deliver peer reply next) (ap length kept ∙ full)
      ∙ ap (λ l. l ++ answers es) sent
      ∙ append_assoc p.sent (listed peer reply) (answers es)
      ∙ ap
          (λ q.
            p.sent
            ++ (listed peer (reply_for q (forward_doh reqwest send doh_url q)) ++ answers es))
          query

  -- However many datagrams come and however they are interleaved with errors, each is answered at most once,
  -- to its own sender: by the body of the response to a POST of exactly its own bytes, as far as 4096, to the DoH
  -- server; or, where the request fails or its status is an error, by the SERVFAIL for these bytes, if there is one.
  -- Nothing that an earlier, longer datagram left in the shared buffer reaches a later query.
  pub run-sends-answers : (es : List (Event reqwest)) → (run es listening).sent ≡ answers es
  unfolding listening
  run-sends-answers es = run-answers es listening (length-replicate {A = ℕ} max_udp_dns 0)
