-- ===== src/Dns/Loop/Tasks/Reordered.antt =====
-- `run` of dns.rs: the tasks that answer the queries may end in any order.
use fictional_octo_spork.Prelude.{
  ℕ, ◌≡◌, refl, sym, ap, ◌∙◌, subst, Option, none, some, Bool, true, false, Bool-cases, inl, inr,
  if◌then◌else◌, List, [], ◌∷◌, ◌++◌, length, take, pull, hold, pull-perm, length-replicate,
}
use mathlib.Core.List.{Perm, append_assoc, append-nil}
use mathlib.Core.List.Perm
use fictional_octo_spork.Text.{Bytes, Text}
use fictional_octo_spork.Failure.{Reported}
use fictional_octo_spork.Net.{SocketAddr}
use fictional_octo_spork.Dns.{max_udp_dns}
use fictional_octo_spork.Dns.Forward.{Post, Reqwest}
use fictional_octo_spork.Dns.Loop.{received}
use fictional_octo_spork.Dns.Loop.Tasks.{
  Query, Step, cancelled, recv_error, datagram, finishes, Answered, Proxy, listening, reply,
  replies, spawn_reply, reply_task, step, steps, arrivals, tasks,
}

module _ (reqwest : Reqwest) where
  -- The queries of the tasks, those that have ended first.
  abbrev owed : Proxy reqwest → List Query
  owed p = tasks reqwest p.answered ++ p.pending

  tasks-append :
      (xs ys : List (Answered reqwest))
      → tasks reqwest (xs ++ ys) ≡ tasks reqwest xs ++ tasks reqwest ys
  tasks-append [] ys = refl
  tasks-append (a ∷ xs) ys = ap (λ l. a.task ∷ l) (tasks-append xs ys)

  module _ (servfail : Bytes → Option Bytes) (doh_url : Text) where
    replies-append :
        (xs ys : List (Answered reqwest))
        → replies reqwest servfail doh_url (xs ++ ys)
          ≡ replies reqwest servfail doh_url xs ++ replies reqwest servfail doh_url ys
    replies-append [] ys = refl
    replies-append (a ∷ xs) ys =
        ap (λ l. reply reqwest servfail doh_url a ++ l) (replies-append xs ys)
        ∙ sym (
            append_assoc (reply reqwest servfail doh_url a) (replies reqwest servfail doh_url xs)
              (replies reqwest servfail doh_url ys))

    -- What was sent is what the tasks that have ended call for, in the order in which they ended.
    abbrev IsAccounted : Proxy reqwest → Type 0
    IsAccounted p = p.sent ≡ replies reqwest servfail doh_url p.answered

    reply_task-IsAccounted :
        (o : Option Query) (send : Post → Reported reqwest.Response) (p : Proxy reqwest)
        → IsAccounted p
        → IsAccounted (reply_task reqwest servfail doh_url o send p)
    unfolding reply_task
    reply_task-IsAccounted none send p h = h
    reply_task-IsAccounted (some q) send p h =
        let a : Answered reqwest = record { task = q; send = send } in
        rw (h, replies-append p.answered (a ∷ []), append-nil (reply reqwest servfail doh_url a))
          refl

    reply_task-owed :
        (o : Option Query) (send : Post → Reported reqwest.Response) (p : Proxy reqwest)
        {before : List Query}
        → Perm (hold o p.pending) before
        → Perm
            (owed (reply_task reqwest servfail doh_url o send p))
            (tasks reqwest p.answered ++ before)
    unfolding reply_task
    reply_task-owed none send p h = Perm.append_left (tasks reqwest p.answered) h
    reply_task-owed (some q) send p h =
        let a : Answered reqwest = record { task = q; send = send } in
        rw
          (
            tasks-append p.answered (a ∷ []),
            append_assoc (tasks reqwest p.answered) (q ∷ []) p.pending,
          )
          (Perm.append_left (tasks reqwest p.answered) h)

    step-IsAccounted :
        (s : Step reqwest) (p : Proxy reqwest)
        → IsAccounted p
        → IsAccounted (step reqwest servfail doh_url s p)
    unfolding step
    step-IsAccounted cancelled p h = h
    step-IsAccounted (recv_error m) p h = h
    step-IsAccounted (datagram payload peer) p h = elim (Bool-cases p.ended) [
      | inl e ↦ rw e h
      | inr e ↦ rw e h
    ]
    step-IsAccounted (finishes place send) p h =
        reply_task-IsAccounted (pull place p.pending).0 send
          (record p { pending = (pull place p.pending).1 }) h

    steps-IsAccounted :
        (ss : List (Step reqwest)) (p : Proxy reqwest)
        → IsAccounted p
        → IsAccounted (steps reqwest servfail doh_url ss p)
    unfolding steps
    steps-IsAccounted [] p h = h
    steps-IsAccounted (s ∷ ss) p h =
        steps-IsAccounted ss (step reqwest servfail doh_url s p) (step-IsAccounted s p h)

    reply_task-kept :
        (o : Option Query) (send : Post → Reported reqwest.Response) (p : Proxy reqwest)
        → let p' = reply_task reqwest servfail doh_url o send p in
          (p'.buf ≡ p.buf) × (p'.ended ≡ p.ended)
    unfolding reply_task
    reply_task-kept none send p = (refl, refl)
    reply_task-kept (some q) send p = (refl, refl)

    -- The end of a task leaves the loop as it is.
    finishes-kept :
        (place : ℕ) (send : Post → Reported reqwest.Response) (p : Proxy reqwest)
        → let p' = step reqwest servfail doh_url (finishes place send) p in
          (p'.buf ≡ p.buf) × (p'.ended ≡ p.ended)
    unfolding step
    finishes-kept place send p =
        let (q, rest) = pull place p.pending in reply_task-kept q send (record p { pending = rest })

    datagram_lem :
        (payload : Bytes) (peer : SocketAddr) (p : Proxy reqwest) {b : Bool}
        → p.ended ≡ b
        → step reqwest servfail doh_url (datagram payload peer) p
          ≡ (if b then p else spawn_reply reqwest servfail doh_url payload peer p)
    unfolding step
    datagram_lem payload peer p h =
        ap (λ b. if b then p else spawn_reply reqwest servfail doh_url payload peer p) h

    spawn_reply-owed :
        (payload : Bytes) (peer : SocketAddr) (p : Proxy reqwest)
        → length p.buf ≡ max_udp_dns
        → let p' = spawn_reply reqwest servfail doh_url payload peer p in
          (length p'.buf ≡ max_udp_dns)
          × (owed p' ≡ owed p ++ record { query = take max_udp_dns payload; peer = peer } ∷ [])
    unfolding spawn_reply
    spawn_reply-owed payload peer p full =
        let (cut, kept) = received payload p.buf full in
        (
          kept,
          ap
                (λ q.
                  tasks reqwest p.answered ++ (p.pending ++ record { query = q; peer = peer } ∷ []))
                cut
              ∙ sym (append_assoc (tasks reqwest p.answered) p.pending _),
        )

    finishes-owed :
        (place : ℕ) (send : Post → Reported reqwest.Response) (p : Proxy reqwest)
        → Perm (owed (step reqwest servfail doh_url (finishes place send) p)) (owed p)
    unfolding step
    finishes-owed place send p =
        let (q, rest) = pull place p.pending in
        reply_task-owed q send (record p { pending = rest }) (pull-perm place p.pending)

    -- Once the loop has ended no query comes in; the tasks under way go on.
    steps-ended :
        (ss : List (Step reqwest)) (p : Proxy reqwest)
        → p.ended ≡ true
        → Perm (owed (steps reqwest servfail doh_url ss p)) (owed p)
    unfolding steps
    steps-ended [] p h = Perm.refl (owed p)
    steps-ended (cancelled ∷ ss) p h = steps-ended ss (record p { ended = true }) refl
    steps-ended (recv_error m ∷ ss) p h = steps-ended ss p h
    steps-ended (datagram payload peer ∷ ss) p h =
        subst (λ x. Perm (owed (steps reqwest servfail doh_url ss x)) (owed p))
          (sym (datagram_lem payload peer p h)) (steps-ended ss p h)
    steps-ended (finishes place send ∷ ss) p h =
        Perm.trans
          (steps-ended ss (step reqwest servfail doh_url (finishes place send) p)
            ((finishes-kept place send p).1 ∙ h))
          (finishes-owed place send p)

    steps-owed :
        (ss : List (Step reqwest)) (p : Proxy reqwest)
        → length p.buf ≡ max_udp_dns
        → p.ended ≡ false
        → Perm (owed (steps reqwest servfail doh_url ss p)) (owed p ++ arrivals reqwest ss)
    unfolding steps arrivals
    steps-owed [] p full going =
        subst (Perm (owed p)) (sym (append-nil (owed p))) (Perm.refl (owed p))
    steps-owed (cancelled ∷ ss) p full going =
        rw (append-nil (owed p)) (steps-ended ss (record p { ended = true }) refl)
    steps-owed (recv_error m ∷ ss) p full going = steps-owed ss p full going
    steps-owed (datagram payload peer ∷ ss) p full going =
        let (kept, more) = spawn_reply-owed payload peer p full in
        subst
          (λ x.
            Perm (owed (steps reqwest servfail doh_url ss x))
              (owed p ++ arrivals reqwest (datagram payload peer ∷ ss)))
          (sym (datagram_lem payload peer p going))
          (subst (Perm _)
            (ap (λ l. l ++ arrivals reqwest ss) more
              ∙ append_assoc (owed p) _ (arrivals reqwest ss))
            (steps-owed ss (spawn_reply reqwest servfail doh_url payload peer p) kept going))
    steps-owed (finishes place send ∷ ss) p full going =
        let (buf, ended) = finishes-kept place send p in
        Perm.trans
          (steps-owed ss (step reqwest servfail doh_url (finishes place send) p)
            (ap length buf ∙ full) (ended ∙ going))
          (Perm.append_right (arrivals reqwest ss) (finishes-owed place send p))

    -- The queries that the loop takes up are the datagrams that come before it ends, each as far as 4096 bytes with its
    -- own sender, and each is in exactly one task, that has ended or is under way. What is sent is what the tasks that
    -- have ended call for, a task at most once, in the order in which they end: any order, and also after the end of
    -- the loop.
    pub steps_lem :
        (ss : List (Step reqwest))
        → let p = steps reqwest servfail doh_url ss (listening reqwest) in
          Perm (tasks reqwest p.answered ++ p.pending) (arrivals reqwest ss)
          × (p.sent ≡ replies reqwest servfail doh_url p.answered)
    steps_lem ss = (
      steps-owed ss (listening reqwest) (length-replicate {A = ℕ} max_udp_dns 0) refl,
      steps-IsAccounted ss (listening reqwest) refl,
    )
