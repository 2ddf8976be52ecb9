-- ===== src/Dns/Resolver.antt =====
-- rust/core/src/dns.rs as a resolver: the loop and its tasks, the requests that they make, and the SERVFAIL that answers
-- where a request fails, together.
use mathlib.Core.List.{Mem, mem-cons_of_mem, mem-cons_self, mem-append_left}
use mathlib.Core.List.Perm
use fictional_octo_spork.Prelude.{
  ◌≡◌, ◌⊎◌, inl, inr, refl, sym, subst, Option, none, some, List, [], ◌∷◌, All, All-append, arith,
}
use fictional_octo_spork.Text.{Bytes, Text, text}
use fictional_octo_spork.Failure.{Reported, Result, Error, ok, err, good, failed}
use fictional_octo_spork.Net.{SocketAddr}
use fictional_octo_spork.Dns.Forward.{Post, Reqwest, forward_doh}
use fictional_octo_spork.Dns.Servfail.{Hickory, response, build_servfail, build_servfail_lem}
use fictional_octo_spork.Dns.Loop.{reply_for, listed}
use fictional_octo_spork.Dns.Loop.Tasks.{
  Query, Step, Answered, listening, reply, replies, steps, arrivals, tasks, networks,
}
use fictional_octo_spork.Dns.Loop.Tasks.Met.{steps-AllMet}
use fictional_octo_spork.Dns.Loop.Tasks.Reordered.{steps_lem}

Reported-cases :
    {A : Type 0} (r : Reported A) → ((a : A) × (r ≡ good a)) ⊎ ((m : Text) × (r ≡ failed m))
Reported-cases (good a) = inl (a, refl)
Reported-cases (failed m) = inr (m, refl)

module _ (reqwest : Reqwest) (h : Hickory) (doh_url : Text) where
  -- The request for a query: a POST to the DoH server, with the query as its body.
  abbrev pub asks : Bytes → Post
  asks query = record {
    url = doh_url;
    headers =
        (text "accept", text "application/dns-message")
        ∷ (text "content-type", text "application/dns-message")
        ∷ [];
    body = query;
  }

  -- The answer is the body of the response to the request for the query, with a status that is no error.
  abbrev pub Upstream : (Post → Reported reqwest.Response) → Bytes → Bytes → Type 0
  Upstream send query answer =
      (sent : reqwest.Response) × (resp : reqwest.Response) × (send (asks query) ≡ good sent)
      × (reqwest.error_for_status sent ≡ good resp)
      × (reqwest.bytes resp ≡ good answer)

  -- The request for the query got no response, or one whose status is an error or whose body cannot be read.
  abbrev pub NoUpstream : (Post → Reported reqwest.Response) → Bytes → Type 0
  NoUpstream send query =
      ((m : Text) × (send (asks query) ≡ failed m))
      ⊎ ((sent : reqwest.Response) × (send (asks query) ≡ good sent)
          × (((m : Text) × (reqwest.error_for_status sent ≡ failed m))
              ⊎ ((resp : reqwest.Response) × (m : Text) × (reqwest.error_for_status sent
                    ≡ good resp)
                  × (reqwest.bytes resp ≡ failed m))))

  -- The answer is what the message library writes for a SERVFAIL for the query.
  abbrev pub IsServfail : Bytes → Bytes → Type 0
  IsServfail query answer =
      (asked : h.Message) × (m : h.Message) × (h.from_vec query ≡ some asked)
      × (h.to_vec m ≡ some answer)
      × (h.id m ≡ h.id asked)
      × (h.message_type m ≡ response)
      × (h.op_code m ≡ h.op_code asked)
      × (h.response_code m ≡ h.serv_fail)
      × (h.queries m ≡ h.queries asked)

  -- What was sent answers one of the queries, and went to the one who asked it, as the network answered its request.
  abbrev pub Resolves :
      List Query
      → List (Post → Reported reqwest.Response)
      → List (Answered reqwest)
      → SocketAddr × Bytes
      → Type 0
  Resolves asked outcomes ended (peer, answer) =
      (a : Answered reqwest) × Mem a ended
      × Mem a.task asked
      × Mem a.send outcomes
      × (a.task.peer ≡ peer)
      × (Upstream a.send a.task.query answer
          ⊎ (NoUpstream a.send a.task.query × IsServfail a.task.query answer))

  forward_doh-Upstream :
      (send : Post → Reported reqwest.Response) (query : Bytes) {answer : Bytes}
      → forward_doh reqwest send doh_url query ≡ ok answer
      → Upstream send query answer
  unfolding forward_doh
  forward_doh-Upstream send query e = elim (Reported-cases (send (asks query))) [
    | inr (m, s) ↦ absurd (ground (arith, s))
    | inl (sent, s) ↦ elim (Reported-cases (reqwest.error_for_status sent)) [
      | inr (m, t) ↦ absurd (ground (arith, s, t))
      | inl (resp, t) ↦ elim (Reported-cases (reqwest.bytes resp)) [
        | inr (m, b) ↦ absurd (ground (arith, s, t, b))
        | inl (body, b) ↦ (sent, resp, s, t, ground (arith, s, t, b))
      ]
    ]
  ]

  build_servfail-IsServfail :
      (query answer : Bytes) → build_servfail h query ≡ some answer → IsServfail query answer
  unfolding build_servfail
  build_servfail-IsServfail query answer e = go (h.from_vec query) refl e
    where
      go :
          (o : Option h.Message)
          → h.from_vec query ≡ o
          → build_servfail h query ≡ some answer
          → IsServfail query answer
      go none f e = absurd (cc)
      go (some asked) f e =
          let (m, back, i, t, o, c, qs) = build_servfail_lem h query answer asked f e in
          (asked, m, f, back, i, t, o, c, qs)

  forward_doh-NoUpstream :
      (send : Post → Reported reqwest.Response) (query : Bytes) {e : Error}
      → forward_doh reqwest send doh_url query ≡ err e
      → NoUpstream send query
  unfolding forward_doh
  forward_doh-NoUpstream send query e = elim (Reported-cases (send (asks query))) [
    | inr (m, s) ↦ inl (m, s)
    | inl (sent, s) ↦ elim (Reported-cases (reqwest.error_for_status sent)) [
      | inr (m, t) ↦ inr (sent, s, inl (m, t))
      | inl (resp, t) ↦ elim (Reported-cases (reqwest.bytes resp)) [
        | inr (m, b) ↦ inr (sent, s, inr (resp, m, t, b))
        | inl (body, b) ↦ absurd (ground (arith, s, t, b))
      ]
    ]
  ]

  module _ (asked : List Query) (outcomes : List (Post → Reported reqwest.Response))
      (ended : List (Answered reqwest)) where
    reply-Resolves :
        (a : Answered reqwest)
        → Mem a ended
        → Mem a.task asked
        → Mem a.send outcomes
        → All (Resolves asked outcomes ended) (reply reqwest (build_servfail h) doh_url a)
    unfolding reply_for
    reply-Resolves a was mem met = go (forward_doh reqwest a.send doh_url a.task.query) refl
      where
        go :
            (r : Result Bytes)
            → forward_doh reqwest a.send doh_url a.task.query ≡ r
            → All (Resolves asked outcomes ended) (
                listed reqwest
                  (build_servfail h)
                  doh_url
                  a.task.peer
                  (reply_for reqwest (build_servfail h) doh_url a.task.query r))
        go (ok answer) e =
            ((a, was, mem, met, refl, inl (forward_doh-Upstream a.send a.task.query e)), tt)
        go (err x) e = refused (build_servfail h a.task.query) refl
          where
            refused :
                (o : Option Bytes)
                → build_servfail h a.task.query ≡ o
                → All
                    (Resolves asked outcomes ended)
                    (listed reqwest (build_servfail h) doh_url a.task.peer o)
            refused none f = tt
            refused (some answer) f = (
              (
                a,
                was,
                mem,
                met,
                refl,
                inr (
                  forward_doh-NoUpstream a.send a.task.query e,
                  build_servfail-IsServfail a.task.query answer f,
                ),
              ),
              tt,
            )

    replies-Resolves :
        (xs : List (Answered reqwest))
        → ((a : Answered reqwest) → Mem a xs → Mem a ended)
        → ((q : Query) → Mem q (tasks reqwest xs) → Mem q asked)
        → All (λ a. Mem a.send outcomes) xs
        → All (Resolves asked outcomes ended) (replies reqwest (build_servfail h) doh_url xs)
    replies-Resolves [] g f k = tt
    replies-Resolves (a ∷ xs) g f k =
        All-append (Resolves asked outcomes ended) (reply reqwest (build_servfail h) doh_url a) _
          (reply-Resolves a (g a mem-cons_self) (f a.task mem-cons_self) k.0)
          (replies-Resolves xs (λ b m. g b (mem-cons_of_mem _ m)) (λ q m. f q (mem-cons_of_mem _ m))
            k.1)

  -- Everything that the proxy sends, whatever the network does with its requests and in whatever order they end,
  -- answers a query that came in before the loop ended, and goes to the one who asked it: it is the body of the
  -- response that the network gave, as that query's task ended, to a POST of that query to the DoH server, or, where it
  -- gave none, or one with an error for its status or with no body, what the message library writes for the SERVFAIL
  -- for that query, with its id and its questions.
  pub steps-Resolves :
      (ss : List (Step reqwest))
      → let p = steps reqwest (build_servfail h) doh_url ss (listening reqwest) in
        All (Resolves (arrivals reqwest ss) (networks reqwest ss) p.answered) p.sent
  steps-Resolves ss =
      let p = steps reqwest (build_servfail h) doh_url ss (listening reqwest) in
      let (owed, sent) = steps_lem reqwest (build_servfail h) doh_url ss in
      let met =
        steps-AllMet reqwest (build_servfail h) doh_url (networks reqwest ss) ss (listening reqwest)
          (λ s m. m) tt in
      subst (All (Resolves (arrivals reqwest ss) (networks reqwest ss) p.answered)) (sym sent) (
        replies-Resolves (arrivals reqwest ss) (networks reqwest ss) p.answered p.answered
          (λ a m. m) (λ q m. Perm.subset owed q (mem-append_left p.pending m)) met)
