-- ===== src/Ipc/Replies.antt =====
-- What an IPC client is answered, over whole connections.
use mathlib.Core.List.{append_assoc, append-nil}
use fictional_octo_spork.Prelude.{
  ◌≡◌, ◌≢◌, ◌↔◌, ◌∙◌, refl, sym, ap, true, false, Option, none, some, List, [], ◌∷◌, ◌++◌, All,
  arith,
}
use fictional_octo_spork.Text.{Text, text, trim}
use fictional_octo_spork.Failure.{Result, Reported, ok, err, good, failed, ipc}
use fictional_octo_spork.Util.Compare.{ct_eq_iff}
use fictional_octo_spork.Ipc.Messages.{
  Request, auth, status, subscribe_logs, stop, Status, Reply, done, refused, snapshot,
}
use fictional_octo_spork.Ipc.Client.{
  Round, Input, line, Client, Flow, go_on, leave, Ending, waiting, returned, answer, round, proceed,
  handle_client,
}

module _ (decode : Text → Reported Request) where
  -- The reply to a line of a client that is logged in, where there is one reply and the loop goes on.
  abbrev pub reply_to : Reported Request → Status → Option Reply
  reply_to (failed m) s = some (refused m)
  reply_to (good (auth t)) s = some (refused (text "already authenticated"))
  reply_to (good status) s = some (snapshot s)
  reply_to (good subscribe_logs) s = none
  reply_to (good stop) s = none

  abbrev pub decoded : Input → Option (Reported Request)
  decoded (line l) = some (decode (trim l))
  decoded _ = none

  -- A round that is written, with the reply that belongs to it.
  pub record IsTalk (r : Round) (a : Reply) : Type 0 where
    pub request : Reported Request
    pub read : decoded r.input ≡ some request
    pub replied : reply_to request r.shared_status ≡ some a
    pub written : r.write ≡ good tt

  pub data Talk : List Round → List Reply → Type 0 where
    quiet : Talk [] []
    talk :
        {r : Round} {a : Reply} {rs : List Round} {as' : List Reply}
        → IsTalk r a
        → Talk rs as'
        → Talk (r ∷ rs) (a ∷ as')

  round_talk :
      (r : Round) (a : Reply) (c : Client)
      → IsTalk r a
      → c.authed ≡ true
      → round decode r r.input c ≡ (ok go_on, record c { sent = c.sent ++ a ∷ [] })
  unfolding round answer
  round_talk r a c h auth_ok = ground (arith, h.read, h.replied, h.written)

  -- The rounds behind a talk find the client as the talk leaves it.
  pub handle_client-append :
      (c : Client) {rs : List Round} {replies : List Reply} (more : List Round)
      → c.authed ≡ true
      → Talk rs replies
      → handle_client decode (rs ++ more) c
        ≡ handle_client decode more (record c { sent = c.sent ++ replies })
  unfolding handle_client
  handle_client-append c more h quiet = rw append-nil refl
  handle_client-append c more h (talk {r = r} {a = a} {rs = rs} {as' = as'} t ts) =
      rw (round_talk r a c t h) (
        rw (handle_client-append (record c { sent = c.sent ++ a ∷ [] }) more h ts)
          (rw (append_assoc c.sent (a ∷ []) as') refl))

  -- A client that is logged in and neither stops the engine nor subscribes to the log gets exactly the
  -- replies that belong to its lines, in their order, and the connection then waits for the next line.
  pub handle_client-Talk :
      (c : Client) {rs : List Round} {replies : List Reply}
      → c.authed ≡ true
      → Talk rs replies
      → handle_client decode rs c ≡ (waiting, record c { sent = c.sent ++ replies })
  unfolding handle_client
  handle_client-Talk c {rs = rs} h t =
      ap (λ l. handle_client decode l c) (sym (append-nil rs)) ∙ handle_client-append c [] h t

  abbrev stopped : Round → Client → Result Flow × Client
  stopped r c = elim r.write [
    | good t ↦ (ok leave, record c { sent = c.sent ++ done ∷ []; cancelled = true })
    | failed m ↦ (err (ipc m), c)
  ]

  pub round-stop :
      (c : Client) (r : Round) (i : Input)
      → c.authed ≡ true
      → decoded i ≡ some (good stop)
      → round decode r i c ≡ stopped r c
  unfolding round answer
  round-stop c r i a d = ground (arith)

  -- A client that is logged in cancels the engine by a stop exactly if the reply to it could be
  -- written; either way the connection ends there, whatever lines follow.
  pub stop_cancels_iff_written :
      (c : Client) (r : Round) (rs : List Round)
      → c.authed ≡ true
      → c.cancelled ≡ false
      → decoded r.input ≡ some (good stop)
      → (((handle_client decode (r ∷ rs) c).1.cancelled ≡ true) ↔ (r.write ≡ good tt))
        × (handle_client decode (r ∷ rs) c ≡ handle_client decode (r ∷ []) c)
  unfolding handle_client
  stop_cancels_iff_written c r rs a n d = rw (round-stop c r r.input a d) (ground arith)

  -- Lines that are no request.
  abbrev IsMalformed : Round → Type 0
  IsMalformed r = (m : Text) × (decoded r.input ≡ some (failed m))

  round_malformed :
      (c : Client) (r : Round)
      → IsMalformed r
      → (sent : List Reply) × (round decode r r.input c ≡ (ok go_on, record c { sent = sent }))
  unfolding round
  round_malformed c r (m, e) =
      (elim r.write [ good t ↦ c.sent ++ refused m ∷ [] | failed x ↦ c.sent ], ground arith)

  -- A login with the token, if the reply to it can be written.
  pub round-login :
      (c : Client) (r : Round) (i : Input)
      → c.authed ≡ false
      → decoded i ≡ some (good (auth c.expected))
      → r.write ≡ good tt
      → round decode r i c ≡ (ok go_on, record c { authed = true; sent = c.sent ++ done ∷ [] })
  unfolding round answer
  round-login c r i a d w = ground (arith, ct_eq_iff c.expected c.expected)

  -- An error reply, after which the connection ends.
  abbrev turned_away : Round → Text → Client → Result Flow × Client
  turned_away r why c = elim r.write [
    | good t ↦ (ok leave, record c { sent = c.sent ++ refused why ∷ [] })
    | failed m ↦ (err (ipc m), c)
  ]

  round_first :
      (c : Client) (r : Round) (req : Request)
      → c.authed ≡ false
      → decoded r.input ≡ some (good req)
      → req ≢ auth c.expected
      → (why : Text) × (round decode r r.input c ≡ turned_away r why c)
  unfolding round answer
  round_first c r (auth t) a d ne =
      (text "invalid auth token", ground (arith, ct_eq_iff t c.expected))
  round_first c r _ a d ne = (text "auth required", ground arith)

  ends_turned_away :
      (r : Round) (why : Text) (c : Client) (rest : Client → Ending × Client)
      → (outcome : Result (Unit {0})) × (last : Client) × (proceed (turned_away r why c) rest
          ≡ (returned outcome, last))
        × (last.authed ≡ c.authed)
  ends_turned_away r why c rest = go r.write
    where
      go :
          (w : Reported (Unit {0}))
          → (outcome : Result (Unit {0})) × (last : Client) × (proceed
                (turned_away (record r { write = w }) why c)
                rest
              ≡ (returned outcome, last))
            × (last.authed ≡ c.authed)
      go (good t) = (ok tt, record c { sent = c.sent ++ refused why ∷ [] }, refl, refl)
      go (failed m) = (err (ipc m), c, refl, refl)

  -- Lines that are no request leave a connection open that has not logged in, however many they are.
  -- The first request decides: if it is not a login with the token, the connection ends with it, and no
  -- later line is looked at, not even a login.
  pub first_request_decides :
      (ms : List Round) (c : Client) (r : Round) (req : Request) (rs : List Round)
      → c.authed ≡ false
      → All IsMalformed ms
      → decoded r.input ≡ some (good req)
      → req ≢ auth c.expected
      → (outcome : Result (Unit {0})) × (last : Client) × (handle_client decode (ms ++ r ∷ rs) c
          ≡ (returned outcome, last))
        × (handle_client decode ms c
            ≡ (waiting, record c { sent = (handle_client decode ms c).1.sent }))
        × (last.authed ≡ false)
  unfolding handle_client
  first_request_decides [] c r req rs a all d ne =
      let (why, e) = round_first c r req a d ne in
      let (outcome, last, ended, same) = ends_turned_away r why c (handle_client decode rs) in
      (outcome, last, rw e ended, refl, same ∙ a)
  first_request_decides (m ∷ ms) c r req rs a all d ne =
      let (sent, e) = round_malformed c m all.0 in
      rw e (first_request_decides ms (record c { sent = sent }) r req rs a all.1 d ne)
