-- ===== src/Ipc/Framing/Conversation.antt =====
-- Whole conversations, from the bytes that a peer sends to the bytes that it gets.
use mathlib.Core.List.{append_assoc, append-nil}
use fictional_octo_spork.Prelude.{
  ℕ, ◌≡◌, refl, sym, ap, ◌∙◌, true, false, if◌then◌else◌, ◌==◌, some, List, [], ◌∷◌, ◌++◌, map,
  arith,
}
use fictional_octo_spork.Text.{Text, Bytes, trim}
use fictional_octo_spork.Text.Trim.{trim_object}
use fictional_octo_spork.Failure.{Reported, ok, good}
use fictional_octo_spork.Ipc.Messages.{Request, auth, stop, Reply, done}
use fictional_octo_spork.Ipc.Client.{Round, line, Client, connect, returned, handle_client}
use fictional_octo_spork.Ipc.Replies.{
  reply_to, decoded, Talk, quiet, talk, handle_client-append, round-login, round-stop,
}
use fictional_octo_spork.Ipc.Framing.{
  LineReader, Json, Moment, one_line, rounds, frame, wire, input_of,
}

-- The ended lines of what a peer gets, after some bytes of the first one.
lines_behind : Bytes → Bytes → List Bytes
lines_behind held [] = []
lines_behind held (b ∷ bs) =
    if b == b'\n' then held ∷ lines_behind [] bs else lines_behind (held ++ b ∷ []) bs

unfoldable pub lines : Bytes → List Bytes
unfolding lines_behind
lines = lines_behind []

line_head : (b : ℕ) (l : Bytes) → one_line (b ∷ l) ≡ true → (b == b'\n') ≡ false
line_head b l h = ground arith

line_tail : (b : ℕ) (l : Bytes) → one_line (b ∷ l) ≡ true → one_line l ≡ true
line_tail b l h = ground arith

lines_behind_lem :
    (held l rest : Bytes)
    → one_line l ≡ true
    → lines_behind held (l ++ b'\n' ∷ rest) ≡ (held ++ l) ∷ lines_behind [] rest
unfolding lines_behind
lines_behind_lem held [] rest h = rw append-nil refl
lines_behind_lem held (b ∷ l) rest h =
    rw (line_head b l h)
      (lines_behind_lem (held ++ b ∷ []) l rest (line_tail b l h) ∙ rw append_assoc refl)

module _ (json : Json) where
  -- What a peer reads.
  abbrev pub replies_of : Bytes → List (Reported Reply)
  replies_of bs = map json.from_slice (lines bs)

  -- Every reply takes one line, and is read back as it was sent, in order.
  pub replies_of-wire : (as' : List Reply) → replies_of (wire json as') ≡ map good as'
  unfolding wire lines frame lines_behind
  replies_of-wire [] = refl
  replies_of-wire (a ∷ as') = rw append_assoc (
      rw (lines_behind_lem [] (json.to_vec a) (wire json as') (json.reply_line a))
        (rw (json.reply_back a) (ap (λ l. good a ∷ l) (replies_of-wire as'))))

  -- What a peer sends to ask something.
  unfoldable pub asks : List Request → Bytes
  asks [] = []
  asks (q ∷ qs) = json.to_string q ++ b'\n' ∷ asks qs

-- What a client that is logged in asks, meanwhile in the process, and the replies that belong to it.
pub data Exchange (decode : Text → Reported Request)
    : List Request → List Moment → List Reply → Type 0 where
  silent : Exchange decode [] [] []
  asked :
      {q : Request} {m : Moment} {a : Reply} {qs : List Request} {ms : List Moment}
      {as' : List Reply}
      → reply_to decode (good q) m.shared_status ≡ some a
      → m.write ≡ good tt
      → Exchange decode qs ms as'
      → Exchange decode (q ∷ qs) (m ∷ ms) (a ∷ as')

module _ (reader : LineReader) (json : Json) where
  abbrev round_of : Request → Moment → Round
  round_of q m = record {
    input = line (json.to_string q ++ b'\n' ∷ []);
    shared_status = m.shared_status;
    write = m.write;
  }

  rounds_ask :
      (q : Request) (m : Moment) (ms : List Moment) (more : Bytes)
      → rounds reader (m ∷ ms) (json.to_string q ++ b'\n' ∷ more)
        ≡ round_of q m ∷ rounds reader ms more
  unfolding rounds input_of
  rounds_ask q m ms more =
      rw (reader.whole_line (json.to_string q) more (json.request_line q).0 (json.request_line q).1)
        (ground arith)

  decoded_ask :
      (q : Request) (m : Moment) → decoded json.from_str (round_of q m).input ≡ some (good q)
  decoded_ask q m =
      let (m', e) = json.request_object q in
      ap (λ t. some (json.from_str t))
        (ap (λ t. trim (t ++ b'\n' ∷ [])) e ∙ rw append_assoc (trim_object m') ∙ sym e)
      ∙ ap some (json.request_back q)

  rounds-Talk :
      {qs : List Request} {ms : List Moment} {as' : List Reply}
      → Exchange json.from_str qs ms as'
      → (later : List Moment) (more : Bytes)
      → (rs : List Round) × Talk json.from_str rs as'
        × (rounds reader (ms ++ later) (asks json qs ++ more) ≡ rs ++ rounds reader later more)
  unfolding asks
  rounds-Talk silent later more = ([], quiet, refl)
  rounds-Talk (asked {q = q} {m = m} {qs = qs} {ms = ms} r w e) later more =
      let (rs, t, same) = rounds-Talk e later more in
      (
        round_of q m ∷ rs,
        talk (record { request = good q; read = decoded_ask q m; replied = r; written = w }) t,
        rw append_assoc (
            rw (rounds_ask q m (ms ++ later) (asks json qs ++ more))
              (ap (λ l. round_of q m ∷ l) same)),
      )

  -- A login, what is asked behind it, and the rounds behind that.
  logged_in :
      (token : Text) {qs : List Request} {ms : List Moment} {as' : List Reply} (first : Moment)
      (later : List Moment) (more : Bytes)
      → first.write ≡ good tt
      → Exchange json.from_str qs ms as'
      → let c = connect token in
        handle_client json.from_str
          (rounds reader (first ∷ (ms ++ later)) (asks json (auth token ∷ qs) ++ more))
          c
        ≡ handle_client json.from_str
            (rounds reader later more)
            (record c { authed = true; sent = done ∷ as' })
  unfolding handle_client asks
  logged_in token {qs = qs} {ms = ms} {as' = as'} first later more w e =
      let (rs, t, same) = rounds-Talk e later more in
      let c = connect token in
      rw append_assoc (
        rw (rounds_ask (auth token) first (ms ++ later) (asks json qs ++ more)) (
          rw
            (round-login json.from_str c (round_of (auth token) first)
              (round_of (auth token) first).input refl (decoded_ask (auth token) first) w)
            (rw same (
              handle_client-append json.from_str (record c { authed = true; sent = done ∷ [] })
                (rounds reader later more) refl t))))

  stops :
      (c : Client) (m : Moment) (later : List Moment) (more : Bytes)
      → c.authed ≡ true
      → m.write ≡ good tt
      → handle_client json.from_str (rounds reader (m ∷ later) (asks json (stop ∷ []) ++ more)) c
        ≡ (returned (ok tt), record c { sent = c.sent ++ done ∷ []; cancelled = true })
  unfolding handle_client asks
  stops c m later more a w = rw append_assoc (
      rw (rounds_ask stop m later more) (
        rw
          (round-stop json.from_str c (round_of stop m) (round_of stop m).input a
            (decoded_ask stop m))
          (rw w refl)))

  -- Over the bytes of a connection: a peer that sends the token and then asks for the status or logs in again, one
  -- request a line, is logged in and reads back, reply by reply, that it is, and the answers to what it asked, where
  -- every write succeeds and each status is that of its moment. What follows is served as the same client. A stop
  -- behind that is answered as the last of the replies, cancels the engine and ends the connection.
  pub conversation :
      (token : Text) {qs : List Request} {ms : List Moment} {as' : List Reply} (first last : Moment)
      (later : List Moment) (more : Bytes)
      → first.write ≡ good tt
      → last.write ≡ good tt
      → Exchange json.from_str qs ms as'
      → let c = connect token in
        let in_talk : Client = record c { authed = true; sent = done ∷ as' } in
        let over : Client = record in_talk { sent = done ∷ (as' ++ done ∷ []); cancelled = true } in
        (handle_client json.from_str
            (rounds reader (first ∷ (ms ++ later)) (asks json (auth token ∷ qs) ++ more))
            c
          ≡ handle_client json.from_str (rounds reader later more) in_talk)
        × (handle_client json.from_str
              (rounds reader
                (first ∷ (ms ++ last ∷ later))
                (asks json (auth token ∷ qs) ++ (asks json (stop ∷ []) ++ more)))
              c
            ≡ (returned (ok tt), over))
        × (replies_of json (wire json in_talk.sent) ≡ map good in_talk.sent)
        × (replies_of json (wire json over.sent) ≡ map good over.sent)
  conversation token first last later more w w' e = (
    logged_in token first later more w e,
    logged_in token first (last ∷ later) (asks json (stop ∷ []) ++ more) w e
        ∙ stops _ last later more refl w',
    replies_of-wire json _,
    replies_of-wire json _,
  )
