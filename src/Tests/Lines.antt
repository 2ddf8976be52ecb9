-- ===== src/Tests/Lines.antt =====
-- Readers and formats for the bytes of an IPC connection, and a conversation in them.
use mathlib.Core.List.{append_assoc}
use fictional_octo_spork.Prelude.{
  ℕ, zero, suc, ◌+◌, ◌≡◌, refl, ap, ◌∙◌, Bool, true, false, if◌then◌else◌, ◌==◌, Option, none, some,
  List, [], ◌∷◌, ◌++◌, map, length, length-append, take, drop, take-append, drop-append, replicate,
  arith,
}
use fictional_octo_spork.Text.{Text, Bytes, text}
use fictional_octo_spork.Text.Utf8.{is_utf8}
use fictional_octo_spork.Failure.{Reported, ok, good, failed}
use fictional_octo_spork.Ipc.Messages.{
  Request, auth, status, subscribe_logs, stop, Status, idle_status, Reply, done, refused, snapshot,
  log,
}
use fictional_octo_spork.Ipc.Framing.{LineReader, Json, Moment, one_line, rounds, wire}
use fictional_octo_spork.Ipc.Framing.Conversation.{replies_of, asks, silent, asked, conversation}
use fictional_octo_spork.Ipc.Client.{Client, connect, handle_client, returned}

-- A line before its end, its end if it has one, and what follows.
abbrev cut : Bytes → Bytes × Bytes × Bytes
cut [] = ([], [], [])
cut (b ∷ bs) =
    let (before, ending, rest) = cut bs in
    if b == b'\n' then ([], b ∷ [], bs) else (b ∷ before, ending, rest)

cut_line : (l rest : Bytes) → one_line l ≡ true → cut (l ++ b'\n' ∷ rest) ≡ (l, b'\n' ∷ [], rest)
cut_line [] rest h = refl
cut_line (b ∷ l) rest h = ground (arith, cut_line l rest)

abbrev read_cut : Bytes × Bytes × Bytes → Reported (ℕ × Text) × Bytes
read_cut (before, ending, rest) = (
  if is_utf8 before
      then good (length (before ++ ending), before ++ ending)
      else failed (text "stream did not contain valid UTF-8"),
  rest,
)

abbrev plain_reader : LineReader
plain_reader = record {
  read_line = λ bs. read_cut (cut bs);
  whole_line = λ l rest h u. rw (cut_line l rest h) (rw u (rw length-append refl));
}

-- Numbers in unary, each with a comma behind it.
abbrev unary : List ℕ → Text
unary [] = []
unary (n ∷ ns) = replicate n b'x' ++ b',' ∷ unary ns

abbrev numbers : ℕ → Text → List ℕ
numbers k [] = []
numbers k (c ∷ cs) =
    let on = numbers (k + 1) cs in
    let fresh = numbers 0 cs in if c == b'x' then on else if c == b',' then k ∷ fresh else fresh

numbers_one :
    (n k : ℕ) (s : Text) → numbers k (replicate n b'x' ++ b',' ∷ s) ≡ (k + n) ∷ numbers 0 s
numbers_one zero k s = ap (λ i. i ∷ numbers 0 s) (omega arith)
numbers_one (suc n) k s = numbers_one n (k + 1) s ∙ ap (λ i. i ∷ numbers 0 s) (omega arith)

numbers-unary : (ns : List ℕ) → numbers 0 (unary ns ++ b'}' ∷ []) ≡ ns
numbers-unary [] = refl
numbers-unary (n ∷ ns) = rw append_assoc (
    rw (numbers_one n 0 (unary ns ++ b'}' ∷ []))
      (rw (numbers-unary ns) (ap (λ i. i ∷ ns) (omega arith))))

one_line-unary : (ns : List ℕ) → one_line (unary ns ++ b'}' ∷ []) ≡ true
one_line-unary [] = refl
one_line-unary (zero ∷ ns) = one_line-unary ns
one_line-unary (suc n ∷ ns) = one_line-unary (n ∷ ns)

is_utf8-unary : (ns : List ℕ) → is_utf8 (unary ns ++ b'}' ∷ []) ≡ true
unfolding is_utf8
is_utf8-unary [] = refl
is_utf8-unary (zero ∷ ns) = is_utf8-unary ns
is_utf8-unary (suc n ∷ ns) = is_utf8-unary (n ∷ ns)

is_utf8_object : (s : Text) → is_utf8 s ≡ true → is_utf8 (b'{' ∷ s) ≡ true
unfolding is_utf8
is_utf8_object s h = h

abbrev object : List ℕ → Text
object ns = b'{' ∷ (unary ns ++ b'}' ∷ [])

abbrev request_numbers : Request → List ℕ
request_numbers (auth token) = 0 ∷ token
request_numbers status = 1 ∷ []
request_numbers subscribe_logs = 2 ∷ []
request_numbers stop = 3 ∷ []

abbrev as_request : List ℕ → Reported Request
as_request (zero ∷ token) = good (auth token)
as_request (suc zero ∷ ns) = good status
as_request (suc (suc zero) ∷ ns) = good subscribe_logs
as_request (suc (suc (suc zero)) ∷ ns) = good stop
as_request _ = failed (text "unknown variant")

as_request_back : (q : Request) → as_request (request_numbers q) ≡ good q
as_request_back (auth token) = refl
as_request_back status = refl
as_request_back subscribe_logs = refl
as_request_back stop = refl

abbrev optional : Option Text → List ℕ → List ℕ
optional none rest = 0 ∷ rest
optional (some t) rest = suc (length t) ∷ (t ++ rest)

abbrev as_optional : List ℕ → Option Text × List ℕ
as_optional [] = (none, [])
as_optional (zero ∷ rest) = (none, rest)
as_optional (suc n ∷ rest) = (some (take n rest), drop n rest)

as_optional_back : (o : Option Text) (rest : List ℕ) → as_optional (optional o rest) ≡ (o, rest)
as_optional_back none rest = refl
as_optional_back (some t) rest = rw take-append (rw drop-append refl)

abbrev status_numbers : Status → List ℕ
status_numbers s =
    (if s.running then 1 else 0)
    ∷ optional s.pt_provider (optional s.pt_socks (optional s.arti_socks (optional s.tun_addr [])))

abbrev as_status : List ℕ → Status
as_status [] = idle_status
as_status (b ∷ ns) =
    let (pt_provider, ns1) = as_optional ns in
    let (pt_socks, ns2) = as_optional ns1 in
    let (arti_socks, ns3) = as_optional ns2 in
    let (tun_addr, ns4) = as_optional ns3 in
    record {
      running = b == 1;
      pt_provider = pt_provider;
      pt_socks = pt_socks;
      arti_socks = arti_socks;
      tun_addr = tun_addr;
    }

as_bool_back : (b : Bool) → ((if b then 1 else 0) == 1) ≡ b
as_bool_back true = refl
as_bool_back false = refl

as_status_back : (s : Status) → as_status (status_numbers s) ≡ s
as_status_back s = simp (as_optional_back, as_bool_back)

abbrev reply_numbers : Reply → List ℕ
reply_numbers done = 0 ∷ []
reply_numbers (refused message) = 1 ∷ message
reply_numbers (snapshot s) = 2 ∷ status_numbers s
reply_numbers (log entry) = 3 ∷ entry

abbrev as_reply : List ℕ → Reported Reply
as_reply (zero ∷ ns) = good done
as_reply (suc zero ∷ message) = good (refused message)
as_reply (suc (suc zero) ∷ ns) = good (snapshot (as_status ns))
as_reply (suc (suc (suc zero)) ∷ entry) = good (log entry)
as_reply _ = failed (text "unknown variant")

as_reply_back : (a : Reply) → as_reply (reply_numbers a) ≡ good a
as_reply_back done = refl
as_reply_back (refused message) = refl
as_reply_back (snapshot s) = rw as_status_back refl
as_reply_back (log entry) = refl

abbrev unary_json : Json
unary_json = record {
  from_str = λ t. as_request (numbers 0 t);
  to_string = λ q. object (request_numbers q);
  to_vec = λ a. object (reply_numbers a);
  from_slice = λ bs. as_reply (numbers 0 bs);
  request_back = λ q. ap as_request (numbers-unary (request_numbers q)) ∙ as_request_back q;
  request_object = λ q. (unary (request_numbers q), refl);
  request_line = λ q.
      (one_line-unary (request_numbers q), is_utf8_object _ (is_utf8-unary (request_numbers q)));
  reply_back = λ a. ap as_reply (numbers-unary (reply_numbers a)) ∙ as_reply_back a;
  reply_line = λ a. one_line-unary (reply_numbers a);
}

abbrev moment : Moment
moment = record { shared_status = idle_status; write = good tt }

-- The token, a question, a second login, and then a stop or silence.
conversation_example :
    let c = connect (text "t") in
    let in_talk : Client = record c {
      authed = true;
      sent = done ∷ snapshot idle_status ∷ refused (text "already authenticated") ∷ [];
    } in
    let over : Client = record in_talk { sent = in_talk.sent ++ done ∷ []; cancelled = true } in
    let questions : List Request = auth (text "t") ∷ status ∷ auth (text "u") ∷ [] in
    (handle_client unary_json.from_str
        (rounds plain_reader
          (moment ∷ moment ∷ moment ∷ moment ∷ [])
          (asks unary_json questions ++ b'x' ∷ []))
        c
      ≡ handle_client unary_json.from_str (rounds plain_reader (moment ∷ []) (b'x' ∷ [])) in_talk)
    × (handle_client unary_json.from_str
          (rounds plain_reader
            (moment ∷ moment ∷ moment ∷ moment ∷ moment ∷ [])
            (asks unary_json questions ++ (asks unary_json (stop ∷ []) ++ b'x' ∷ [])))
          c
        ≡ (returned (ok tt), over))
    × (replies_of unary_json (wire unary_json in_talk.sent) ≡ map good in_talk.sent)
    × (replies_of unary_json (wire unary_json over.sent) ≡ map good over.sent)
conversation_example =
    conversation plain_reader unary_json (text "t") moment moment (moment ∷ []) (b'x' ∷ []) refl
      refl (asked refl refl (asked refl refl silent))
