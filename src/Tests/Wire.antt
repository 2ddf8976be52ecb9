-- ===== src/Tests/Wire.antt =====
-- The SOCKS server, the DNS proxy and the helpers, on sample bytes.
use mathlib.Core.List.{Perm}
use fictional_octo_spork.Prelude.{
  ℕ, ◌≡◌, ◌↔◌, ◌⊎◌, refl, if◌then◌else◌, leb, ltb, ◌<◌, ◌&&◌, Bool, arith, Option, none, some, true,
  List, [], ◌∷◌, ◌++◌, All,
}
use fictional_octo_spork.Text.{Text, Bytes, text}
use fictional_octo_spork.Text.Utf8.{is_utf8}
use fictional_octo_spork.Failure.{failed, good, ok, err, io}
use fictional_octo_spork.Net.{v4, SocketAddr}
use fictional_octo_spork.Util.{ct_eq}
use fictional_octo_spork.Util.Compare.{ct_eq_iff}
use fictional_octo_spork.Runtime.{SocksEndpoint, new_random}
use fictional_octo_spork.Runtime.Endpoints.{Usable, new_random-Usable}
use fictional_octo_spork.Socks.{contains, socks5_handshake, read_host_port}
use fictional_octo_spork.Socks.Stream.{conn, Conn}
use fictional_octo_spork.Socks.Handshake.{client_hello, handshake_answers}
use fictional_octo_spork.Socks.Request.{
  Target, domain, connect_request, address_bytes, to_be_bytes, understood,
  read_host_port-connect_request,
}
use fictional_octo_spork.Socks.Request.Encoded.{IsByte, InRange}
use fictional_octo_spork.Socks.Request.Sound.{read_host_port_sound}
use fictional_octo_spork.Dns.Forward.{Reqwest}
use fictional_octo_spork.Dns.Loop.Tasks.{
  Step, datagram, recv_error, cancelled, finishes, steps, listening, tasks, arrivals, replies,
  networks,
}
use fictional_octo_spork.Dns.Loop.Tasks.Reordered.{steps_lem}
use fictional_octo_spork.Dns.Resolver.{Resolves, steps-Resolves}
use fictional_octo_spork.Dns.Servfail.{Hickory, build_servfail, MessageType, query, response}
use fictional_octo_spork.Tests.Samples.{counting_rng, free_ports, alice}

ct_eq_iff_example : (ct_eq (text "token") (text "token") ≡ true) ↔ (text "token" ≡ text "token")
ct_eq_iff_example = ct_eq_iff (text "token") (text "token")

new_random-Usable_example :
    ((m : Text) × (free_ports.bind_local 3 ≡ failed m)
      × (new_random counting_rng free_ports 3 44 ≡ err (io m)))
    ⊎ ((port : ℕ) × (e : SocksEndpoint) × (free_ports.bind_local 3 ≡ good port)
        × (new_random counting_rng free_ports 3 44 ≡ ok e)
        × Usable port e)
new_random-Usable_example = new_random-Usable counting_rng free_ports 3 44

abbrev hello : Bytes
hello = client_hello (0x00 ∷ 0x02 ∷ []) alice []

abbrev logged_in : Conn
logged_in = conn [] (0x05 ∷ 0x02 ∷ 0x01 ∷ 0x00 ∷ []) 3 [] []

handshake_answers_example : socks5_handshake alice (conn hello [] 5 [] []) ≡ (ok tt, logged_in)
unfolding contains ct_eq text
handshake_answers_example = handshake_answers alice alice (0x00 ∷ 0x02 ∷ []) [] [] 3 [] []

read_host_port-connect_request_example :
    read_host_port (conn (connect_request (domain (text "a.b")) 443 (0x16 ∷ [])) [] 3 [] [])
    ≡ (ok (record { host = text "a.b"; port = 443 }), conn (0x16 ∷ []) [] 3 [] [])
unfolding is_utf8 text
read_host_port-connect_request_example =
    read_host_port-connect_request (domain (text "a.b")) 443 (0x16 ∷ []) [] 3 [] []

abbrev asked : Conn
asked = conn (connect_request (domain (text "a.b")) 443 (0x16 ∷ [])) [] 3 [] []

abbrev all_bytes : Bytes → Bool
all_bytes [] = true
all_bytes (b ∷ l) = ltb b 256 && all_bytes l

every-IsByte : (l : Bytes) → all_bytes l ≡ true → All IsByte l
every-IsByte [] h = tt
every-IsByte (b ∷ l) h = (ground arith, every-IsByte l (ground arith))

read_host_port_sound_example :
    (target : Target) × (reserved : ℕ) × (port : ℕ) × InRange target
    × (port < 65536)
    × (asked.input ≡ 0x05 ∷ 0x01 ∷ reserved ∷ address_bytes target (to_be_bytes port (0x16 ∷ [])))
    × (understood target port ≡ ok (record { host = text "a.b"; port = 443 }))
    × ([] ≡ asked.output)
unfolding is_utf8 text
read_host_port_sound_example =
    read_host_port_sound asked {c' = conn (0x16 ∷ []) [] 3 [] []} (every-IsByte asked.input refl)
      (read_host_port-connect_request (domain (text "a.b")) 443 (0x16 ∷ []) [] 3 [] [])

-- A message library whose messages are their fields. Two bytes are a query of one question; four are a response
-- to one, which is all that it can write.
record Plain : Type 0 where
  id : ℕ
  kind : MessageType
  op : ℕ
  code : ℕ
  questions : List ℕ

abbrev read_plain : Bytes → Option Plain
read_plain (i ∷ q ∷ []) =
    some (record { id = i; kind = query; op = 0; code = 0; questions = q ∷ [] })
read_plain (i ∷ o ∷ c ∷ q ∷ []) =
    some (record { id = i; kind = response; op = o; code = c; questions = q ∷ [] })
read_plain _ = none

abbrev write_fields : ℕ → ℕ → ℕ → MessageType → List ℕ → Option Bytes
write_fields i o c response (q ∷ []) = some (i ∷ o ∷ c ∷ q ∷ [])
write_fields _ _ _ _ _ = none

abbrev write_plain : Plain → Option Bytes
write_plain m = write_fields m.id m.op m.code m.kind m.questions

abbrev plain : Hickory
plain = record {
  Message = Plain;
  OpCode = ℕ;
  ResponseCode = ℕ;
  Query = ℕ;
  serv_fail = 2;
  id = λ m. m.id;
  message_type = λ m. m.kind;
  op_code = λ m. m.op;
  response_code = λ m. m.code;
  queries = λ m. m.questions;
  new = λ i t o. record { id = i; kind = t; op = o; code = 0; questions = [] };
  set_response_code = λ r m. record m { code = r };
  add_query = λ q m. record m { questions = m.questions ++ q ∷ [] };
  from_vec = read_plain;
  to_vec = write_plain;
  queries-new = λ i t o. refl;
  header-new = λ i t o. (refl, refl, refl);
  header-set = λ r m. (refl, refl, refl, refl, refl);
  header-add = λ q m. (refl, refl, refl, refl, refl);
}

abbrev peer : SocketAddr
peer = record { ip = v4 10 0 0 3; port = 5353 }

abbrev no_servfail : Bytes → Option Bytes
no_servfail q = some (0xff ∷ q)

abbrev doh : Text
doh = text "https://dns.example/dns-query"

-- A response is its status and its body.
abbrev responses : Reqwest
responses = record {
  Response = ℕ × Bytes;
  error_for_status = λ r. if leb 400 r.0 then failed (text "HTTP status error") else good r;
  bytes = λ r. good r.1;
}

-- Two queries whose tasks end the other way round, the second behind the end of the loop, and a query too late.
abbrev queries : List (Step responses)
queries =
    datagram (1 ∷ 2 ∷ []) peer
    ∷ recv_error []
    ∷ datagram (3 ∷ []) peer
    ∷ finishes 1 (λ post. good (503, post.body))
    ∷ cancelled
    ∷ datagram (4 ∷ []) peer
    ∷ finishes 0 (λ post. good (200, 7 ∷ post.body))
    ∷ []

steps_lem_example :
    let p = steps responses no_servfail doh queries (listening responses) in
    Perm (tasks responses p.answered ++ p.pending) (arrivals responses queries)
    × (p.sent ≡ replies responses no_servfail doh p.answered)
steps_lem_example = steps_lem responses no_servfail doh queries

steps-Resolves_example :
    let p = steps responses (build_servfail plain) doh queries (listening responses) in
    All
      (Resolves responses plain doh
        (arrivals responses queries)
        (networks responses queries)
        p.answered)
      p.sent
steps-Resolves_example = steps-Resolves responses plain doh queries
