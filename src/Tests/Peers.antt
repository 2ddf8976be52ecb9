-- ===== src/Tests/Peers.antt =====
-- Peers of the Tor listener: one that logs in and is relayed, one that does not, and one that comes too late.
use fictional_octo_spork.Prelude.{◌≡◌, refl, true, List, [], ◌∷◌, ◌++◌, All, get_at, some}
use fictional_octo_spork.Text.{Bytes, Text, text}
use fictional_octo_spork.Failure.{good}
use fictional_octo_spork.Text.Utf8.{is_utf8}
use fictional_octo_spork.Util.{ct_eq}
use fictional_octo_spork.Socks.{
  Credentials, Tor, contains, socks5_handshake, subnegotiate, socks5_read_request, read_host_port,
}
use fictional_octo_spork.Socks.Stream.{Conn, conn, read_exact, read_u8, write_all}
use fictional_octo_spork.Socks.Serve.{handle_socks_conn, socks5_send_reply_success}
use fictional_octo_spork.Socks.Handshake.{client_hello}
use fictional_octo_spork.Socks.Pumps.{
  on, start_relay, up, down, sends, copies, wakes, woken, has_returned,
}
use fictional_octo_spork.Socks.Pumps
use fictional_octo_spork.Socks.Serve.Connection.{served_bytes}
use fictional_octo_spork.Socks.Clients.{
  Relaying, relays, Event, accepted, accept_error, serves, acts, cancels, loop_wakes, listening,
  steps, any_cancels,
}
use fictional_octo_spork.Socks.Clients.Served.{Confined, peers-Confined}
use fictional_octo_spork.Socks.Clients.Ends.{own, cancelled_relay_ends}

abbrev any_tor : Tor
any_tor = record {
  TorAddr = Text;
  from = λ hp. good hp.host;
  connect = λ t. good tt;
  debug = λ t. t;
}

abbrev owner : Credentials
owner = record { username = text "u"; password = text "p" }

abbrev peer : Bytes → Conn
peer input = conn input [] 9 (text "reset") (text "broken pipe")

abbrev known_peer : Conn
known_peer =
    peer (client_hello (0x02 ∷ []) owner (0x05 ∷ 1 ∷ 0 ∷ 3 ∷ 1 ∷ b'w' ∷ 0 ∷ 80 ∷ b'h' ∷ []))

abbrev before : List (Event any_tor)
before =
    accepted (peer (0x04 ∷ 0x01 ∷ []))
    ∷ accepted known_peer
    ∷ serves 1 (λ t. good tt)
    ∷ accept_error (text "too many files")
    ∷ acts 1 up (copies 1)
    ∷ serves 0 (λ t. good tt)
    ∷ acts 1 down (sends (1 ∷ 2 ∷ []))
    ∷ []

abbrev after : List (Event any_tor)
after =
    acts 1 up (wakes 0)
    ∷ loop_wakes
    ∷ accepted known_peer
    ∷ acts 0 up (wakes 0)
    ∷ acts 1 down (wakes 1)
    ∷ []

abbrev visits : List (Event any_tor)
visits = before ++ cancels ∷ after

peers-Confined_example :
    let s = steps any_tor owner visits (listening any_tor) in
    (s.cancelled ≡ any_cancels any_tor visits) × All (Confined any_tor owner s.cancelled) s.visitors
peers-Confined_example = peers-Confined any_tor owner visits

-- The peer that is relayed, when the token is cancelled.
abbrev heard : List Pumps.Event
heard = on up (copies 1) ∷ on down (sends (1 ∷ 2 ∷ [])) ∷ []

abbrev relayed : Relaying any_tor
relayed = record {
  peer = known_peer;
  stream = conn (b'h' ∷ []) served_bytes 6 (text "reset") (text "broken pipe");
  dialed = (b'w' ∷ []) ∷ [];
  heard = heard;
  pumps = Pumps.relay heard (start_relay (b'h' ∷ []));
}

cancelled_relay_ends_example :
    (last : Relaying any_tor) × (get_at 1 (steps any_tor owner visits (listening any_tor)).visitors
      ≡ some (relays last))
    × (last.peer ≡ known_peer)
    × (last.dialed ≡ (b'w' ∷ []) ∷ [])
    × (has_returned last.pumps ≡ true)
unfolding steps handle_socks_conn socks5_handshake subnegotiate read_exact read_u8 write_all
    contains ct_eq socks5_read_request read_host_port is_utf8 text socks5_send_reply_success
    Pumps.relay woken own
cancelled_relay_ends_example =
    cancelled_relay_ends any_tor owner before after 1 relayed refl refl refl
