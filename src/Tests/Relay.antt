-- ===== src/Tests/Relay.antt =====
-- A connection to the SOCKS server and its relay, on sample bytes.
use fictional_octo_spork.Prelude.{◌≡◌, refl, false, List, [], ◌∷◌, ◌++◌}
use fictional_octo_spork.Text.{text}
use fictional_octo_spork.Text.Utf8.{is_utf8}
use fictional_octo_spork.Failure.{ok}
use fictional_octo_spork.Util.{ct_eq}
use fictional_octo_spork.Socks.{contains}
use fictional_octo_spork.Socks.Request.{Target, domain}
use fictional_octo_spork.Socks.Serve.{handle_socks_conn}
use fictional_octo_spork.Socks.Serve.Connection.{asking, served_bytes, connection-Relayed}
use fictional_octo_spork.Socks.Pumps.{
  up, down, Event, on, cancelled, sends, closes, copies, sees_end, wakes, start_relay, relay, sent,
}
use fictional_octo_spork.Socks.Pumps.Relayed.{Relayed}
use fictional_octo_spork.Tests.Samples.{alice, open_tor}

-- The client sends two bytes and closes, the other side answers with one, and then the token is cancelled.
abbrev short_talk : List Event
short_talk =
    on up (copies 1)
    ∷ on up (sends (2 ∷ []))
    ∷ on down (sends (9 ∷ []))
    ∷ on up closes
    ∷ on down (copies 1)
    ∷ on up (copies 1)
    ∷ on up sees_end
    ∷ cancelled
    ∷ on down (wakes 0)
    ∷ on up (wakes 0)
    ∷ []

abbrev target : Target
target = domain (text "a.b")

connection-Relayed_example :
    let (r, s) =
      handle_socks_conn open_tor alice
        (asking open_tor alice alice (0x02 ∷ []) target 443 (1 ∷ []) [] 1 [] []) in
    let x = relay short_talk (start_relay s.stream.input) in
    (r ≡ ok tt)
    × (s.dialed ≡ text "a.b" ∷ [])
    × (s.stream.output ≡ [] ++ served_bytes)
    × Relayed x.token ((1 ∷ []) ++ sent up false short_talk) x.upward
    × Relayed x.token (sent down false short_talk) x.downward
unfolding contains ct_eq text is_utf8
connection-Relayed_example =
    connection-Relayed open_tor alice alice (0x02 ∷ []) target 443 (1 ∷ []) [] 1 [] [] short_talk
      refl refl refl refl refl
