-- ===== src/Tests/Tor.antt =====
-- The Arti task, before a Tor network that grants every request.
use fictional_octo_spork.Prelude.{ℕ, ◌≡◌, ◌≢◌, ◌⊎◌, ◌↔◌, none, some, true, List, [], ◌∷◌, All}
use fictional_octo_spork.Text.{Text, text}
use fictional_octo_spork.Failure.{Error, good, ok, err}
use fictional_octo_spork.Net.{v4}
use fictional_octo_spork.Runtime.{SocksEndpoint}
use fictional_octo_spork.Socks.{HostPort}
use fictional_octo_spork.Socks.Stream.{conn}
use fictional_octo_spork.Socks.Handshake.{client_hello}
use fictional_octo_spork.Arti.{TorCrates, Settings, untouched, bring_up}
use fictional_octo_spork.Arti.Reaches.{Reaches, bring_up_lem}
use fictional_octo_spork.Arti.Unable.{Unable}
use fictional_octo_spork.Arti.Listener.{
  Wake, cancelled, accept_error, accepted, credentials, spawn_arti, Authenticated, spawn_arti_lem,
}
use fictional_octo_spork.Engine
use fictional_octo_spork.Traffic.{Tunnelled, start-Tunnelled}
use fictional_octo_spork.Tests.Samples.{some_config, some_context, willing}
use fictional_octo_spork.Tests.Process.{before, success}

abbrev tor_network : TorCrates
tor_network = record {
  Bridge = Text;
  PtName = Text;
  Config = Settings Text Text;
  Client = List Text;
  Country = Text;
  parse_bridge = good;
  parse_pt_name = good;
  build = good;
  current_runtime = good tt;
  create_bootstrapped = λ config. good [];
  parse_country = good;
  set_exit_country = λ code client. code ∷ client;
  create_dir_all = λ dir. good tt;
  bind = λ addr. good tt;
  debug_text = λ t. t;
  TorAddr = HostPort;
  from = good;
  connect = λ client addr. good tt;
  debug_addr = λ addr. text "target";
}

abbrev endpoint : ℕ → SocksEndpoint
endpoint port = record {
  addr = record { ip = v4 127 0 0 1; port = port };
  username = text "user";
  password = text "secret";
}

bring_up_lem_example :
    let (r, p) =
      bring_up tor_network some_config (endpoint 9001) (endpoint 9002) (text "/data") untouched in
    ((e : Error) × (r ≡ err e)
      × Unable tor_network some_config (endpoint 9001) (endpoint 9002) (text "/data") e
      × (p.listening ≡ none))
    ⊎ ((client : List Text) × (r ≡ ok client)
        × Reaches tor_network some_config (endpoint 9001) (endpoint 9002) (text "/data") client p)
bring_up_lem_example =
    bring_up_lem tor_network some_config (endpoint 9001) (endpoint 9002) (text "/data")

-- A peer that logs in and asks for a web site, an error, and a peer that sends nothing.
abbrev wakes : List Wake
wakes =
    accepted (
      conn
        (client_hello (0x02 ∷ []) (credentials (endpoint 9002))
          (0x05 ∷ 1 ∷ 0 ∷ 3 ∷ 1 ∷ b'w' ∷ 0 ∷ 80 ∷ []))
        [] 9 (text "reset") (text "broken pipe"))
    ∷ accept_error (text "too many files")
    ∷ accepted (conn [] [] 9 (text "reset") (text "broken pipe"))
    ∷ cancelled
    ∷ []

spawn_arti_lem_example :
    let t =
      spawn_arti tor_network some_config (endpoint 9001) (endpoint 9002) (text "/data") wakes in
    All (Authenticated tor_network (credentials (endpoint 9002))) t.visits
    × ((t.progress.listening ≡ some (endpoint 9002).addr) ⊎ (t.visits ≡ []))
    × ((t.cancelled ≡ true) ↔ (t.result ≢ none))
spawn_arti_lem_example =
    spawn_arti_lem tor_network some_config (endpoint 9001) (endpoint 9002) (text "/data") wakes

start-Tunnelled_example :
    Tunnelled willing tor_network some_config some_context before.spawned
      (Engine.start willing some_config some_context before).1.spawned
      (0x05 ∷ 1 ∷ 0 ∷ [])
      []
      7
      (text "reset")
      (text "broken pipe")
start-Tunnelled_example =
    start-Tunnelled willing tor_network some_config some_context before (0x05 ∷ 1 ∷ 0 ∷ []) [] 7
      (text "reset") (text "broken pipe") success.1
