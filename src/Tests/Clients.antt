-- ===== src/Tests/Clients.antt =====
-- Several clients of the IPC server, in turns.
use fictional_octo_spork.Prelude.{
  ◌≡◌, ◌≢◌, ◌⊎◌, length, refl, sym, ap, ◌∙◌, some, false, true, [], ◌∷◌, List, All, get_at,
}
use fictional_octo_spork.Text.{Text, text}
use fictional_octo_spork.Failure.{Reported, good, ok}
use fictional_octo_spork.Ipc.Messages.{Request, auth}
use fictional_octo_spork.Ipc.Token.{
  TokenCell, current_auth_token, rotate_auth_token, current-rotate, rotate_auth_token-some,
  tokens_well_formed,
}
use fictional_octo_spork.Ipc.Client.{connect, waiting}
use fictional_octo_spork.Ipc.Server.{Server, spawn_ipc_server}
use fictional_octo_spork.Ipc.Sessions.Phases.{IsOpen, IsShut}
use fictional_octo_spork.Ipc.Sessions.Lifecycle.{wakes_loop, server_lifecycle}
use fictional_octo_spork.Ipc.Sessions.Login.{logged_in, platform_token_logs_in}
use fictional_octo_spork.Ipc.Sessions.{
  Event, accepted, accept_error, begins, speaks, starts, closes, cancels, loop_wakes, wakes,
  serving, step, steps, cancelled_elsewhere, rotated, shared, talks, Talk,
}
use fictional_octo_spork.Ipc.Sessions.Talks.{Any, PresentedBy}
use fictional_octo_spork.Ipc.Sessions.Confined.{Confined, steps-Confined}
use fictional_octo_spork.Tests.Samples.{counting_rng, outcomes, no_server}
use fictional_octo_spork.Tests.Control.{decode, says}

-- Two clients, the second one accepted before the token changes and served after it.
abbrev two_clients : List Event
two_clients =
    accepted
    ∷ begins 0
    ∷ accepted
    ∷ starts outcomes
    ∷ closes (good tt)
    ∷ begins 1
    ∷ speaks 1 (says (text "s"))
    ∷ accept_error []
    ∷ speaks 0 (says (text "x"))
    ∷ cancels
    ∷ wakes 0
    ∷ loop_wakes
    ∷ accepted
    ∷ []

steps-Confined_example :
    let s = steps counting_rng decode two_clients (serving no_server (good tt)) in
    All (Confined decode counting_rng s.cancelled) s.sessions
    × ((s.cancelled ≡ false)
        ⊎ (cancelled_elsewhere two_clients ≡ true)
        ⊎ Any (PresentedBy decode) s.sessions)
steps-Confined_example = steps-Confined decode counting_rng two_clients no_server (good tt) tt

abbrev one_waits : List Event
one_waits = accepted ∷ accepted ∷ begins 1 ∷ speaks 0 (says (text "s")) ∷ accept_error [] ∷ []

-- The server is brought up, serves two clients, and is cancelled; one more client comes before its loop sees that,
-- and one after.
server_lifecycle_example :
    let closing = accepted ∷ loop_wakes ∷ [] in
    let (r, up) = spawn_ipc_server counting_rng outcomes no_server in
    let a = steps counting_rng decode one_waits (serving up (good tt)) in
    let b = steps counting_rng decode closing (step counting_rng decode cancels a) in
    let c = steps counting_rng decode (accepted ∷ starts outcomes ∷ []) b in
    ((r ≢ ok tt) × (up.listening ≡ false))
    ⊎ ((r ≡ ok tt)
        × (IsOpen (good tt) false a ⊎ IsShut (good tt) false a)
        × IsShut (good tt) false b
        × IsShut (good tt) true c
        × (length c.sessions ≡ length b.sessions))
unfolding wakes_loop shared
server_lifecycle_example =
    server_lifecycle (good tt) counting_rng decode outcomes no_server one_waits
      (accepted ∷ loop_wakes ∷ []) (accepted ∷ starts outcomes ∷ []) refl refl

-- A server with a token that was just rotated, and a decoder for which every line is a login with it.
abbrev rotated_cell : Text × TokenCell
rotated_cell = rotate_auth_token counting_rng no_server.cell

abbrev tokened : Server
tokened = record no_server { cell = rotated_cell.1 }

abbrev knows_token : Text → Reported Request
knows_token l = good (auth rotated_cell.0)

abbrev reading : Text × TokenCell
reading = current_auth_token counting_rng rotated_cell.1

abbrev newcomer : Talk
newcomer = record { token = reading.0; heard = []; ending = waiting; client = connect reading.0 }

handed : current_auth_token counting_rng reading.1 ≡ rotated_cell
handed =
    ap (λ m. current_auth_token counting_rng m.1) (current-rotate counting_rng no_server.cell)
    ∙ current-rotate counting_rng no_server.cell

platform_token_logs_in_example :
    let s = steps counting_rng knows_token one_waits (serving tokened (good tt)) in
    get_at 1 (step counting_rng knows_token (speaks 1 (says (text "hello"))) s).sessions
    ≡ some (talks (logged_in counting_rng knows_token rotated_cell.0 (says (text "hello"))))
unfolding steps rotated
platform_token_logs_in_example =
    platform_token_logs_in counting_rng knows_token one_waits tokened (good tt) rotated_cell.0 1
      newcomer (says (text "hello")) (text "hello")
      (tokens_well_formed counting_rng no_server.cell tt).2
      (rotate_auth_token-some counting_rng no_server.cell) refl refl refl refl
      (ap (λ m. good (auth m.0)) (sym handed)) refl
