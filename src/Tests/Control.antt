-- ===== src/Tests/Control.antt =====
-- The IPC server and the token, on sample lines.
use fictional_octo_spork.Prelude.{◌≡◌, ◌≢◌, ◌↔◌, refl, true, false, [], ◌∷◌, if◌then◌else◌}
use fictional_octo_spork.Text.{Text, text, trim, same}
use fictional_octo_spork.Failure.{Result, Reported, good, failed}
use fictional_octo_spork.Ipc.Messages.{Request, auth, status, stop, idle_status}
use fictional_octo_spork.Ipc.Client.{Round, line, Client, connect, handle_client, waiting, returned}
use fictional_octo_spork.Ipc.Replies.{stop_cancels_iff_written, first_request_decides}

-- A decoder that knows two requests by their first letter.
abbrev pub decode : Text → Reported Request
decode [] = failed (text "empty")
decode (c ∷ cs) =
    if same (c ∷ []) (text "s")
    then good status
    else if same (c ∷ []) (text "x")
    then good stop
    else failed (text "bad")

abbrev pub says : Text → Round
says t = record { input = line t; shared_status = idle_status; write = good tt }

abbrev insider : Client
insider = record (connect (text "t")) { authed = true }

stop_cancels_iff_written_example :
    (((handle_client decode (says (text "x") ∷ says (text "s") ∷ []) insider).1.cancelled ≡ true)
      ↔ ((says (text "x")).write ≡ good tt))
    × (handle_client decode (says (text "x") ∷ says (text "s") ∷ []) insider
        ≡ handle_client decode (says (text "x") ∷ []) insider)
unfolding trim text same
stop_cancels_iff_written_example =
    stop_cancels_iff_written decode insider (says (text "x")) (says (text "s") ∷ []) refl refl refl

not_a_login : status ≢ auth (text "t")
not_a_login p = absurd (cc)

first_request_decides_example :
    (outcome : Result (Unit {0})) × (last : Client) × (handle_client decode
        (says (text "?") ∷ says (text "s") ∷ says (text "x") ∷ [])
        (connect (text "t"))
      ≡ (returned outcome, last))
    × (handle_client decode (says (text "?") ∷ []) (connect (text "t")) ≡ (
      waiting,
      record (connect (text "t")) {
        sent = (handle_client decode (says (text "?") ∷ []) (connect (text "t"))).1.sent;
      },
    ))
    × (last.authed ≡ false)
unfolding trim text same
first_request_decides_example =
    first_request_decides decode (says (text "?") ∷ []) (connect (text "t")) (says (text "s"))
      status (says (text "x") ∷ []) refl ((text "bad", refl), tt) refl not_a_login
