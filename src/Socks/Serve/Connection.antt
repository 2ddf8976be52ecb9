-- ===== src/Socks/Serve/Connection.antt =====
-- rust/core/src/engine/arti_runtime.rs, `handle_socks_conn` as a whole: login, request, dial, reply, and the relay.
use fictional_octo_spork.Prelude.{ℕ, suc, ◌≡◌, refl, ap, true, false, List, [], ◌∷◌, ◌++◌}
use mathlib.Core.List.{append_assoc}
use fictional_octo_spork.Text.{Bytes, Text}
use fictional_octo_spork.Failure.{ok, good}
use fictional_octo_spork.Socks.{Credentials, Tor, HostPort, contains, socks5_read_request}
use fictional_octo_spork.Socks.Stream.{conn, write_all}
use fictional_octo_spork.Socks.Handshake.{client_hello, knows, handshake_answers}
use fictional_octo_spork.Socks.Request.{
  Target, connect_request, understood, read_host_port-connect_request,
}
use fictional_octo_spork.Socks.Serve.{
  Session, handle_socks_conn, relay, dial, start_pumps, socks5_send_reply_success,
}
use fictional_octo_spork.Socks.Pumps.{up, down, Event, start_relay, sent}
use fictional_octo_spork.Socks.Pumps
use fictional_octo_spork.Socks.Pumps.Relayed.{Fate, Relayed, relay-Relayed}

-- What the server sends to a client that it serves: the method, the verdict and the reply.
abbrev pub served_bytes : Bytes
served_bytes = 0x05 ∷ 0x02 ∷ 0x01 ∷ 0x00 ∷ 0x05 ∷ 0x00 ∷ 0x00 ∷ 0x01 ∷ 0 ∷ 0 ∷ 0 ∷ 0 ∷ 0 ∷ 0 ∷ []

module _ (tor : Tor) (auth who : Credentials) (methods : Bytes) (t : Target) (port : ℕ)
    (early out : Bytes) (n : ℕ) (rf wf : Text) where
  -- A client that is about to log in and ask for a target, and has sent some bytes behind its request.
  abbrev pub asking : Session tor
  asking = record {
    stream =
        conn (client_hello methods who (connect_request t port early)) out (suc (suc (suc n))) rf
          wf;
    dialed = [];
    pumping = false;
  }

  abbrev pub served : tor.TorAddr → Session tor
  served target = record {
    stream = conn early (out ++ served_bytes) n rf wf;
    dialed = target ∷ [];
    pumping = true;
  }

  handle_socks_conn-asking :
      {host_port : HostPort} {target : tor.TorAddr}
      → contains methods 0x02 ≡ true
      → knows who auth ≡ true
      → understood t port ≡ ok host_port
      → tor.from host_port ≡ good target
      → tor.connect target ≡ good tt
      → handle_socks_conn tor auth asking ≡ (ok tt, served target)
  unfolding handle_socks_conn relay dial start_pumps socks5_read_request socks5_send_reply_success
      write_all
  handle_socks_conn-asking {target} offered known read made connected =
      rw (handshake_answers, offered, known, read_host_port-connect_request)
        (rw (read, made, connected)
          (ap (λ o. (ok tt, record (served target) { stream = conn early o n rf wf }))
            (append_assoc out (0x05 ∷ 0x02 ∷ 0x01 ∷ 0x00 ∷ []) _)))

  -- A client that offers user/password, presents the credentials and asks for a target that Tor connects to, and that
  -- takes what is written to it, gets the success reply behind the verdict, with one dial, of that target. Then the
  -- relay carries, in each direction and in order, a first part of what its sender sends: towards Tor first what the
  -- client sent behind its request. What is not carried is what the sender's task had in hand when it ended by an
  -- error or the token, and what is unread; a task that saw the end of its sender has carried everything.
  pub connection-Relayed :
      (es : List Event) {host_port : HostPort} {target : tor.TorAddr}
      → contains methods 0x02 ≡ true
      → knows who auth ≡ true
      → understood t port ≡ ok host_port
      → tor.from host_port ≡ good target
      → tor.connect target ≡ good tt
      → let (r, s) = handle_socks_conn tor auth asking in
        let x = Pumps.relay es (start_relay s.stream.input) in
        (r ≡ ok tt)
        × (s.dialed ≡ target ∷ [])
        × (s.stream.output ≡ out ++ served_bytes)
        × Relayed x.token (early ++ sent up false es) x.upward
        × Relayed x.token (sent down false es) x.downward
  unfolding start_relay Fate
  connection-Relayed es offered known read made connected =
      rw (handle_socks_conn-asking offered known read made connected) (
        refl,
        refl,
        refl,
        relay-Relayed up es (start_relay early) (record { whole = refl; fate = refl }),
        relay-Relayed down es (start_relay early) (record { whole = refl; fate = refl }),
      )
