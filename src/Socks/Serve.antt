-- ===== src/Socks/Serve.antt =====
-- rust/core/src/engine/arti_runtime.rs, `handle_socks_conn`: a local client is logged in, its
-- target is dialled through Tor, and only then are bytes relayed.
pub mod Connection
use fictional_octo_spork.Prelude.{
  ◌≡◌, ◌≢◌, ◌↔◌, refl, List, [], ◌∷◌, ◌++◌, Bool, true, false, arith,
}
use fictional_octo_spork.Text.{Bytes, Text, text}
use fictional_octo_spork.Failure.{Result, Error, ok, err, arti, map_err}
use fictional_octo_spork.Action.{Action, after, ◌>>=◌, ◌>>◌, modify}
use fictional_octo_spork.Socks.{Credentials, Tor, contains, socks5_handshake, socks5_read_request}
use fictional_octo_spork.Socks.Stream.{Conn, write_all}
use fictional_octo_spork.Socks.Handshake.{client_hello, handshake_sound}

-- `socks5_send_reply_success`
unfoldable pub socks5_send_reply_success : Action Conn (Unit {0})
socks5_send_reply_success = write_all (0x05 ∷ 0x00 ∷ 0x00 ∷ 0x01 ∷ 0 ∷ 0 ∷ 0 ∷ 0 ∷ 0 ∷ 0 ∷ [])

module _ (tor : Tor) where
  -- The connection, the targets that were dialled, and whether the two byte pumps were started.
  pub record Session : Type 0 where
    pub stream : Conn
    pub dialed : List tor.TorAddr
    pub pumping : Bool

  abbrev onto {ℓ} : {A : Type ℓ} → Session → Result A × Conn → Result A × Session
  onto s (r, c) = (r, record s { stream = c })

  -- An action on the connection alone.
  abbrev on_stream {ℓ} : {A : Type ℓ} → Action Conn A → Action Session A
  on_stream m s = onto s (m s.stream)

  abbrev connect_error : tor.TorAddr → Text → Error
  connect_error target m = arti (text "connect " ++ (tor.debug target ++ (text ": " ++ m)))

  -- `client.connect(target)`, noted as a dial whether it succeeds or not
  dial : tor.TorAddr → Action Session (Unit {0})
  dial target s = (
    map_err (connect_error target) (tor.connect target),
    record s { dialed = s.dialed ++ target ∷ [] },
  )

  start_pumps : Action Session (Unit {0})
  start_pumps = modify (λ s. record s { pumping = true })

  -- What follows a successful handshake.
  relay : Action Session (Unit {0})
  unfolding dial start_pumps
  relay = do
    target ← on_stream (socks5_read_request tor)
    dial target
    on_stream socks5_send_reply_success
    start_pumps

  -- `handle_socks_conn`, up to the byte pumps
  unfoldable pub handle_socks_conn : Credentials → Action Session (Unit {0})
  unfolding relay
  handle_socks_conn auth = do on_stream (socks5_handshake auth); relay

  -- A target is dialled only for a client that logged in: if there is a dial that was not there
  -- before, the input began with an offer of user/password and exactly the server's credentials.
  pub dial_needs_login :
      (auth : Credentials) (s : Session)
      → (handle_socks_conn auth s).1.dialed ≢ s.dialed
      → (methods : Bytes) × (rest : Bytes) × (contains methods 0x02 ≡ true)
        × (s.stream.input ≡ client_hello methods auth rest)
  unfolding handle_socks_conn
  dial_needs_login auth s h = go (socks5_handshake auth s.stream) refl h
    where
      go :
          (r : Result (Unit {0}) × Conn)
          → socks5_handshake auth s.stream ≡ r
          → (after (onto s r) (λ _. relay)).1.dialed ≢ s.dialed
          → (methods : Bytes) × (rest : Bytes) × (contains methods 0x02 ≡ true)
            × (s.stream.input ≡ client_hello methods auth rest)
      go (ok t, c) e d =
          let (methods, offered, sent, _) = handshake_sound auth s.stream e in
          (methods, c.input, offered, sent)
      go (err x, c) e d = absurd (d refl)

  -- Only a client that logged in gets as far as the relay.
  pub relay_needs_login :
      (auth : Credentials) (s : Session) {s' : Session}
      → handle_socks_conn auth s ≡ (ok tt, s')
      → (methods : Bytes) × (rest : Bytes) × (contains methods 0x02 ≡ true)
        × (s.stream.input ≡ client_hello methods auth rest)
  unfolding handle_socks_conn
  relay_needs_login auth s {s'} h = go (socks5_handshake auth s.stream) refl h
    where
      go :
          (r : Result (Unit {0}) × Conn)
          → socks5_handshake auth s.stream ≡ r
          → after (onto s r) (λ _. relay) ≡ (ok tt, s')
          → (methods : Bytes) × (rest : Bytes) × (contains methods 0x02 ≡ true)
            × (s.stream.input ≡ client_hello methods auth rest)
      go (ok t, c) e d =
          let (methods, offered, sent, _) = handshake_sound auth s.stream e in
          (methods, c.input, offered, sent)
      go (err x, c) e d = absurd (cc)

  -- The byte pumps start exactly when every step before them succeeded.
  pub pumps_iff_ok :
      (auth : Credentials) (s : Session)
      → s.pumping ≡ false
      → ((handle_socks_conn auth s).1.pumping ≡ true) ↔ ((handle_socks_conn auth s).0 ≡ ok tt)
  unfolding handle_socks_conn relay dial start_pumps
  pumps_iff_ok auth s h = (ground arith, ground arith)
