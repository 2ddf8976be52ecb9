-- ===== src/Arti/Listener.antt =====
-- The accept loop of `run`, each connection with its own `handle_socks_conn`, and the task that `spawn_arti` spawns.
use mathlib.Core.List.{cons-ne-nil}
use fictional_octo_spork.Prelude.{
  ◌≡◌, ◌≢◌, ◌⊎◌, ◌↔◌, inl, inr, refl, sym, ap, ◌∙◌, Bool, true, false, Option, none, some, List, [],
  ◌∷◌, ◌++◌, All, All-append, arith,
}
use fictional_octo_spork.Text.{Bytes, Text}
use fictional_octo_spork.Failure.{Result, ok, err}
use fictional_octo_spork.Config.{AppConfig}
use fictional_octo_spork.Runtime.{SocksEndpoint}
use fictional_octo_spork.Socks.{Credentials, Tor, contains}
use fictional_octo_spork.Socks.Stream.{Conn}
use fictional_octo_spork.Socks.Handshake.{client_hello}
use fictional_octo_spork.Socks.Serve.{handle_socks_conn, dial_needs_login}
use fictional_octo_spork.Arti.Reaches.{bring_up-eq-ok}
use fictional_octo_spork.Arti.{TorCrates, Progress, untouched, bring_up}

-- What wakes the loop. A connection comes with all that its peer will send.
pub data Wake : Type 0 where
  cancelled : Wake
  accept_error : Text → Wake
  accepted : Conn → Wake

abbrev pub credentials : SocksEndpoint → Credentials
credentials e = record { username = e.username; password = e.password }

module _ (crates : TorCrates) where
  open crates use {Client, TorAddr}

  -- The Tor library, as `handle_socks_conn` uses a client.
  abbrev pub tor_of : Client → Tor
  tor_of client = record {
    TorAddr = TorAddr;
    from = crates.from;
    connect = crates.connect client;
    debug = crates.debug_addr;
  }

  -- A connection, and the targets that were dialled for it.
  pub record Visit : Type 0 where
    pub peer : Conn
    pub dialed : List TorAddr

  abbrev visit : Client → Credentials → Conn → Visit
  visit client auth peer = record {
    peer = peer;
    dialed =
        (handle_socks_conn (tor_of client) auth
          (record { stream = peer; dialed = []; pumping = false })).1.dialed;
  }

  -- The task: how far `run` came, the connections that it took, its result once it has one, and whether the
  -- task has cancelled the token.
  pub record ArtiTask : Type 0 where
    pub progress : Progress
    pub visits : List Visit
    pub result : Option (Result (Unit {0}))
    pub cancelled : Bool

  abbrev begun : Progress → ArtiTask
  begun p = record { progress = p; visits = []; result = none; cancelled = false }

  -- The loop of `run`.
  accept_loop : Client → Credentials → List Wake → ArtiTask → ArtiTask
  accept_loop client auth [] t = t
  accept_loop client auth (cancelled ∷ ws) t = record t { result = some (ok tt) }
  accept_loop client auth (accept_error m ∷ ws) t = accept_loop client auth ws t
  accept_loop client auth (accepted peer ∷ ws) t =
      accept_loop client auth ws (record t { visits = t.visits ++ visit client auth peer ∷ [] })

  run_from : SocksEndpoint → List Wake → Result Client × Progress → ArtiTask
  unfolding accept_loop
  run_from arti_socks ws (ok client, p) = accept_loop client (credentials arti_socks) ws (begun p)
  run_from arti_socks ws (err e, p) = record (begun p) { result = some (err e) }

  -- `run`
  unfoldable pub run : AppConfig → SocksEndpoint → SocksEndpoint → Text → List Wake → ArtiTask
  unfolding bring_up run_from
  run cfg pt_socks arti_socks private_dir ws =
      run_from arti_socks ws (bring_up crates cfg pt_socks arti_socks private_dir untouched)

  -- However `run` ends, the task then cancels the token.
  cancel_after : ArtiTask → ArtiTask
  cancel_after t = elim t.result [ none ↦ t | some r ↦ record t { cancelled = true } ]

  -- The task of `spawn_arti`
  unfoldable pub spawn_arti :
      AppConfig → SocksEndpoint → SocksEndpoint → Text → List Wake → ArtiTask
  unfolding run cancel_after
  spawn_arti cfg pt_socks arti_socks private_dir ws =
      cancel_after (run cfg pt_socks arti_socks private_dir ws)

  -- Nothing was dialled, or the peer logged in with the credentials.
  abbrev pub Authenticated : Credentials → Visit → Type 0
  Authenticated auth v =
      (v.dialed ≡ [])
      ⊎ ((methods : Bytes) × (rest : Bytes) × (contains methods 0x02 ≡ true)
          × (v.peer.input ≡ client_hello methods auth rest))

  visit-Authenticated :
      (client : Client) (auth : Credentials) (peer : Conn)
      → Authenticated auth (visit client auth peer)
  visit-Authenticated client auth peer = go (visit client auth peer).dialed refl
    where
      go :
          (l : List TorAddr)
          → (visit client auth peer).dialed ≡ l
          → Authenticated auth (visit client auth peer)
      go [] e = inl e
      go (a ∷ l) e = inr (
          dial_needs_login (tor_of client) auth
            (record { stream = peer; dialed = []; pumping = false })
            λ none_dialed. cons-ne-nil a l (sym e ∙ none_dialed))

  record Served (auth : Credentials) (before after : ArtiTask) : Type 0 where
    visits_ok : All (Authenticated auth) after.visits
    same_progress : after.progress ≡ before.progress
    same_cancelled : after.cancelled ≡ before.cancelled

  accept_loop-Served :
      (client : Client) (auth : Credentials) (ws : List Wake) (t : ArtiTask)
      → All (Authenticated auth) t.visits
      → Served auth t (accept_loop client auth ws t)
  unfolding accept_loop
  accept_loop-Served client auth [] t h = record {
    visits_ok = h;
    same_progress = refl;
    same_cancelled = refl;
  }
  accept_loop-Served client auth (cancelled ∷ ws) t h = record {
    visits_ok = h;
    same_progress = refl;
    same_cancelled = refl;
  }
  accept_loop-Served client auth (accept_error m ∷ ws) t h = accept_loop-Served client auth ws t h
  accept_loop-Served client auth (accepted peer ∷ ws) t h =
      let one = visit client auth peer in
      let s =
        accept_loop-Served client auth ws (record t { visits = t.visits ++ one ∷ [] })
          (All-append (Authenticated auth) t.visits (one ∷ []) h
            (visit-Authenticated client auth peer, tt)) in
      record {
        visits_ok = s.visits_ok;
        same_progress = s.same_progress;
        same_cancelled = s.same_cancelled;
      }

  cancel_after_lem :
      (t : ArtiTask)
      → t.cancelled ≡ false
      → (((cancel_after t).cancelled ≡ true) ↔ ((cancel_after t).result ≢ none))
        × ((cancel_after t).visits ≡ t.visits)
        × ((cancel_after t).progress ≡ t.progress)
  unfolding cancel_after
  cancel_after_lem t h = (ground arith, ground arith, ground arith)

  module _ (cfg : AppConfig) (pt_socks arti_socks : SocksEndpoint) (dir : Text)
      (ws : List Wake) where
    -- Whatever connections arrive: a target is dialled only for a peer that sent exactly the credentials of the
    -- endpoint, connections are taken only while the endpoint is listened on, and the task cancels the token exactly
    -- if `run` has ended, by an error or a cancellation.
    pub spawn_arti_lem :
        let t = spawn_arti cfg pt_socks arti_socks dir ws in
        All (Authenticated (credentials arti_socks)) t.visits
        × ((t.progress.listening ≡ some arti_socks.addr) ⊎ (t.visits ≡ []))
        × ((t.cancelled ≡ true) ↔ (t.result ≢ none))
    unfolding spawn_arti run run_from cancel_after
    spawn_arti_lem = go (bring_up crates cfg pt_socks arti_socks dir untouched) refl
      where
        go :
            (m : Result Client × Progress)
            → bring_up crates cfg pt_socks arti_socks dir untouched ≡ m
            → let t = cancel_after (run_from arti_socks ws m) in
              All (Authenticated (credentials arti_socks)) t.visits
              × ((t.progress.listening ≡ some arti_socks.addr) ⊎ (t.visits ≡ []))
              × ((t.cancelled ≡ true) ↔ (t.result ≢ none))
        go (err e, p) h =
            (tt, inr refl, (cancel_after_lem (run_from arti_socks ws (err e, p)) refl).0)
        go (ok client, p) h =
            let auth = credentials arti_socks in
            let t = accept_loop client auth ws (begun p) in
            let s = accept_loop-Served client auth ws (begun p) tt in
            let (ends, v, q) = cancel_after_lem t s.same_cancelled in
            (
              rw v s.visits_ok,
              inl (
                  ap (λ x. x.listening) (q ∙ s.same_progress)
                  ∙ (bring_up-eq-ok crates cfg pt_socks arti_socks dir h).listens),
              ends,
            )
