-- ===== src/Ipc/Server.antt =====
-- `spawn_ipc_server` and its accept loop: the socket file, its permissions, and the fresh token.
use fictional_octo_spork.Prelude.{
  ℕ, ◌+◌, ◌≡◌, ◌≢◌, ◌⊎◌, refl, Option, none, some, Bool, true, false, List, [], ◌∷◌, ◌++◌, arith,
}
use fictional_octo_spork.Text.{Text, text}
use fictional_octo_spork.Failure.{Reported, ok, err, good, failed, ipc, io}
use fictional_octo_spork.Action.{Action, ◌>>◌}
use fictional_octo_spork.Util.Outside.{Rng}
use fictional_octo_spork.Ipc.Token.{TokenCell, rotate_auth_token}

-- How the calls of the operating system end.
pub record Outcomes : Type 0 where
  pub remove_stale : Reported (Unit {0})
  pub bind : Reported (Unit {0})
  pub fresh_mode : ℕ  -- the permissions that a bound socket starts with
  pub set_permissions : Reported (Unit {0})

-- The permissions of the socket file, where there is one; whether a listener is bound; the token.
pub record Server : Type 0 where
  pub socket_mode : Option ℕ
  pub listening : Bool
  pub cell : TokenCell

abbrev pub owner_only : ℕ
owner_only = 0o600

-- `if socket_path.exists()`; a failed removal is only logged.
remove_stale : Outcomes → Action Server (Unit {0})
remove_stale o s = (
  ok tt,
  elim s.socket_mode [
    | none ↦ s
    | some mode ↦ elim o.remove_stale [ good t ↦ record s { socket_mode = none } | failed m ↦ s ]
  ],
)

bind : Outcomes → Action Server (Unit {0})
bind o s = elim o.bind [
  | good t ↦ (ok tt, record s { socket_mode = some o.fresh_mode; listening = true })
  | failed m ↦ (err (ipc (text "bind: " ++ m)), s)
]

-- On failure `?` drops the listener.
set_owner_only : Outcomes → Action Server (Unit {0})
set_owner_only o s = elim o.set_permissions [
  | good t ↦ (ok tt, record s { socket_mode = some owner_only })
  | failed m ↦ (err (io m), record s { listening = false })
]

-- Whether a server comes up.
unfoldable pub comes_up : Outcomes → Bool
comes_up o = elim o.bind [
  | good t ↦ elim o.set_permissions [ good u ↦ true | failed m ↦ false ]
  | failed m ↦ false
]

module _ (rng : Rng) where
  rotate : Action Server (Unit {0})
  rotate s = (ok tt, record s { cell = (rotate_auth_token rng s.cell).1 })

  -- `spawn_ipc_server`, up to the spawned loop
  unfoldable pub spawn_ipc_server : Outcomes → Action Server (Unit {0})
  unfolding remove_stale bind set_owner_only rotate
  spawn_ipc_server o = do remove_stale o; bind o; set_owner_only o; rotate

  -- A server that comes up listens on a socket that only its owner may use, with a token rotated
  -- at that moment. One that does not come up does not listen, and leaves the token as it was.
  pub spawn_ipc_server_lem :
      (o : Outcomes) (s : Server)
      → s.listening ≡ false
      → let (r, s') = spawn_ipc_server o s in
        ((r ≡ ok tt)
          × (s'.listening ≡ true)
          × (s'.socket_mode ≡ some owner_only)
          × (s'.cell ≡ (rotate_auth_token rng s.cell).1))
        ⊎ ((r ≢ ok tt) × (s'.listening ≡ false) × (s'.cell ≡ s.cell))
  unfolding spawn_ipc_server
  spawn_ipc_server_lem o s h = ground arith

  -- Whatever becomes of it, the token is as it was or was rotated; and it is as it was if it does not come up.
  pub spawn_ipc_server-cell :
      (o : Outcomes) (s : Server)
      → let (r, s') = spawn_ipc_server o s in
        (s'.cell ≡ s.cell) ⊎ ((comes_up o ≡ true) × (s'.cell ≡ (rotate_auth_token rng s.cell).1))
  unfolding spawn_ipc_server comes_up
  spawn_ipc_server-cell o s = ground arith

-- What wakes the accept loop.
pub data Wake : Type 0 where
  cancelled : Wake
  accepted : Wake
  accept_error : Text → Wake

-- The loop: how many clients it handed to a task of their own, whether it has returned, and how the
-- removal of the socket file at its end goes.
pub record Accepting : Type 0 where
  pub clients : ℕ
  pub ended : Bool
  pub removal : Reported (Unit {0})
  pub server : Server

-- `let _ = std::fs::remove_file(…)`, after which the listener is dropped
unfoldable pub close_down : Reported (Unit {0}) → Server → Server
close_down (good t) s = record s { socket_mode = none; listening = false }
close_down (failed m) s = record s { listening = false }

unfoldable pub accept_loop : List Wake → Accepting → Accepting
unfolding close_down
accept_loop [] a = a
accept_loop (cancelled ∷ ws) a = record a { ended = true; server = close_down a.removal a.server }
accept_loop (accepted ∷ ws) a = accept_loop ws (record a { clients = a.clients + 1 })
accept_loop (accept_error m ∷ ws) a = accept_loop ws a

-- After a cancellation the loop has ended, nobody listens, and no client was taken on that came
-- later, whatever happened before it, errors of `accept` included.
pub accept_loop-cancelled :
    (ws later : List Wake) (a : Accepting)
    → let b = accept_loop (ws ++ cancelled ∷ later) a in
      (b.ended ≡ true)
      × (b.server.listening ≡ false)
      × (b.clients ≡ (accept_loop (ws ++ cancelled ∷ []) a).clients)
unfolding accept_loop
accept_loop-cancelled [] later a = (refl, ground arith, refl)
accept_loop-cancelled (cancelled ∷ ws) later a = (refl, ground arith, refl)
accept_loop-cancelled (accepted ∷ ws) later a =
    accept_loop-cancelled ws later (record a { clients = a.clients + 1 })
accept_loop-cancelled (accept_error m ∷ ws) later a = accept_loop-cancelled ws later a
