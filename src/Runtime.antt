-- ===== src/Runtime.antt =====
-- rust/core/src/runtime.rs: random SOCKS endpoints, and the cancellation token over a watch channel.
pub mod Wakeup
pub mod Endpoints
use fictional_octo_spork.Prelude.{ℕ, ◌+◌, ◌≡◌, Bool, true, false, ◌==◌, if◌then◌else◌, arith}
use fictional_octo_spork.Text.{Text}
use fictional_octo_spork.Failure.{Result, ok, ◌>>=◌}
use fictional_octo_spork.Net.{SocketAddr, v4}
use fictional_octo_spork.Util.{random_password, random_username, random_local_port}
use fictional_octo_spork.Util.Outside.{Rng, Net}

pub record SocksEndpoint : Type 0 where
  pub addr : SocketAddr
  pub username : Text
  pub password : Text

-- The random numbers and ports that an endpoint takes.
abbrev pub endpoint_draws : ℕ
endpoint_draws = 44

-- `SocksEndpoint::new_random`, the `port_call`-th bind and from the `k`-th random number on
unfoldable pub new_random : Rng → Net → ℕ → ℕ → Result SocksEndpoint
new_random rng net port_call k = do
  port ← random_local_port net port_call
  ok (record {
    addr = record { ip = v4 127 0 0 1; port = port };
    username = random_username rng k 12;
    password = random_password rng (k + 12) 32;
  })

-- `tokio::sync::watch` as `Cancel` uses it: a channel holds a value, which every clone of its sender
-- writes and every clone of its receiver reads.
pub record Watch : Type 1 where
  pub Channel : Type 0
  pub channel : Bool → Channel
  pub send : Bool → Channel → Channel
  pub borrow : Channel → Bool
  pub borrow-channel : (b : Bool) → borrow (channel b) ≡ b
  pub borrow-send : (b : Bool) (c : Channel) → borrow (send b c) ≡ b

module _ (watch : Watch) where
  -- The channels of the process. A `Cancel` is the number of its channel, so that clones share it.
  pub record Channels : Type 0 where
    pub at : ℕ → watch.Channel
    pub next : ℕ

  abbrev update : Channels → ℕ → watch.Channel → Channels
  update cs i c = record cs { at = λ j. if i == j then c else cs.at j }

  -- `Cancel::new`
  unfoldable pub new_cancel : Channels → ℕ × Channels
  new_cancel cs = (cs.next, record (update cs cs.next (watch.channel false)) { next = cs.next + 1 })

  -- `Cancel::cancel`
  unfoldable pub cancel : ℕ → Channels → Channels
  cancel i cs = update cs i (watch.send true (cs.at i))

  -- `Cancel::is_cancelled`
  unfoldable pub is_cancelled : Channels → ℕ → Bool
  is_cancelled cs i = watch.borrow (cs.at i)

  -- A token starts uncancelled; cancelling it is seen by every holder of it, is final, and changes no
  -- other token.
  pub cancel_lem :
      (cs : Channels) (i j : ℕ)
      → (is_cancelled (new_cancel cs).1 (new_cancel cs).0 ≡ false)
        × (is_cancelled (cancel i cs) j ≡ (if i == j then true else is_cancelled cs j))
  unfolding new_cancel cancel is_cancelled
  cancel_lem cs i j =
      (ground (arith, watch.borrow-channel false), ground (arith, watch.borrow-send true (cs.at i)))
