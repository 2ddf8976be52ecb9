-- ===== src/World.antt =====
-- The process that the engine runs in: what the outside answers, and the state that its parts share.
use fictional_octo_spork.Prelude.{ℕ, ◌+◌, ◌-◌, Option, Bool, List, [], ◌∷◌, ◌++◌, ℤ}
use fictional_octo_spork.Text.{Text}
use fictional_octo_spork.Failure.{Reported, ok, err}
use fictional_octo_spork.Action.{Action, ◌>>=◌}
use fictional_octo_spork.Net.{IpAddr}
use fictional_octo_spork.Util.Outside.{Rng, Net}
use fictional_octo_spork.Runtime.{SocksEndpoint, Watch, Channels, new_random, endpoint_draws}
use fictional_octo_spork.Runtime
use fictional_octo_spork.Leaf.{Json}
use fictional_octo_spork.Config.{AppConfig}
use fictional_octo_spork.Dns.{Services}
use fictional_octo_spork.Ipc.Messages.{Status}
use fictional_octo_spork.Ipc.Server.{Server, Outcomes}

-- The operating system and the crates. What the `k`-th start of an engine meets may differ with `k`.
pub record Outside : Type 1 where
  pub rng : Rng
  pub net : Net
  pub watch : Watch
  pub to_string : Json → Reported Text
  pub services : ℕ → Services
  pub ipc : ℕ → Outcomes

-- What a background task runs, with what it is given; an instance of Leaf has a name, a runtime id and a document.
pub data Kind : Type 0 where
  leaf : (name : Text) (rt_id : ℕ) (config : Text) → Kind
  arti : AppConfig → (pt_socks arti_socks : SocksEndpoint) → (private_dir : Text) → Kind
  dns_proxy : AppConfig → (tun_addr : IpAddr) → Kind
  ipc_server : (private_dir : Text) → Kind

-- A task, with the cancellation token that it watches.
pub record Task : Type 0 where
  pub id : ℕ
  pub kind : Kind
  pub token : ℕ

-- `pt::Provider`
pub data Provider : Type 0 where
  leaf_provider lyrebird xray : Provider

-- `PlatformContext`
pub record PlatformContext : Type 0 where
  pub tun_fd : ℤ  -- i32
  pub tun_addr : IpAddr
  pub tun_mtu : ℕ  -- u16
  pub private_dir : Text
  pub pt_provider : Provider

-- `LeafSocksPt`, the one `PluggableTransport`
pub record LeafSocksPt : Type 0 where
  pub socks : SocksEndpoint
  pub token : ℕ
  pub task : Option ℕ

-- `Engine`
pub record Engine : Type 0 where
  pub token : ℕ
  pub status : Status
  pub tasks : List ℕ
  pub pt : Option LeafSocksPt

module _ (os : Outside) where
  -- `closed` are the descriptors that guards have closed, `binds` and `starts` count the ports asked for and the
  -- engines started, and `slot` is the process-wide engine of lib.rs.
  pub record World : Type 0 where
    pub channels : Channels os.watch
    pub spawned : List Task
    pub next_task : ℕ
    pub aborted : List ℕ
    pub server : Server
    pub binds : ℕ
    pub starts : ℕ
    pub closed : List ℤ
    pub slot : Option Engine
    pub logging : Bool

  -- `tokio::spawn`
  unfoldable pub spawn : Kind → ℕ → Action World ℕ
  spawn kind token w = (
    ok w.next_task,
    record w {
      spawned = w.spawned ++ record { id = w.next_task; kind = kind; token = token } ∷ [];
      next_task = w.next_task + 1;
    },
  )

  -- `JoinHandle::abort`
  unfoldable pub abort : ℕ → World → World
  abort id w = record w { aborted = w.aborted ++ id ∷ [] }

  unfoldable pub cancel : ℕ → World → World
  cancel token w = record w { channels = Runtime.cancel os.watch token w.channels }

  abbrev pub is_cancelled : World → ℕ → Bool
  is_cancelled w token = Runtime.is_cancelled os.watch w.channels token

  -- `Cancel::new`
  unfoldable pub new_cancel : Action World ℕ
  new_cancel w =
      let (token, channels) = Runtime.new_cancel os.watch w.channels in
      (ok token, record w { channels = channels })

  drawn : ℕ → World → World
  drawn n w = record w {
    server = record w.server { cell = record w.server.cell { draws = w.server.cell.draws + n } };
  }

  -- `SocksEndpoint::new_random`. With no port no random number is drawn.
  unfoldable pub random_endpoint : Action World SocksEndpoint
  unfolding drawn
  random_endpoint w = elim (new_random os.rng os.net w.binds w.server.cell.draws) [
    | ok e ↦ (ok e, drawn endpoint_draws (record w { binds = w.binds + 1 }))
    | err e ↦ (err e, record w { binds = w.binds + 1 })
  ]

  -- `fresh_runtime_id`: `random_range(1024..u16::MAX)`
  unfoldable pub fresh_runtime_id : Action World ℕ
  unfolding drawn
  fresh_runtime_id w = (ok (1024 + os.rng.draw w.server.cell.draws (65535 - 1024)), drawn 1 w)

  -- `run_leaf_with_config`. Its watcher, its blocking thread and the task that joins them are one task.
  unfoldable pub run_leaf_with_config : Text → Text → ℕ → Action World ℕ
  unfolding fresh_runtime_id spawn
  run_leaf_with_config name config token = do
    rt_id ← fresh_runtime_id
    spawn (leaf name rt_id config) token
