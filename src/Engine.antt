-- ===== src/Engine.antt =====
-- rust/core/src/engine.rs: bring-up, status and teardown.
pub mod Extends
pub mod BringUp
pub mod Started
pub mod Teardown
pub mod Handles
pub mod Tokens
pub mod Wiring
use fictional_octo_spork.Prelude.{ℕ, ◌+◌, Bool, true, false, Option, none, some, List, [], ◌∷◌}
use fictional_octo_spork.Text.{Text, text}
use fictional_octo_spork.Failure.{Result, ok, err}
use fictional_octo_spork.Action.{Action, ◌>>=◌, ◌>>◌, pure, lift}
use fictional_octo_spork.Net.{show_ip, show_addr}
use fictional_octo_spork.Config.{AppConfig}
use fictional_octo_spork.Leaf.{Tun, main_engine_config}
use fictional_octo_spork.Dns.{Services, spawn_dns_proxy}
use fictional_octo_spork.Ipc.Messages.{Status, idle_status}
use fictional_octo_spork.Ipc.Server
use fictional_octo_spork.Pt
use fictional_octo_spork.World.{
  Outside, World, PlatformContext, LeafSocksPt, Engine, arti, dns_proxy, ipc_server, spawn, abort,
  cancel, new_cancel, random_endpoint, run_leaf_with_config,
}

abbrev pub tun_of : PlatformContext → Tun
tun_of ctx = record { fd = ctx.tun_fd; addr = ctx.tun_addr; mtu = ctx.tun_mtu }

module _ (os : Outside) where
  -- An action of the IPC server alone.
  pub spawn_ipc : Action (World os) (Unit {0})
  unfolding Server.spawn_ipc_server
  spawn_ipc w =
      let (r, server) = Server.spawn_ipc_server os.rng (os.ipc w.starts) w.server in
      (r, record w { server = server })

  pub start_dns : AppConfig → PlatformContext → Action (World os) (Unit {0})
  start_dns cfg ctx w = (spawn_dns_proxy (os.services w.starts) cfg ctx.tun_addr, w)

  -- What `Engine::start` does once the transport is up.
  pub behind_pt : AppConfig → PlatformContext → ℕ → LeafSocksPt → Action (World os) Engine
  unfolding random_endpoint run_leaf_with_config spawn
  behind_pt cfg ctx token pt = do
    arti_socks ← random_endpoint os
    arti_task ← spawn os (arti cfg pt.socks arti_socks ctx.private_dir) token
    leaf_main_cfg ← lift (main_engine_config os.to_string cfg (tun_of ctx) arti_socks)
    leaf_task ← run_leaf_with_config os (text "leaf-main") leaf_main_cfg token
    start_dns cfg ctx
    dns_task ← spawn os (dns_proxy cfg ctx.tun_addr) token
    spawn_ipc
    ipc_task ← spawn os (ipc_server ctx.private_dir) token
    pure (record {
      token = token;
      status = record {
        running = true;
        pt_provider = some (Pt.name pt);
        pt_socks = some (show_addr pt.socks.addr);
        arti_socks = some (show_addr arti_socks.addr);
        tun_addr = some (show_ip ctx.tun_addr);
      };
      tasks = arti_task ∷ leaf_task ∷ dns_task ∷ ipc_task ∷ [];
      pt = some pt;
    })

  -- An early return drops the transport.
  pub dropping : LeafSocksPt → Result Engine × World os → Result Engine × World os
  unfolding Pt.drop_pt
  dropping pt (ok e, w) = (ok e, w)
  dropping pt (err e, w) = (err e, Pt.drop_pt os pt w)

  counted : World os → World os
  counted w = record w { starts = w.starts + 1 }

  -- `Engine::start`
  unfoldable pub start : AppConfig → PlatformContext → Action (World os) Engine
  unfolding new_cancel Pt.spawn dropping behind_pt counted spawn_ipc start_dns
  start cfg ctx = do
    token ← new_cancel os
    pt ← Pt.spawn os ctx.pt_provider token
    λ w. let (r, w') = dropping pt (behind_pt cfg ctx token pt w) in (r, counted w')

  abort_all : List ℕ → World os → World os
  unfolding abort
  abort_all [] w = w
  abort_all (t ∷ ts) w = abort_all ts (abort os t w)

  -- The transport that `take` gave is shut down and then dropped.
  stop_pt : Option LeafSocksPt → World os → World os
  unfolding Pt.shutdown Pt.drop_pt
  stop_pt none w = w
  stop_pt (some pt) w = let (pt', w') = Pt.shutdown os pt w in Pt.drop_pt os pt' w'

  -- `Engine::stop`: the engine as it is left, and the world.
  unfoldable pub stop : Engine → World os → Engine × World os
  unfolding cancel stop_pt abort_all
  stop e w = (
    record e { status = record e.status { running = false }; tasks = []; pt = none },
    abort_all e.tasks (stop_pt e.pt (cancel os e.token w)),
  )

  -- `Drop for Engine`
  unfoldable pub drop_engine : Engine → World os → World os
  unfolding cancel
  drop_engine e w = cancel os e.token w
