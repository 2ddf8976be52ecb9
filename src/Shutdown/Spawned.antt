-- ===== src/Shutdown/Spawned.antt =====
-- rust/core/src/engine.rs, `Engine::start`: the tasks that it spawns are those whose ends are modelled here.
use mathlib.Core.List.{append_cancel_left}
use fictional_octo_spork.Prelude.{◌≡◌, sym, ap, ◌∙◌, List, [], ◌∷◌, ◌++◌, All}
use fictional_octo_spork.Failure.{ok}
use fictional_octo_spork.Config.{AppConfig}
use fictional_octo_spork.World.{
  Outside, World, Task, Kind, leaf, arti, dns_proxy, ipc_server, PlatformContext, Engine,
  is_cancelled,
}
use fictional_octo_spork.Engine
use fictional_octo_spork.Engine.Teardown.{pt_task}
use fictional_octo_spork.Engine.Started.{start_success}
use fictional_octo_spork.Engine.Handles.{ids_of, ids_of-append, start_holds}
use fictional_octo_spork.Engine.Wiring.{kinds_of, kinds_of-append, start-Wired}
use fictional_octo_spork.Shutdown.{Process, in_run, in_loop, fresh_leaf, running_engine}
use fictional_octo_spork.Shutdown

-- A task that was just spawned.
pub process_of : Kind → Process
process_of (leaf name rt_id config) = fresh_leaf
process_of (arti cfg pt_socks arti_socks dir) = Shutdown.arti in_run
process_of (dns_proxy cfg tun_addr) = Shutdown.loop in_loop
process_of (ipc_server dir) = Shutdown.loop in_loop

abbrev pub processes_of : List Kind → List Process
processes_of [] = []
processes_of (k ∷ ks) = process_of k ∷ processes_of ks

module _ (os : Outside) where
  -- A start put the engine of the schedules into the world.
  pub record Begins (w : World os) (e : Engine) (w' : World os) : Type 0 where
    pub new : List Task
    pub spawned_new : w'.spawned ≡ w.spawned ++ new
    pub on_token : All (λ t. t.token ≡ e.token) new
    pub same_token : is_cancelled os w' e.token ≡ running_engine.token
    pub same_processes : processes_of (kinds_of new) ≡ running_engine.processes
    pub handles : ids_of new ≡ pt_task e.pt ++ e.tasks

  -- If a start succeeds, the tasks that it spawned are, in their order, those with which the schedules of the shutdown
  -- begin, all on the engine's token, which is not cancelled; and the handle of the transport and then those of the
  -- engine are, in the same order, the handles of exactly these tasks.
  pub start-Begins :
      (cfg : AppConfig) (ctx : PlatformContext) (w : World os) {e : Engine} {w' : World os}
      → Engine.start os cfg ctx w ≡ (ok e, w')
      → Begins w e w'
  unfolding process_of
  start-Begins cfg ctx w {e} h =
      let s = start_success os cfg ctx w h in
      let wired = start-Wired os cfg ctx w h in
      let kinds =
        append_cancel_left (kinds_of w.spawned) (kinds_of s.new) _
          (sym (kinds_of-append w.spawned s.new) ∙ sym (ap kinds_of s.spawned_new) ∙ wired.tasks) in
      let ids = append_cancel_left (ids_of w.spawned) (ids_of s.new) (pt_task e.pt ++ e.tasks) (
        sym (ids_of-append w.spawned s.new)
        ∙ sym (ap ids_of s.spawned_new)
        ∙ start_holds os cfg ctx w h) in
      record {
        new = s.new;
        spawned_new = s.spawned_new;
        on_token = s.on_token;
        same_token = s.not_cancelled;
        same_processes = ap processes_of kinds;
        handles = ids;
      }
