-- ===== src/Core.antt =====
-- rust/core/src/lib.rs: the process-wide engine, and the ownership of the tunnel's file descriptor.
pub mod Ownership
pub mod Cancelled
pub mod Orderly
pub mod History
pub mod Threads
pub mod Contract
use fictional_octo_spork.Prelude.{
  ℕ, ◌≡◌, refl, Bool, true, false, Option, none, some, List, [], ◌∷◌, ◌++◌,
}
use fictional_octo_spork.Failure.{Result, ok, err, already_running}
use fictional_octo_spork.Action.{Action}
use fictional_octo_spork.Config.{AppConfig}
use fictional_octo_spork.Ipc.Messages.{Status, idle_status}
use fictional_octo_spork.Util.{FdGuard, arm, disarm, drop_guard}
use fictional_octo_spork.World.{Outside, World, PlatformContext, Engine, cancel}
use fictional_octo_spork.Engine

-- `EngineHandle`: the token that it shares with its engine
pub record EngineHandle : Type 0 where
  pub token : ℕ

-- `Engine::handle`
abbrev pub handle : Engine → EngineHandle
handle e = record { token = e.token }

-- `Engine::status_snapshot`
abbrev pub status_snapshot : Engine → Status
status_snapshot e = e.status

module _ (os : Outside) where
  -- `EngineHandle::stop`
  unfoldable pub handle_stop : EngineHandle → World os → World os
  unfolding cancel
  handle_stop h w = cancel os h.token w

  -- `init_logging`: the flag that `INIT.swap` sets. The subscriber is not modelled.
  unfoldable pub init_logging : World os → World os
  init_logging w = record w { logging = true }

  -- A guard that goes out of scope.
  unfoldable pub leave : FdGuard → World os → World os
  unfolding drop_guard
  leave guard w = record w { closed = drop_guard guard w.closed }

  -- What follows `Engine::start` in `start`.
  unfoldable pub settle : FdGuard → Result Engine × World os → Result EngineHandle × World os
  unfolding leave disarm
  settle guard (err e, w) = (err e, leave guard w)
  settle guard (ok engine, w) =
      (ok (handle engine), leave (disarm guard) (record w { slot = some engine }))

  -- `start`
  unfoldable pub start : AppConfig → PlatformContext → Action (World os) EngineHandle
  unfolding settle leave init_logging arm Engine.start
  start cfg ctx w =
      let w1 = init_logging w in
      let guard = arm ctx.tun_fd in
      elim w1.slot [
        | some _ ↦ (err already_running, leave guard w1)
        | none ↦ settle guard (Engine.start os cfg ctx w1)
      ]

  -- The engine that `slot.take()` gives is stopped and then dropped.
  unfoldable pub finish : Option Engine → World os → World os
  unfolding Engine.stop Engine.drop_engine
  finish none w = w
  finish (some engine) w = let (e, w1) = Engine.stop os engine w in Engine.drop_engine os e w1

  -- `stop`
  unfoldable pub stop : Action (World os) (Unit {0})
  unfolding finish
  stop w = (ok tt, finish w.slot (record w { slot = none }))

  -- `status`
  unfoldable pub status : World os → Status
  status w = elim w.slot [ some e ↦ status_snapshot e | none ↦ idle_status ]
