-- ===== src/Pt.antt =====
-- rust/core/src/pt/mod.rs and pt/leaf.rs: the pluggable transport.
use fictional_octo_spork.Prelude.{ℕ, Option, none, some}
use fictional_octo_spork.Text.{Text, text}
use fictional_octo_spork.Failure.{other}
use fictional_octo_spork.Action.{Action, ◌>>=◌, pure, raise, lift}
use fictional_octo_spork.Leaf.{pt_socks_inbound_config}
use fictional_octo_spork.World.{
  Outside, World, Provider, leaf_provider, lyrebird, xray, LeafSocksPt, random_endpoint,
  run_leaf_with_config, cancel, abort,
}

-- `PluggableTransport::name`
unfoldable pub name : LeafSocksPt → Text
name pt = text "leaf"

module _ (os : Outside) where
  -- `LeafSocksPt::spawn`
  spawn_leaf : ℕ → Action (World os) LeafSocksPt
  unfolding random_endpoint run_leaf_with_config pt_socks_inbound_config
  spawn_leaf token = do
    socks ← random_endpoint os
    config ← lift (pt_socks_inbound_config os.to_string socks)
    task ← run_leaf_with_config os (text "leaf-pt") config token
    pure (record { socks = socks; token = token; task = some task })

  -- `pt::spawn`
  unfoldable pub spawn : Provider → ℕ → Action (World os) LeafSocksPt
  unfolding spawn_leaf
  spawn leaf_provider token = spawn_leaf token
  spawn lyrebird token = raise (other (text "pluggable transport Lyrebird is not implemented yet"))
  spawn xray token = raise (other (text "pluggable transport Xray is not implemented yet"))

  unfoldable pub abort_task : Option ℕ → World os → World os
  unfolding abort
  abort_task none w = w
  abort_task (some id) w = abort os id w

  -- `PluggableTransport::shutdown`
  unfoldable pub shutdown : LeafSocksPt → World os → LeafSocksPt × World os
  unfolding abort_task cancel
  shutdown pt w = (record pt { task = none }, abort_task pt.task (cancel os pt.token w))

  -- `Drop for LeafSocksPt`
  unfoldable pub drop_pt : LeafSocksPt → World os → World os
  unfolding abort_task cancel
  drop_pt pt w = abort_task pt.task (cancel os pt.token w)
