-- ===== src/Arti.antt =====
-- rust/core/src/engine/arti_runtime.rs, all but its SOCKS5 server: the configuration of the Tor client, its
-- bootstrap, and the listener in front of it.
pub mod Unable
pub mod Reaches
pub mod Listener
use fictional_octo_spork.Prelude.{
  ℕ, ◌==◌, if◌then◌else◌, Bool, true, false, not, Option, none, some, List, [], ◌∷◌, ◌++◌,
}
use fictional_octo_spork.Text.{Text, text}
use fictional_octo_spork.Failure.{Reported, Result, good, failed, ok, err, io, arti, map_err}
use fictional_octo_spork.Action.{Action, ◌>>=◌, ◌>>◌, pure, lift}
use fictional_octo_spork.Net.{SocketAddr}
use fictional_octo_spork.Config.{AppConfig}
use fictional_octo_spork.Runtime.{SocksEndpoint}
use fictional_octo_spork.Socks.{HostPort}

-- What `build_arti_config` puts into a `TorClientConfig::builder()`.
pub record Settings (Bridge PtName : Type 0) : Type 0 where
  pub cache_dir : Text
  pub state_dir : Text
  pub bridges : List Bridge
  pub transports : List (List PtName × SocketAddr)
  pub bridges_enabled : Bool

-- The Tor crates, the file system and the network, and `{:?}` of a text.
pub record TorCrates : Type 1 where
  pub Bridge : Type 0
  pub PtName : Type 0
  pub Config : Type 0
  pub Client : Type 0
  pub Country : Type 0
  pub parse_bridge : Text → Reported Bridge
  pub parse_pt_name : Text → Reported PtName
  pub build : Settings Bridge PtName → Reported Config
  pub current_runtime : Reported (Unit {0})
  pub create_bootstrapped : Config → Reported Client
  pub parse_country : Text → Reported Country
  pub set_exit_country : Country → Client → Client
  pub create_dir_all : Text → Reported (Unit {0})
  pub bind : SocketAddr → Reported (Unit {0})
  pub debug_text : Text → Text
  pub TorAddr : Type 0
  pub from : HostPort → Reported TorAddr
  pub connect : Client → TorAddr → Reported (Unit {0})
  pub debug_addr : TorAddr → Text

-- Whether `Path::join` puts a separator behind the path.
needs_separator : Text → Bool
needs_separator [] = false
needs_separator (c ∷ []) = not (c == b'/')
needs_separator (c ∷ d ∷ cs) = needs_separator (d ∷ cs)

-- `Path::join`, at a relative name
unfoldable pub join : Text → Text → Text
unfolding needs_separator
join dir name = if needs_separator dir then dir ++ b'/' ∷ name else dir ++ name

-- The line that `build_arti_config` formats
unfoldable pub bridge_line : AppConfig → Text
bridge_line cfg =
    text "Bridge obfs4 0.0.0.0:1 "
    ++ (cfg.bridge_rsa_id ++ (text " ed25519:" ++ cfg.bridge_ed25519_id))

-- `anyhow::Context::with_context`: of the error only the context is printed.
abbrev with_context {ℓ} : {A : Type ℓ} → Text → Reported A → Reported A
with_context message (good a) = good a
with_context message (failed m) = failed message

-- `?` on what a library reports
abbrev and_then {ℓ κ} : {A : Type ℓ} {B : Type κ} → Reported A → (A → Reported B) → Reported B
and_then (good a) next = next a
and_then (failed m) next = failed m

-- The directories made so far and the address listened on.
pub record Progress : Type 0 where
  pub dirs : List Text
  pub listening : Option SocketAddr

abbrev pub untouched : Progress
untouched = record { dirs = []; listening = none }

module _ (crates : TorCrates) where
  open crates use {Bridge, PtName, Config, Client}

  abbrev pub settings : Text → Text → Bridge → PtName → SocketAddr → Settings Bridge PtName
  settings cache_dir state_dir bridge proto proxy_addr = record {
    cache_dir = cache_dir;
    state_dir = state_dir;
    bridges = bridge ∷ [];
    transports = (proto ∷ [], proxy_addr) ∷ [];
    bridges_enabled = true;
  }

  -- `build_arti_config`
  unfoldable pub build_arti_config : AppConfig → SocksEndpoint → Text → Text → Reported Config
  build_arti_config cfg pt_socks cache_dir state_dir =
      and_then
        (with_context (text "invalid bridge line: " ++ crates.debug_text (bridge_line cfg))
          (crates.parse_bridge (bridge_line cfg)))
        λ bridge.
          and_then (crates.parse_pt_name (text "obfs4"))
            λ proto. crates.build (settings cache_dir state_dir bridge proto pt_socks.addr)

  create_dir : Text → Action Progress (Unit {0})
  create_dir dir p = elim (crates.create_dir_all dir) [
    | good t ↦ (ok tt, record p { dirs = p.dirs ++ dir ∷ [] })
    | failed m ↦ (err (io m), p)
  ]

  listen : SocketAddr → Action Progress (Unit {0})
  listen addr p = elim (crates.bind addr) [
    | good t ↦ (ok tt, record p { listening = some addr })
    | failed m ↦ (err (io m), p)
  ]

  -- The preference that `run` sets, if the country code parses.
  pub prefer_exit : Option Text → Client → Client
  prefer_exit none client = client
  prefer_exit (some code) client = elim (crates.parse_country code) [
    | good cc ↦ crates.set_exit_country cc client
    | failed m ↦ client
  ]

  -- `run`, up to its loop
  unfoldable pub bring_up :
      AppConfig → SocksEndpoint → SocksEndpoint → Text → Action Progress Client
  unfolding create_dir listen prefer_exit
  bring_up cfg pt_socks arti_socks private_dir = do
    let cache_dir = join private_dir (text "arti-cache")
    let state_dir = join private_dir (text "arti-state")
    create_dir cache_dir
    create_dir state_dir
    arti_cfg ← lift (map_err arti (build_arti_config cfg pt_socks cache_dir state_dir))
    lift (map_err arti crates.current_runtime)
    client ←
        lift (map_err (λ m. arti (text "bootstrap: " ++ m)) (crates.create_bootstrapped arti_cfg))
    let preferring = prefer_exit cfg.user.exit_country client
    listen arti_socks.addr
    pure preferring
