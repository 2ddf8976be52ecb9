-- ===== src/Config.antt =====
-- rust/core/src/config.rs: the raw shape of the upstream JSON, the configuration that the engine
-- consumes, and how the one is made of the other.
pub mod Selects
pub mod Refusals
pub mod Store
pub mod Types
use fictional_octo_spork.Prelude.{
  ℕ, Bool, true, false, not, Option, none, some, List, [], ◌∷◌, ◌++◌, if◌then◌else◌,
}
use fictional_octo_spork.Text.{Text, text, eq_ignore_ascii_case, trim, is_empty}
use fictional_octo_spork.Failure.{
  Result, Reported, ok, err, json, invalid_config, ok_or, ensure, map_err, ◌>>=◌, ◌>>◌,
}
use fictional_octo_spork.Net.{IpAddr}
use fictional_octo_spork.Net.Parse.{parse_ip}

pub record RawUser : Type 0 where
  pub id : Text
  pub flow : Text

pub record RawVnext : Type 0 where
  pub address : Text
  pub port : ℕ  -- u16
  pub users : List RawUser

pub record RawGrpc : Type 0 where
  pub service_name : Text

pub record RealitySettings : Type 0 where
  pub server_name : Text
  pub public_key : Text
  pub short_id : Text
  pub fingerprint : Text

pub record RawReality : Type 0 where
  pub server_name : Text
  pub public_key : Text
  pub short_id : Text
  pub fingerprint : Text

pub record RawStreamSettings : Type 0 where
  pub network : Text
  pub grpc_settings : Option RawGrpc
  pub security : Text
  pub reality_settings : Option RawReality

-- `settings` holds the one field `vnext`.
pub record RawOutbound : Type 0 where
  pub tag : Text
  pub protocol : Text
  pub vnext : List RawVnext
  pub stream_settings : RawStreamSettings

pub record RawRoot : Type 0 where
  pub bridge_rsa_id : Text
  pub bridge_ed25519_id : Text
  pub doh_server : Text
  pub doh_server_ip : Option Text
  pub outbounds : List RawOutbound

pub record VlessOutbound : Type 0 where
  pub tag : Text
  pub address : Text
  pub port : ℕ  -- u16
  pub user_id : Text
  pub flow : Text
  pub grpc_service_name : Text
  pub reality : RealitySettings

pub record UserPrefs : Type 0 where
  pub exit_country : Option Text
  pub allowed_packages : Option (List Text)
  pub disallowed_packages : Option (List Text)

-- `UserPrefs::default()`
abbrev pub default_prefs : UserPrefs
default_prefs = record { exit_country = none; allowed_packages = none; disallowed_packages = none }

pub record AppConfig : Type 0 where
  pub bridge_rsa_id : Text
  pub bridge_ed25519_id : Text
  pub doh_server : Text
  pub doh_server_ip : Option IpAddr
  pub outbound : VlessOutbound
  pub user : UserPrefs

unfoldable pub is_vless : RawOutbound → Bool
is_vless o = eq_ignore_ascii_case o.protocol (text "vless")

-- `Iterator::find`, at that test
unfoldable pub find_vless : List RawOutbound → Option RawOutbound
find_vless [] = none
find_vless (o ∷ os) = if is_vless o then some o else find_vless os

-- `into_iter().next()`
unfoldable pub first : {A : Type 0} → List A → Option A
first [] = none
first (a ∷ as') = some a

-- The `IpAddr` of `raw.doh_server_ip`, where that is there and not blank. The text of the
-- `AddrParseError` does not depend on the input.
unfoldable pub parse_doh_ip : Option Text → Result (Option IpAddr)
parse_doh_ip none = ok none
parse_doh_ip (some s) = if is_empty (trim s) then ok none else do
  ip ← ok_or (parse_ip s) (invalid_config (text "doh_server_ip: invalid IP address syntax"))
  ok (some ip)

-- The `AppConfig` that the parts make.
abbrev pub assemble :
    RawRoot → RawOutbound → RawGrpc → RawReality → RawVnext → RawUser → Option IpAddr → AppConfig
assemble raw outbound grpc reality vnext user ip = record {
  bridge_rsa_id = raw.bridge_rsa_id;
  bridge_ed25519_id = raw.bridge_ed25519_id;
  doh_server = raw.doh_server;
  doh_server_ip = ip;
  outbound = record {
    tag = outbound.tag;
    address = vnext.address;
    port = vnext.port;
    user_id = user.id;
    flow = user.flow;
    grpc_service_name = grpc.service_name;
    reality = record {
      server_name = reality.server_name;
      public_key = reality.public_key;
      short_id = reality.short_id;
      fingerprint = reality.fingerprint;
    };
  };
  user = default_prefs;
}

-- `AppConfig::from_json` behind `serde_json::from_str`.
unfoldable pub from_raw : RawRoot → Result AppConfig
from_raw raw = do
  outbound ← ok_or (find_vless raw.outbounds) (invalid_config (text "no vless outbound found"))
  let stream = outbound.stream_settings
  ensure (eq_ignore_ascii_case stream.security (text "reality"))
      (invalid_config (text "only reality streamSettings.security is supported"))
  ensure (eq_ignore_ascii_case stream.network (text "grpc"))
      (invalid_config (text "only grpc streamSettings.network is supported"))
  grpc ← ok_or stream.grpc_settings (invalid_config (text "missing grpcSettings"))
  reality ← ok_or stream.reality_settings (invalid_config (text "missing realitySettings"))
  vnext ← ok_or (first outbound.vnext) (invalid_config (text "empty vnext list"))
  user ← ok_or (first vnext.users) (invalid_config (text "empty users list"))
  ip ← parse_doh_ip raw.doh_server_ip
  ok (assemble raw outbound grpc reality vnext user ip)

-- `AppConfig::from_json`; `decode` is `serde_json::from_str`.
unfoldable pub from_json : (Text → Reported RawRoot) → Text → Result AppConfig
from_json decode source = do raw ← map_err json (decode source); from_raw raw
