-- ===== src/Ffi.antt =====
-- rust/core/src/ffi.rs, the C interface, and rust/jni/src/lib.rs, the one for Android. A C string is the
-- bytes before its NUL, or `none` where the pointer is null; a Java string is what `try_to_string` makes of it.
pub mod Descriptors
pub mod Android
pub mod Strings
use fictional_octo_spork.Prelude.{
  ℕ, ◌+◌, ◌-◌, ◌%◌, ◌^◌, ◌≡◌, refl, Bool, true, false, Option, none, some, List, [], ◌∷◌, ◌++◌, ℤ,
  pos, negsuc, if◌then◌else◌, ◌==◌, ◌||◌,
}
use fictional_octo_spork.Text.{Bytes, Text, text}
use fictional_octo_spork.Text.Utf8.{is_utf8}
use fictional_octo_spork.Text.Utf8Error.{utf8_error}
use fictional_octo_spork.Failure.{
  Result, Reported, Error, ok, err, good, failed, other, json, invalid_config, display, ok_or,
  map_err, ◌>>=◌,
}
use fictional_octo_spork.Config.{AppConfig}
use fictional_octo_spork.Net.{IpAddr}
use fictional_octo_spork.Net.Parse.{parse_ip}
use fictional_octo_spork.Ipc.Messages.{Status}
use fictional_octo_spork.Ipc.Token.{current_auth_token}
use fictional_octo_spork.Util.{FdGuard, arm, disarm}
use fictional_octo_spork.World.{Outside, World, PlatformContext, leaf_provider}
use fictional_octo_spork.Core
use fictional_octo_spork.Core.{EngineHandle, leave, init_logging, status}

-- Whether a byte of the string is NUL.
contains_nul : Bytes → Bool
contains_nul [] = false
contains_nul (b ∷ bs) = b == 0 || contains_nul bs

-- `CString::new`
unfoldable pub c_string : Text → Option Bytes
unfolding contains_nul
c_string s = if contains_nul s then none else some s

-- What serde_json reads and writes.
pub record Codec : Type 0 where
  pub read_config : Text → Reported AppConfig
  pub write_status : Status → Reported Text

abbrev pub failure {ℓ} : {A : Type ℓ} → Result A → Option Error
failure (ok a) = none
failure (err e) = some e

-- `x as u16`, for an `i32`
unfoldable pub as_u16 : ℤ → ℕ
as_u16 (pos n) = n % 2 ^ 16
as_u16 (negsuc n) = 2 ^ 16 - 1 - n % 2 ^ 16

module _ (os : Outside) (codec : Codec) where
  -- The world, with the last error of the thread that calls.
  pub record Caller : Type 0 where
    pub world : World os
    pub last_err : Option Bytes

  -- `cstr_to_str`
  unfoldable pub cstr_to_str : Option Bytes → Result Text
  cstr_to_str none = err (other (text "null FFI pointer"))
  cstr_to_str (some p) =
      if is_utf8 p then ok p else err (other (text "invalid utf-8: " ++ utf8_error p))

  -- `set_last_err`
  unfoldable pub set_last_err : Text → Caller → Caller
  unfolding c_string
  set_last_err msg c = record c { last_err = c_string msg }

  -- `ff_vpn_last_error`
  unfoldable pub ff_vpn_last_error : Caller → Option Bytes
  ff_vpn_last_error c = c.last_err

  -- `ff_vpn_init`
  unfoldable pub ff_vpn_init : Caller → Caller
  unfolding init_logging
  ff_vpn_init c = record c { world = init_logging os c.world }

  -- The context of both platforms' `start`.
  abbrev context : Text → IpAddr → ℤ → ℕ → PlatformContext
  context dir ip fd mtu = record {
    tun_fd = fd;
    tun_addr = ip;
    tun_mtu = mtu;
    private_dir = dir;
    pt_provider = leaf_provider;
  }

  -- `ff_vpn_start` before the descriptor is handed to the core
  unfoldable pub prepare :
      Option Bytes → Option Bytes → ℤ → Option Bytes → ℕ → Result (AppConfig × PlatformContext)
  unfolding cstr_to_str
  prepare config_json private_dir tun_fd tun_addr tun_mtu = do
    cfg ← cstr_to_str config_json
    dir ← cstr_to_str private_dir
    addr ← cstr_to_str tun_addr
    parsed ← map_err json (codec.read_config cfg)
    ip ← ok_or (parse_ip addr) (invalid_config (text "invalid IP address syntax"))
    ok (parsed, context dir ip tun_fd tun_mtu)

  -- Both platforms' `start` from there on: the guard that they armed, and what they do with an error.
  unfoldable pub hand_over :
      FdGuard → Result (AppConfig × PlatformContext) → World os → Option Error × World os
  unfolding leave disarm Core.start
  hand_over guard (err e) w = (some e, leave os guard w)
  hand_over guard (ok (cfg, ctx)) w =
      let (r, w1) = Core.start os cfg ctx w in (failure r, leave os (disarm guard) w1)

  reported : Option Error × World os → Caller → ℕ × Caller
  unfolding set_last_err
  reported (none, w) c = (0, record c { world = w })
  reported (some e, w) c = (1, set_last_err (display e) (record c { world = w }))

  -- `ff_vpn_start`
  unfoldable pub ff_vpn_start :
      Option Bytes → Option Bytes → ℤ → Option Bytes → ℕ → Caller → ℕ × Caller
  unfolding prepare hand_over reported
  ff_vpn_start config_json private_dir tun_fd tun_addr tun_mtu c =
      reported
        (hand_over (arm tun_fd) (prepare config_json private_dir tun_fd tun_addr tun_mtu) c.world) c

  -- `Java_com_incss_ff_vpn_NativeBridge_start` before the descriptor is handed to the core. Its errors are only
  -- logged, so that they are all `Other` here.
  unfoldable pub jni_prepare :
      Reported Text → Reported Text → ℤ → Reported Text → ℤ → Result (AppConfig × PlatformContext)
  unfolding as_u16
  jni_prepare config_json private_dir tun_fd tun_addr tun_mtu = do
    cfg ← map_err (λ m. other (text "try_to_string config: " ++ m)) config_json
    dir ← map_err (λ m. other (text "try_to_string private_dir: " ++ m)) private_dir
    addr ← map_err (λ m. other (text "try_to_string tun_addr: " ++ m)) tun_addr
    parsed ← map_err other (codec.read_config cfg)
    ip ← ok_or (parse_ip addr) (other (text "invalid IP address syntax"))
    ok (parsed, context dir ip tun_fd (as_u16 tun_mtu))

  logged : Option Error × World os → ℕ × World os
  logged (none, w) = (0, w)
  logged (some e, w) = (1, w)

  -- `Java_com_incss_ff_vpn_NativeBridge_start`
  unfoldable pub jni_start :
      Reported Text → Reported Text → ℤ → Reported Text → ℤ → World os → ℕ × World os
  unfolding jni_prepare hand_over logged
  jni_start config_json private_dir tun_fd tun_addr tun_mtu w =
      logged
        (hand_over (arm tun_fd) (jni_prepare config_json private_dir tun_fd tun_addr tun_mtu) w)

  -- `ff_vpn_stop`
  unfoldable pub ff_vpn_stop : Caller → ℕ × Caller
  unfolding Core.stop reported
  ff_vpn_stop c = let (r, w) = Core.stop os c.world in reported (failure r, w) c

  or_braces : Reported Text → Text
  or_braces (good s) = s
  or_braces (failed m) = text "{}"

  -- `ff_vpn_status_json`
  unfoldable pub ff_vpn_status_json : Caller → Option Bytes
  unfolding status c_string or_braces
  ff_vpn_status_json c = c_string (or_braces (codec.write_status (status os c.world)))

  -- `ff_vpn_ipc_auth_token`
  unfoldable pub ff_vpn_ipc_auth_token : Caller → Option Bytes × Caller
  unfolding c_string
  ff_vpn_ipc_auth_token c =
      let (t, cell) = current_auth_token os.rng c.world.server.cell in
      (
        c_string t,
        record c { world = record c.world { server = record c.world.server { cell = cell } } },
      )
