-- ===== src/Ffi/Android.antt =====
-- The calls of rust/jni/src/lib.rs beside its `start`, next to those of rust/core/src/ffi.rs. `new_string` is the
-- environment's, and a null pointer is `none`.
pub mod Starts
use fictional_octo_spork.Prelude.{
  ℕ, ◌≡◌, refl, true, false, Option, none, some, [], ◌∷◌, All, arith,
}
use fictional_octo_spork.Text.{Text}
use fictional_octo_spork.Failure.{Result, Reported, good, failed, ok, err}
use fictional_octo_spork.Ipc.Token.{current_auth_token, HoldsToken, IsToken, tokens_well_formed}
use fictional_octo_spork.Util.Password.{is_alphanumeric}
use fictional_octo_spork.World.{Outside, World}
use fictional_octo_spork.Core
use fictional_octo_spork.Core.{init_logging, status}
use fictional_octo_spork.Ffi.{
  Codec, Caller, contains_nul, c_string, or_braces, ff_vpn_init, ff_vpn_stop, ff_vpn_status_json,
  ff_vpn_ipc_auth_token, reported,
}

-- `.map(|j| j.into_raw()).unwrap_or(std::ptr::null_mut())`
abbrev pub nullable : {A : Type 0} → Reported A → Option A
nullable (good a) = some a
nullable (failed m) = none

abbrev pub exit_code : Result (Unit {0}) → ℕ
exit_code (ok t) = 0
exit_code (err e) = 1

module _ (os : Outside) (codec : Codec) {JString : Type 0}
    (new_string : Text → Reported JString) where
  -- `Java_com_incss_ff_vpn_NativeBridge_init`
  pub jni_init : World os → World os
  unfolding init_logging
  jni_init w = init_logging os w

  -- `Java_com_incss_ff_vpn_NativeBridge_stop`
  pub jni_stop : World os → ℕ × World os
  unfolding Core.stop
  jni_stop w = let (r, w') = Core.stop os w in (exit_code r, w')

  -- `Java_com_incss_ff_vpn_NativeBridge_statusJson`
  pub jni_status_json : World os → Option JString
  unfolding status or_braces
  jni_status_json w = nullable (new_string (or_braces os codec (codec.write_status (status os w))))

  -- `Java_com_incss_ff_vpn_NativeBridge_ipcAuthToken`
  pub jni_ipc_auth_token : World os → Option JString × World os
  jni_ipc_auth_token w =
      let (t, cell) = current_auth_token os.rng w.server.cell in
      (nullable (new_string t), record w { server = record w.server { cell = cell } })

  no_nul : (t : Text) → All (λ c. is_alphanumeric c ≡ true) t → contains_nul t ≡ false
  unfolding contains_nul
  no_nul [] h = refl
  no_nul (c ∷ cs) h = ground (arith, no_nul cs h.1, h.0)

  -- What a call to the C interface and one to the Java interface have in common.
  pub record Agree (c : Caller os codec) : Type 0 where
    pub status_text : Text
    pub token : Text
    pub same_stop : ff_vpn_stop os codec c ≡ (0, record c { world = (jni_stop c.world).1 })
    pub stops : (jni_stop c.world).0 ≡ 0
    pub c_status : ff_vpn_status_json os codec c ≡ c_string status_text
    pub java_status : jni_status_json c.world ≡ nullable (new_string status_text)
    pub is_token : IsToken os.rng token
    pub c_token : (ff_vpn_ipc_auth_token os codec c).0 ≡ some token
    pub java_token : (jni_ipc_auth_token c.world).0 ≡ nullable (new_string token)
    pub same_cell : (ff_vpn_ipc_auth_token os codec c).1.world ≡ (jni_ipc_auth_token c.world).1
    pub same_init : (ff_vpn_init os codec c).world ≡ jni_init c.world

  -- While what the cell of the IPC token holds, if anything, is a token, both platforms do the same: `stop` returns 0
  -- and leaves the same process, and the last error as it was; the status is the same text, if the platform can make
  -- a string of it; both give the same token, of which the C string is not null, and leave the same process; and both
  -- initialise the log alike.
  pub platforms-Agree : (c : Caller os codec) → HoldsToken os.rng c.world.server.cell → Agree c
  unfolding ff_vpn_stop reported ff_vpn_status_json ff_vpn_ipc_auth_token c_string ff_vpn_init
      jni_init jni_stop jni_status_json jni_ipc_auth_token
  platforms-Agree c h =
      let (_, is, _, _) = tokens_well_formed os.rng c.world.server.cell h in
      record {
        status_text = or_braces os codec (codec.write_status (status os c.world));
        token = (current_auth_token os.rng c.world.server.cell).0;
        same_stop = refl;
        stops = refl;
        c_status = refl;
        java_status = refl;
        is_token = is;
        c_token = rw (no_nul _ is.1) refl;
        java_token = refl;
        same_cell = refl;
        same_init = refl;
      }
