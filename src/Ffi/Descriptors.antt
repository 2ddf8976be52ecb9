-- ===== src/Ffi/Descriptors.antt =====
-- The tunnel's descriptor across the two guards of a platform's `start` and of the core's.
use fictional_octo_spork.Prelude.{
  ℕ, zero, suc, ◌≡◌, refl, ap, ◌∙◌, Option, none, some, List, [], ◌++◌, ℤ,
}
use fictional_octo_spork.Text.{Bytes, Text, text}
use fictional_octo_spork.Failure.{
  Result, Reported, Error, ok, err, map_err, other, json, from_bind, from_ok_or,
}
use fictional_octo_spork.Net.Parse.{parse_ip}
use fictional_octo_spork.Config.{AppConfig}
use fictional_octo_spork.Util.{arm, disarm, drop_guard}
use fictional_octo_spork.World.{Outside, World, PlatformContext}
use fictional_octo_spork.Core.{EngineHandle, leave}
use fictional_octo_spork.Core.Ownership.{owned, closes, leave-arm, start_lem}
use fictional_octo_spork.Ffi.{
  Codec, failure, Caller, prepare, hand_over, reported, cstr_to_str, ff_vpn_start, jni_prepare,
  jni_start, logged,
}

-- The descriptors that a call closes that ended in this code.
abbrev pub closed_with : ℤ → ℕ → List ℤ
closed_with fd zero = []
closed_with fd (suc code) = owned fd

module _ (os : Outside) (codec : Codec) where
  abbrev pub code : Option Error → ℕ
  code none = 0
  code (some e) = 1

  same_code :
      (a b : ℤ) (r : Result EngineHandle) → a ≡ b → closes os a r ≡ closed_with b (code (failure r))
  same_code a b (ok h) p = refl
  same_code a b (err e) p = ap owned p

  hand_over_lem :
      (fd : ℤ) (p : Result (AppConfig × PlatformContext)) (w : World os)
      → ((cfg : AppConfig) (ctx : PlatformContext) → p ≡ ok (cfg, ctx) → ctx.tun_fd ≡ fd)
      → let r = hand_over os codec (arm fd) p w in
        r.1.closed ≡ w.closed ++ closed_with fd (code r.0)
  unfolding hand_over leave disarm drop_guard
  hand_over_lem fd (err e) w h = leave-arm os fd w
  hand_over_lem fd (ok (cfg, ctx)) w h =
      let o = start_lem os cfg ctx w in
      o.closed_by ∙ ap (λ l. w.closed ++ l) (same_code ctx.tun_fd fd _ (h cfg ctx refl))

  prepare-fd :
      (cfg dir : Option Bytes) (fd : ℤ) (addr : Option Bytes) (mtu : ℕ) {parsed : AppConfig}
      {ctx : PlatformContext}
      → prepare os codec cfg dir fd addr mtu ≡ ok (parsed, ctx)
      → ctx.tun_fd ≡ fd
  unfolding prepare
  prepare-fd cfg dir fd addr mtu h = from_bind (cstr_to_str os codec cfg) _ h λ c p1 h1.
      from_bind (cstr_to_str os codec dir) _ h1 λ d p2 h2.
        from_bind (cstr_to_str os codec addr) _ h2 λ a p3 h3.
          from_bind (map_err json (codec.read_config c)) _ h3
            λ x p4 h4. from_ok_or (parse_ip a) _ _ h4 λ ip p5 h5. cc

  jni_prepare-fd :
      (cfg dir : Reported Text) (fd : ℤ) (addr : Reported Text) (mtu : ℤ) {parsed : AppConfig}
      {ctx : PlatformContext}
      → jni_prepare os codec cfg dir fd addr mtu ≡ ok (parsed, ctx)
      → ctx.tun_fd ≡ fd
  unfolding jni_prepare
  jni_prepare-fd cfg dir fd addr mtu h =
      from_bind (map_err (λ m. other (text "try_to_string config: " ++ m)) cfg) _ h λ c p1 h1.
        from_bind (map_err (λ m. other (text "try_to_string private_dir: " ++ m)) dir) _ h1
          λ d p2 h2.
            from_bind (map_err (λ m. other (text "try_to_string tun_addr: " ++ m)) addr) _ h2
              λ a p3 h3.
                from_bind (map_err other (codec.read_config c)) _ h3
                  λ x p4 h4. from_ok_or (parse_ip a) _ _ h4 λ ip p5 h5. cc

  -- However `ff_vpn_start` ends, between its own guard and the core's the descriptor that it was given is
  -- closed exactly once if it returns 1 and the descriptor is not negative, and no descriptor is closed otherwise.
  pub ff_vpn_start-closes :
      (cfg dir : Option Bytes) (fd : ℤ) (addr : Option Bytes) (mtu : ℕ) (c : Caller os codec)
      → let (result, c') = ff_vpn_start os codec cfg dir fd addr mtu c in
        c'.world.closed ≡ c.world.closed ++ closed_with fd result
  unfolding ff_vpn_start reported
  ff_vpn_start-closes cfg dir fd addr mtu c =
      go (hand_over os codec (arm fd) (prepare os codec cfg dir fd addr mtu) c.world) (
        hand_over_lem fd (prepare os codec cfg dir fd addr mtu) c.world
          λ p ctx h. prepare-fd cfg dir fd addr mtu h)
    where
      go :
          (r : Option Error × World os)
          → r.1.closed ≡ c.world.closed ++ closed_with fd (code r.0)
          → (reported os codec r c).1.world.closed
            ≡ c.world.closed ++ closed_with fd (reported os codec r c).0
      go (none, w) h = h
      go (some e, w) h = h

  -- However `Java_com_incss_ff_vpn_NativeBridge_start` ends, between its own guard and the core's the descriptor that it
  -- was given is closed exactly once if it returns 1 and the descriptor is not negative, and no descriptor is closed
  -- otherwise.
  pub jni_start-closes :
      (cfg dir : Reported Text) (fd : ℤ) (addr : Reported Text) (mtu : ℤ) (w : World os)
      → let (result, w') = jni_start os codec cfg dir fd addr mtu w in
        w'.closed ≡ w.closed ++ closed_with fd result
  unfolding jni_start logged
  jni_start-closes cfg dir fd addr mtu w = go _ (
      hand_over_lem fd (jni_prepare os codec cfg dir fd addr mtu) w
        λ p ctx h. jni_prepare-fd cfg dir fd addr mtu h)
    where
      go :
          (r : Option Error × World os)
          → r.1.closed ≡ w.closed ++ closed_with fd (code r.0)
          → (logged os codec r).1.closed ≡ w.closed ++ closed_with fd (logged os codec r).0
      go (none, w) h = h
      go (some e, w) h = h
