-- ===== src/Ffi/Android/Starts.antt =====
-- The two `start`s, of rust/core/src/ffi.rs and of rust/jni/src/lib.rs, at the same arguments.
use fictional_octo_spork.Prelude.{
  ℕ, ◌≡◌, ◌⊎◌, inl, inr, refl, subst, true, false, Option, none, some, ℤ,
}
use fictional_octo_spork.Text.{Bytes, Text, text}
use fictional_octo_spork.Text.Utf8.{is_utf8}
use fictional_octo_spork.Failure.{
  Result, Reported, Error, ok, err, good, failed, other, invalid_config, display, ok_or, map_err,
  ◌>>=◌,
}
use fictional_octo_spork.Config.{AppConfig}
use fictional_octo_spork.Net.Parse.{parse_ip}
use fictional_octo_spork.Core
use fictional_octo_spork.Util.{FdGuard, arm, disarm}
use fictional_octo_spork.World.{Outside, World, PlatformContext}
use fictional_octo_spork.Ffi.{
  Codec, Caller, as_u16, c_string, cstr_to_str, set_last_err, prepare, jni_prepare, hand_over,
  context, reported, logged, ff_vpn_start, jni_start, failure,
}
use fictional_octo_spork.Core.{leave}

-- A C string and a Java one that hold the same text, or neither a text.
pub data SameText : Option Bytes → Reported Text → Type 0 where
  readable : {t : Text} → is_utf8 t ≡ true → SameText (some t) (good t)
  null_pointer : {m : Text} → SameText none (failed m)
  not_utf8 : {p : Bytes} {m : Text} → is_utf8 p ≡ false → SameText (some p) (failed m)

-- Both succeed with the same, or both fail.
abbrev Alike : {A : Type 0} → Result A → Result A → Type 0
Alike (ok a) (ok b) = a ≡ b
Alike (err e) (err e') = Unit
Alike _ _ = ⊥

Alike-bind :
    {A B : Type 0} (m m' : Result A) (f g : A → Result B)
    → Alike m m'
    → ((a : A) → Alike (f a) (g a))
    → Alike (m >>= f) (m' >>= g)
Alike-bind (ok a) (ok b) f g h k = subst (λ x. Alike (f a) (g x)) h (k a)
Alike-bind (ok a) (err e) f g h k = absurd h
Alike-bind (err e) (ok a) f g h k = absurd h
Alike-bind (err e) (err e') f g h k = tt

Alike-parsed :
    {A B : Type 0} (o : Option A) (e e' : Error) (k : A → B)
    → Alike (ok_or o e >>= λ a. ok (k a)) (ok_or o e' >>= λ a. ok (k a))
Alike-parsed none e e' k = tt
Alike-parsed (some a) e e' k = refl

Alike-map_err :
    {A : Type 0} (f g : Text → Error) (r : Reported A) → Alike (map_err f r) (map_err g r)
Alike-map_err f g (good a) = refl
Alike-map_err f g (failed m) = tt

module _ (os : Outside) (codec : Codec) where
  text_Alike :
      (f : Text → Error) {p : Option Bytes} {j : Reported Text}
      → SameText p j
      → Alike (cstr_to_str os codec p) (map_err f j)
  unfolding cstr_to_str
  text_Alike f (readable u) = rw u refl
  text_Alike f null_pointer = tt
  text_Alike f (not_utf8 u) = rw u tt

  prepare-Alike :
      {cfg dir addr : Option Bytes} {cfg' dir' addr' : Reported Text} (fd mtu : ℤ)
      → SameText cfg cfg'
      → SameText dir dir'
      → SameText addr addr'
      → Alike
          (prepare os codec cfg dir fd addr (as_u16 mtu))
          (jni_prepare os codec cfg' dir' fd addr' mtu)
  unfolding prepare jni_prepare
  prepare-Alike fd mtu c d a = Alike-bind _ _ _ _ (text_Alike _ c) λ cfg.
      Alike-bind _ _ _ _ (text_Alike _ d) λ dir. Alike-bind _ _ _ _ (text_Alike _ a) λ addr.
        Alike-bind _ _ _ _ (Alike-map_err _ _ (codec.read_config cfg)) λ parsed.
          Alike-parsed (parse_ip addr) (invalid_config (text "invalid IP address syntax"))
            (other (text "invalid IP address syntax"))
            λ ip. (parsed, context os codec dir ip fd (as_u16 mtu))

  -- What the two calls come to: the same exit code and the same process, and for C the last error of the thread,
  -- which is left alone by a success.
  pub record SameStart (c : Caller os codec) (there : ℕ × Caller os codec) (here : ℕ × World os)
      : Type 0 where
    pub same_code : there.0 ≡ here.0
    pub same_world : there.1.world ≡ here.1
    pub error :
        ((there.0 ≡ 0) × (there.1.last_err ≡ c.last_err))
        ⊎ ((there.0 ≡ 1) × (m : Text) × (there.1.last_err ≡ c_string m))

  started :
      {A : Type 0} (guard : FdGuard) (m : Result A × World os) {c : Caller os codec}
      → let out : Option Error × World os = (failure m.0, leave os guard m.1) in
        SameStart c (reported os codec out c) (logged os codec out)
  unfolding reported logged set_last_err
  started guard (ok a, w) = record { same_code = refl; same_world = refl; error = inl (refl, refl) }
  started guard (err e, w) = record {
    same_code = refl;
    same_world = refl;
    error = inr (refl, display e, refl);
  }

  handed_over :
      (guard : FdGuard) (r r' : Result (AppConfig × PlatformContext)) (c : Caller os codec)
      → Alike r r'
      → SameStart c
          (reported os codec (hand_over os codec guard r c.world) c)
          (logged os codec (hand_over os codec guard r' c.world))
  unfolding hand_over reported logged set_last_err
  handed_over guard (ok (cfg, ctx)) (ok b) c h =
      subst
        (λ x.
          SameStart c (reported os codec (hand_over os codec guard (ok (cfg, ctx)) c.world) c)
            (logged os codec (hand_over os codec guard (ok x) c.world)))
        h (started (disarm guard) (Core.start os cfg ctx c.world))
  handed_over guard (ok a) (err e) c h = absurd h
  handed_over guard (err e) (ok a) c h = absurd h
  handed_over guard (err e) (err e') c h = record {
    same_code = refl;
    same_world = refl;
    error = inr (refl, display e, refl);
  }

  -- Both `start`s do the same: given strings that hold the same texts, or hold none in the same places, the same
  -- descriptor, and the low 16 bits of the Java MTU as the C one, they end with the same code and leave the same
  -- process, its descriptors included. The C call leaves the last error of the thread alone if it succeeds, and sets
  -- it to the C string of a message if it fails.
  pub starts-Agree :
      {cfg dir addr : Option Bytes} {cfg' dir' addr' : Reported Text} (fd mtu : ℤ)
      (c : Caller os codec)
      → SameText cfg cfg'
      → SameText dir dir'
      → SameText addr addr'
      → SameStart c
          (ff_vpn_start os codec cfg dir fd addr (as_u16 mtu) c)
          (jni_start os codec cfg' dir' fd addr' mtu c.world)
  unfolding ff_vpn_start jni_start
  starts-Agree fd mtu c s d a = handed_over (arm fd) _ _ c (prepare-Alike fd mtu s d a)
