-- ===== src/Arti/Unable.antt =====
-- Why `run` of rust/core/src/engine/arti_runtime.rs does not reach its loop.
use fictional_octo_spork.Prelude.{◌≡◌, ◌⊎◌, inl, inr, refl, ap, subst, ◌++◌, arith}
use fictional_octo_spork.Text.{Text, text}
use fictional_octo_spork.Failure.{Reported, Error, good, failed, err, io, arti, map_err}
use fictional_octo_spork.Action.{after-eq-err}
use fictional_octo_spork.Config.{AppConfig}
use fictional_octo_spork.Runtime.{SocksEndpoint}
use fictional_octo_spork.Arti.{
  TorCrates, Settings, Progress, untouched, join, bridge_line, settings, build_arti_config,
  create_dir, listen, bring_up, and_then, with_context,
}

module _ (crates : TorCrates) (cfg : AppConfig) (pt_socks arti_socks : SocksEndpoint)
    (dir : Text) where
  open crates use {Bridge, PtName, Config, Client}

  -- What went wrong, and the error that is made of it.
  pub data Unable : Error → Type 0 where
    no_directory :
        (d m : Text)
        → (d ≡ join dir (text "arti-cache")) ⊎ (d ≡ join dir (text "arti-state"))
        → crates.create_dir_all d ≡ failed m
        → Unable (io m)
    bad_bridge :
        (line m : Text)
        → line
          ≡ text "Bridge obfs4 0.0.0.0:1 "
            ++ (cfg.bridge_rsa_id ++ (text " ed25519:" ++ cfg.bridge_ed25519_id))
        → crates.parse_bridge line ≡ failed m
        → Unable (arti (text "invalid bridge line: " ++ crates.debug_text line))
    bad_protocol : (m : Text) → crates.parse_pt_name (text "obfs4") ≡ failed m → Unable (arti m)
    bad_settings :
        (built : Settings Bridge PtName) (m : Text)
        → crates.build built ≡ failed m
        → Unable (arti m)
    no_runtime : (m : Text) → crates.current_runtime ≡ failed m → Unable (arti m)
    no_bootstrap :
        (config : Config) (m : Text)
        → crates.create_bootstrapped config ≡ failed m
        → Unable (arti (text "bootstrap: " ++ m))
    not_bound : (m : Text) → crates.bind arti_socks.addr ≡ failed m → Unable (io m)

  create_dir-Unable :
      (d : Text) (p : Progress) {e : Error} {p' : Progress}
      → (d ≡ join dir (text "arti-cache")) ⊎ (d ≡ join dir (text "arti-state"))
      → create_dir crates d p ≡ (err e, p')
      → Unable e
  unfolding create_dir
  create_dir-Unable d p {e} which h = go (crates.create_dir_all d) refl
    where
      go : (r : Reported (Unit {0})) → crates.create_dir_all d ≡ r → Unable e
      go (good t) c = absurd (ground (arith, h, c))
      go (failed m) c = subst Unable (ground (arith, h, c)) (no_directory d m which c)

  listen-Unable :
      (p : Progress) {e : Error} {p' : Progress}
      → listen crates arti_socks.addr p ≡ (err e, p')
      → Unable e
  unfolding listen
  listen-Unable p {e} h = go (crates.bind arti_socks.addr) refl
    where
      go : (r : Reported (Unit {0})) → crates.bind arti_socks.addr ≡ r → Unable e
      go (good t) c = absurd (ground (arith, h, c))
      go (failed m) c = subst Unable (ground (arith, h, c)) (not_bound m c)

  lift-Unable :
      {A : Type 0} (f : Text → Error) (r : Reported A) {e : Error}
      → ((m : Text) → r ≡ failed m → Unable (f m))
      → map_err f r ≡ err e
      → Unable e
  lift-Unable f (good a) k h = absurd (cc)
  lift-Unable f (failed m) k h = subst Unable (cc) (k m refl)

  build-Unable :
      (cache_dir state_dir m : Text)
      → build_arti_config crates cfg pt_socks cache_dir state_dir ≡ failed m
      → Unable (arti m)
  unfolding build_arti_config bridge_line
  build-Unable cache_dir state_dir m h =
      go (crates.parse_bridge (bridge_line cfg)) (crates.parse_pt_name (text "obfs4")) refl refl h
    where
      go :
          (b : Reported Bridge) (n : Reported PtName)
          → crates.parse_bridge (bridge_line cfg) ≡ b
          → crates.parse_pt_name (text "obfs4") ≡ n
          → and_then
              (with_context (text "invalid bridge line: " ++ crates.debug_text (bridge_line cfg)) b)
              (λ bridge. and_then n λ proto.
                crates.build (settings crates cache_dir state_dir bridge proto pt_socks.addr))
            ≡ failed m
          → Unable (arti m)
      go (good b) (good n) eb en h = bad_settings _ m h
      go (good b) (failed x) eb en h = subst (λ t. Unable (arti t)) (cc) (bad_protocol x en)
      go (failed x) n eb en h =
          subst (λ t. Unable (arti t)) (cc) (bad_bridge (bridge_line cfg) x refl eb)

  pub bring_up-Unable :
      {e : Error} {p : Progress}
      → bring_up crates cfg pt_socks arti_socks dir untouched ≡ (err e, p)
      → Unable e
  unfolding bring_up
  bring_up-Unable {e} {p} h =
      let cache_dir = join dir (text "arti-cache") in
      let state_dir = join dir (text "arti-state") in
      elim (after-eq-err (create_dir crates cache_dir untouched) _ h) [
        | inl c ↦ create_dir-Unable cache_dir untouched (inl refl) c
        | inr (_, p1, _, h1) ↦ elim (after-eq-err (create_dir crates state_dir p1) _ h1) [
          | inl c ↦ create_dir-Unable state_dir p1 (inr refl) c
          | inr (_, p2, _, h2) ↦
              let built = build_arti_config crates cfg pt_socks cache_dir state_dir in
              elim (after-eq-err (map_err arti built, p2) _ h2) [
                | inl c ↦
                    lift-Unable arti built (λ m. build-Unable cache_dir state_dir m)
                      (ap (λ r. r.0) c)
                | inr (config, p3, _, h3) ↦
                    elim (after-eq-err (map_err arti crates.current_runtime, p3) _ h3) [
                      | inl c ↦
                          lift-Unable arti crates.current_runtime (λ m k. no_runtime m k)
                            (ap (λ r. r.0) c)
                      | inr (_, p4, _, h4) ↦
                          let started = crates.create_bootstrapped config in
                          let wrap = λ (m : Text). arti (text "bootstrap: " ++ m) in
                          elim (after-eq-err (map_err wrap started, p4) _ h4) [
                            | inl c ↦
                                lift-Unable wrap started (λ m k. no_bootstrap config m k)
                                  (ap (λ r. r.0) c)
                            | inr (_, p5, _, h5) ↦
                                elim (after-eq-err (listen crates arti_socks.addr p5) _ h5) [
                                  | inl c ↦ listen-Unable p5 c
                                  | inr (_, _, _, h6) ↦ absurd (cc)
                                ]
                          ]
                    ]
              ]
        ]
      ]
