-- ===== src/Arti/Reaches.antt =====
-- What `run` has done when it reaches its loop, and what it leaves when it does not.
use fictional_octo_spork.Prelude.{
  ◌≡◌, ◌⊎◌, inl, inr, refl, sym, ap, ◌∙◌, subst, true, Option, none, some, [], ◌∷◌, ◌++◌, arith,
}
use fictional_octo_spork.Text.{Text, text}
use fictional_octo_spork.Failure.{
  Reported, Result, Error, good, failed, ok, err, arti, map_err, map_err-eq-ok, ok-inj,
}
use fictional_octo_spork.Action.{after-eq-ok}
use fictional_octo_spork.Config.{AppConfig}
use fictional_octo_spork.Runtime.{SocksEndpoint}
use fictional_octo_spork.Arti.{
  TorCrates, Settings, Progress, untouched, join, bridge_line, settings, build_arti_config,
  create_dir, listen, prefer_exit, bring_up, and_then, with_context,
}
use fictional_octo_spork.Arti.Unable.{Unable, bring_up-Unable}

module _ (crates : TorCrates) (cfg : AppConfig) (pt_socks arti_socks : SocksEndpoint)
    (dir : Text) where
  open crates use {Bridge, PtName, Config, Client}

  -- What the exit country of a configuration makes of the client that was bootstrapped: no country, or one that does
  -- not parse, leaves it as it is.
  abbrev pub Prefers : Option Text → Client → Client → Type 0
  Prefers none base client = client ≡ base
  Prefers (some code) base client =
      ((country : crates.Country) × (crates.parse_country code ≡ good country)
        × (client ≡ crates.set_exit_country country base))
      ⊎ ((m : Text) × (crates.parse_country code ≡ failed m) × (client ≡ base))

  -- The client is bootstrapped from settings with the one bridge of `cfg` and one unmanaged obfs4 transport, at the
  -- transport's SOCKS address, and prefers the exit of `cfg`.
  pub record Reaches (client : Client) (p : Progress) : Type 0 where
    pub bridge : Bridge
    pub proto : PtName
    pub built : Settings Bridge PtName
    pub config : Config
    pub bootstrapped : Client
    pub is_bridge :
        crates.parse_bridge (
          text "Bridge obfs4 0.0.0.0:1 "
          ++ (cfg.bridge_rsa_id ++ (text " ed25519:" ++ cfg.bridge_ed25519_id)))
        ≡ good bridge
    pub is_proto : crates.parse_pt_name (text "obfs4") ≡ good proto
    pub caches_at : built.cache_dir ≡ join dir (text "arti-cache")
    pub keeps_state_at : built.state_dir ≡ join dir (text "arti-state")
    pub with_bridge : built.bridges ≡ bridge ∷ []
    pub uses_bridges : built.bridges_enabled ≡ true
    pub dials_transport : built.transports ≡ (proto ∷ [], pt_socks.addr) ∷ []
    pub is_config : crates.build built ≡ good config
    pub is_bootstrapped : crates.create_bootstrapped config ≡ good bootstrapped
    pub is_client : Prefers cfg.user.exit_country bootstrapped client
    pub listens : p.listening ≡ some arti_socks.addr
    pub dirs : p.dirs ≡ join dir (text "arti-cache") ∷ join dir (text "arti-state") ∷ []

  prefer_exit-Prefers :
      (code : Option Text) (base : Client) → Prefers code base (prefer_exit crates code base)
  unfolding prefer_exit
  prefer_exit-Prefers none base = refl
  prefer_exit-Prefers (some code) base = go (crates.parse_country code) refl
    where
      go :
          (r : Reported crates.Country)
          → crates.parse_country code ≡ r
          → ((country : crates.Country) × (crates.parse_country code ≡ good country)
              × ((elim r [ good cc ↦ crates.set_exit_country cc base | failed m ↦ base ])
                  ≡ crates.set_exit_country country base))
            ⊎ ((m : Text) × (crates.parse_country code ≡ failed m)
                × ((elim r [ good cc ↦ crates.set_exit_country cc base | failed m ↦ base ]) ≡ base))
      go (good country) h = inl (country, h, refl)
      go (failed m) h = inr (m, h, refl)

  create_dir_ok :
      (d : Text) (p : Progress) {p' : Progress}
      → create_dir crates d p ≡ (ok tt, p')
      → p' ≡ record p { dirs = p.dirs ++ d ∷ [] }
  unfolding create_dir
  create_dir_ok d p h = ground arith

  listen_ok :
      (p : Progress) {p' : Progress}
      → listen crates arti_socks.addr p ≡ (ok tt, p')
      → p' ≡ record p { listening = some arti_socks.addr }
  unfolding listen
  listen_ok p h = ground arith

  build_ok :
      (cache_dir state_dir : Text) {config : Config}
      → build_arti_config crates cfg pt_socks cache_dir state_dir ≡ good config
      → (bridge : Bridge) × (proto : PtName) × (crates.parse_bridge (bridge_line cfg) ≡ good bridge)
        × (crates.parse_pt_name (text "obfs4") ≡ good proto)
        × (crates.build (settings crates cache_dir state_dir bridge proto pt_socks.addr)
            ≡ good config)
  unfolding build_arti_config
  build_ok cache_dir state_dir {config} h =
      go (crates.parse_bridge (bridge_line cfg)) (crates.parse_pt_name (text "obfs4")) refl refl h
    where
      go :
          (b : Reported Bridge) (n : Reported PtName)
          → crates.parse_bridge (bridge_line cfg) ≡ b
          → crates.parse_pt_name (text "obfs4") ≡ n
          → and_then
              (with_context (text "invalid bridge line: " ++ crates.debug_text (bridge_line cfg)) b)
              (λ bridge. and_then n λ proto.
                crates.build (settings crates cache_dir state_dir bridge proto pt_socks.addr))
            ≡ good config
          → (bridge : Bridge) × (proto : PtName) × (crates.parse_bridge (bridge_line cfg)
              ≡ good bridge)
            × (crates.parse_pt_name (text "obfs4") ≡ good proto)
            × (crates.build (settings crates cache_dir state_dir bridge proto pt_socks.addr)
                ≡ good config)
      go (good b) (good n) eb en h = (b, n, eb, en, h)
      go (good b) (failed m) eb en h = absurd (cc)
      go (failed m) n eb en h = absurd (cc)

  pub bring_up-eq-ok :
      {client : Client} {p : Progress}
      → bring_up crates cfg pt_socks arti_socks dir untouched ≡ (ok client, p)
      → Reaches client p
  unfolding bring_up bridge_line
  bring_up-eq-ok {client} {p} h =
      let cache_dir = join dir (text "arti-cache") in
      let state_dir = join dir (text "arti-state") in
      let (t1, p1, c1, h1) = after-eq-ok (create_dir crates cache_dir untouched) _ h in
      let (t2, p2, c2, h2) = after-eq-ok (create_dir crates state_dir p1) _ h1 in
      let (config, p3, c3, h3) =
        after-eq-ok (map_err arti (build_arti_config crates cfg pt_socks cache_dir state_dir), p2) _
          h2 in
      let (t4, p4, c4, h4) = after-eq-ok (map_err arti crates.current_runtime, p3) _ h3 in
      let (base, p5, c5, h5) =
        after-eq-ok
          (map_err (λ m. arti (text "bootstrap: " ++ m)) (crates.create_bootstrapped config), p4) _
          h4 in
      let (t6, p6, c6, h6) = after-eq-ok (listen crates arti_socks.addr p5) _ h5 in
      let (bridge, proto, b, n, built) =
        build_ok cache_dir state_dir {config = config} (map_err-eq-ok arti _ (ap (λ r. r.0) c3)) in
      let same : p5 ≡ p2 = cc in
      let last : p ≡ p6 = sym (ap (λ r. r.1) h6) in
      let d1 = create_dir_ok cache_dir untouched c1 in
      let d2 = create_dir_ok state_dir p1 c2 in
      let l = listen_ok p5 c6 in
      record {
        bridge = bridge;
        proto = proto;
        built = settings crates cache_dir state_dir bridge proto pt_socks.addr;
        config = config;
        bootstrapped = base;
        is_bridge = b;
        is_proto = n;
        caches_at = refl;
        keeps_state_at = refl;
        with_bridge = refl;
        uses_bridges = refl;
        dials_transport = refl;
        is_config = built;
        is_bootstrapped =
            map_err-eq-ok (λ m. arti (text "bootstrap: " ++ m)) (crates.create_bootstrapped config)
              (ap (λ r. r.0) c5);
        is_client =
            subst (Prefers cfg.user.exit_country base) (ok-inj (ap (λ r. r.0) h6))
              (prefer_exit-Prefers cfg.user.exit_country base);
        listens = ap (λ q. q.listening) (last ∙ l);
        dirs =
            ap (λ q. q.dirs) (last ∙ l)
            ∙ ap (λ q. q.dirs) (same ∙ d2)
            ∙ ap (λ q. q.dirs ++ state_dir ∷ []) d1;
      }

  not_listening :
      {e : Error} {p : Progress}
      → bring_up crates cfg pt_socks arti_socks dir untouched ≡ (err e, p)
      → p.listening ≡ none
  unfolding bring_up create_dir listen
  not_listening h = ground arith

  -- Either `run` fails before its loop, with the error of the step that failed, and nobody listens; or it gets there, and then the directories are made, the
  -- client is bootstrapped from settings that enable bridges, with the one bridge that parses from the line of `cfg`
  -- and one obfs4 transport, at the transport's own SOCKS address; it prefers the exit country of `cfg` if there is one
  -- and it parses, and is left as it is otherwise; and the endpoint for Leaf is listened on.
  pub bring_up_lem :
      let (r, p) = bring_up crates cfg pt_socks arti_socks dir untouched in
      ((e : Error) × (r ≡ err e)
        × Unable crates cfg pt_socks arti_socks dir e
        × (p.listening ≡ none))
      ⊎ ((client : Client) × (r ≡ ok client) × Reaches client p)
  bring_up_lem = go (bring_up crates cfg pt_socks arti_socks dir untouched) refl
    where
      go :
          (m : Result Client × Progress)
          → bring_up crates cfg pt_socks arti_socks dir untouched ≡ m
          → ((e : Error) × (m.0 ≡ err e)
              × Unable crates cfg pt_socks arti_socks dir e
              × (m.1.listening ≡ none))
            ⊎ ((client : Client) × (m.0 ≡ ok client) × Reaches client m.1)
      go (ok client, p) h = inr (client, refl, bring_up-eq-ok h)
      go (err e, p) h =
          inl (e, refl, bring_up-Unable crates cfg pt_socks arti_socks dir h, not_listening h)
