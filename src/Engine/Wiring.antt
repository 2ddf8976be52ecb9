-- ===== src/Engine/Wiring.antt =====
-- `Engine::start`: what each task that a successful bring-up spawned is given, and so how they are connected.
use mathlib.Core.List.{append_assoc, append-nil}
use fictional_octo_spork.Prelude.{
  ℕ, ◌+◌, ◌≡◌, refl, sym, ap, ◌∙◌, subst, List, [], ◌∷◌, ◌++◌, length,
}
use fictional_octo_spork.Text.{Text, text}
use fictional_octo_spork.Failure.{Reported, good, failed, ok, json, map_err-eq-ok, ok-inj}
use fictional_octo_spork.Action.{after-eq-ok}
use fictional_octo_spork.Net.{v4}
use fictional_octo_spork.Config.{AppConfig}
use fictional_octo_spork.Leaf.{
  pt_document, main_document, pt_socks_inbound_config, main_engine_config,
}
use fictional_octo_spork.Util.{random_local_port, random_username}
use fictional_octo_spork.Util.Password.{length-random_password}
use fictional_octo_spork.Runtime
use fictional_octo_spork.Runtime.{SocksEndpoint}
use fictional_octo_spork.Pt
use fictional_octo_spork.World.{
  Outside, World, Task, Kind, leaf, arti, dns_proxy, ipc_server, Provider, leaf_provider, lyrebird,
  xray, PlatformContext, LeafSocksPt, Engine, spawn, random_endpoint, run_leaf_with_config,
  new_cancel,
}
use fictional_octo_spork.Engine.{behind_pt, start_dns, spawn_ipc, dropping, counted, start, tun_of}
use fictional_octo_spork.Engine.Started.{dropping_ok}

abbrev pub kinds_of : List Task → List Kind
kinds_of [] = []
kinds_of (t ∷ ts) = t.kind ∷ kinds_of ts

pub kinds_of-append : (xs ys : List Task) → kinds_of (xs ++ ys) ≡ kinds_of xs ++ kinds_of ys
kinds_of-append [] ys = refl
kinds_of-append (x ∷ xs) ys = ap (λ l. x.kind ∷ l) (kinds_of-append xs ys)

-- A local endpoint with a user name and a password of its own.
pub record IsLocal (e : SocksEndpoint) : Type 0 where
  pub loopback : e.addr.ip ≡ v4 127 0 0 1
  pub length_username : length e.username ≡ 12
  pub length_password : length e.password ≡ 32

module _ (os : Outside) where
  -- The tasks run these, after those that there were.
  record Runs (w w' : World os) (new : List Kind) : Type 0 where
    runs : kinds_of w'.spawned ≡ kinds_of w.spawned ++ new

  Runs-trans : {u v w : World os} (a b : List Kind) → Runs u v a → Runs v w b → Runs u w (a ++ b)
  Runs-trans {u} a b h k = record {
    runs = k.runs ∙ ap (λ l. l ++ b) h.runs ∙ append_assoc (kinds_of u.spawned) a b;
  }

  random_endpoint_ok :
      (w : World os) {e : SocksEndpoint} {w' : World os}
      → random_endpoint os w ≡ (ok e, w')
      → IsLocal e × (w'.spawned ≡ w.spawned)
  unfolding random_endpoint Runtime.new_random random_local_port random_username
  random_endpoint_ok w {e} {w'} h = go (os.net.bind_local w.binds) refl
    where
      go : (r : Reported ℕ) → os.net.bind_local w.binds ≡ r → IsLocal e × (w'.spawned ≡ w.spawned)
      go (failed m) p = absurd (let h' = rw (p, random_endpoint) at h in cc)
      go (good port) p =
          let k = w.server.cell.draws in
          let made = rw (p, random_endpoint) at h in
          (
            subst IsLocal (ok-inj (ap (λ r. r.0) made)) (record {
              loopback = refl;
              length_username = length-random_password os.rng k 12;
              length_password = length-random_password os.rng (k + 12) 32;
            }),
            ap (λ r. r.1.spawned) (sym made),
          )

  spawn-Runs :
      (kind : Kind) (token : ℕ) (w : World os) → Runs w (spawn os kind token w).1 (kind ∷ [])
  unfolding spawn
  spawn-Runs kind token w = record { runs = kinds_of-append w.spawned _ }

  run_leaf_with_config-Runs :
      (name config : Text) (token : ℕ) (w : World os)
      → (rt_id : ℕ) × Runs w
          (run_leaf_with_config os name config token w).1
          (leaf name rt_id config ∷ [])
  unfolding run_leaf_with_config
  run_leaf_with_config-Runs name config token w = (_, record { runs = kinds_of-append w.spawned _ })

  quiet-Runs : (w w' : World os) → w'.spawned ≡ w.spawned → Runs w w' []
  quiet-Runs w w' same = record { runs = ap kinds_of same ∙ sym (append-nil (kinds_of w.spawned)) }

  -- The transport: an instance of Leaf that listens on its endpoint.
  record Transport (w w' : World os) (pt : LeafSocksPt) : Type 0 where
    rt_id : ℕ
    config : Text
    is_local : IsLocal pt.socks
    document : os.to_string (pt_document pt.socks) ≡ good config
    tasks : Runs w w' (leaf (text "leaf-pt") rt_id config ∷ [])

  pt_spawn_ok :
      (p : Provider) (token : ℕ) (w : World os) {pt : LeafSocksPt} {w' : World os}
      → Pt.spawn os p token w ≡ (ok pt, w')
      → Transport w w' pt
  unfolding Pt.spawn
  pt_spawn_ok leaf_provider token w {pt} {w'} h =
      let (socks, w1, p1, h1) = after-eq-ok (random_endpoint os w) _ h in
      let (config, w2, p2, h2) =
        after-eq-ok (pt_socks_inbound_config os.to_string socks, w1) _ h1 in
      let (is_local, quiet) = random_endpoint_ok w p1 in
      let (rt_id, spawned) = run_leaf_with_config-Runs (text "leaf-pt") config token w2 in
      let lifted : w2.spawned ≡ w.spawned = ap (λ r. r.1.spawned) (sym p2) ∙ quiet in
      subst (λ x. Transport w x pt) (ap (λ r. r.1) h2)
        (subst (Transport w _) (ok-inj (ap (λ r. r.0) h2)) (record {
          rt_id = rt_id;
          config = config;
          is_local = is_local;
          document = map_err-eq-ok json _ (ap (λ r. r.0) p2);
          tasks = Runs-trans [] _ (quiet-Runs w w2 lifted) spawned;
        }))
  pt_spawn_ok lyrebird token w h = absurd (cc)
  pt_spawn_ok xray token w h = absurd (cc)

  -- What `Engine::start` connects: the endpoints of the transport and of Arti, each with the tasks that are given it.
  pub record Wired (cfg : AppConfig) (ctx : PlatformContext) (before after : List Task)
      : Type 0 where
    pub pt_socks : SocksEndpoint
    pub arti_socks : SocksEndpoint
    pub pt_rt_id : ℕ
    pub main_rt_id : ℕ
    pub pt_config : Text
    pub main_config : Text
    pub pt_local : IsLocal pt_socks
    pub arti_local : IsLocal arti_socks
    pub pt_document_is : os.to_string (pt_document pt_socks) ≡ good pt_config
    pub main_document_is :
        os.to_string (main_document cfg (tun_of ctx) arti_socks) ≡ good main_config
    pub tasks :
        kinds_of after
        ≡ kinds_of before
          ++ leaf (text "leaf-pt") pt_rt_id pt_config
            ∷ arti cfg pt_socks arti_socks ctx.private_dir
            ∷ leaf (text "leaf-main") main_rt_id main_config
            ∷ dns_proxy cfg ctx.tun_addr
            ∷ ipc_server ctx.private_dir
            ∷ []

  behind_pt_ok :
      (cfg : AppConfig) (ctx : PlatformContext) (token : ℕ) (pt : LeafSocksPt) (w w2 : World os)
      {e : Engine} {w' : World os}
      → Transport w w2 pt
      → behind_pt os cfg ctx token pt w2 ≡ (ok e, w')
      → Wired cfg ctx w.spawned w'.spawned
  unfolding behind_pt start_dns spawn_ipc main_engine_config
  behind_pt_ok cfg ctx token pt w w2 {e} {w'} transport h =
      let (arti_socks, w3, p3, h3) = after-eq-ok (random_endpoint os w2) _ h in
      let w4 = (spawn os (arti cfg pt.socks arti_socks ctx.private_dir) token w3).1 in
      let (config, w5, p5, h5) =
        after-eq-ok (main_engine_config os.to_string cfg (tun_of ctx) arti_socks, w4) _ h3 in
      let w6 = (run_leaf_with_config os (text "leaf-main") config token w5).1 in
      let (t7, w7, p7, h7) = after-eq-ok (start_dns os cfg ctx w6) _ h5 in
      let w8 = (spawn os (dns_proxy cfg ctx.tun_addr) token w7).1 in
      let (t9, w9, p9, h9) = after-eq-ok (spawn_ipc os w8) _ h7 in
      let (is_local, quiet) = random_endpoint_ok w2 p3 in
      let (rt_id, main_leaf) = run_leaf_with_config-Runs (text "leaf-main") config token w5 in
      let last =
        Runs-trans _ _ (quiet-Runs w8 w9 (ap (λ r. r.1.spawned) (sym p9)))
          (spawn-Runs (ipc_server ctx.private_dir) token w9) in
      let behind_dns =
        Runs-trans _ _ (quiet-Runs w6 w7 (ap (λ r. r.1.spawned) (sym p7)))
          (Runs-trans _ _ (spawn-Runs (dns_proxy cfg ctx.tun_addr) token w7) last) in
      let behind_arti =
        Runs-trans _ _ (quiet-Runs w4 w5 (ap (λ r. r.1.spawned) (sym p5)))
          (Runs-trans _ _ main_leaf behind_dns) in
      let all = Runs-trans _ _ transport.tasks (
        Runs-trans _ _ (quiet-Runs w2 w3 quiet) (
          Runs-trans _ _ (spawn-Runs (arti cfg pt.socks arti_socks ctx.private_dir) token w3)
            behind_arti)) in
      subst (Wired cfg ctx w.spawned) (ap (λ r. r.1.spawned) h9) (record {
        pt_socks = pt.socks;
        arti_socks = arti_socks;
        pt_rt_id = transport.rt_id;
        main_rt_id = rt_id;
        pt_config = transport.config;
        main_config = config;
        pt_local = transport.is_local;
        arti_local = is_local;
        pt_document_is = transport.document;
        main_document_is = map_err-eq-ok json _ (ap (λ r. r.0) p5);
        tasks = all.runs;
      })

  pub start-Wired :
      (cfg : AppConfig) (ctx : PlatformContext) (w : World os) {e : Engine} {w' : World os}
      → start os cfg ctx w ≡ (ok e, w')
      → Wired cfg ctx w.spawned w'.spawned
  unfolding start new_cancel counted
  start-Wired cfg ctx w {e} {w'} h =
      let token = (Runtime.new_cancel os.watch w.channels).0 in
      let w1 = (new_cancel os w).1 in
      let (pt, w2, p, q) = after-eq-ok (Pt.spawn os ctx.pt_provider token w1) _ h in
      let made = behind_pt os cfg ctx token pt w2 in
      let kept : dropping os pt made ≡ (ok e, (dropping os pt made).1) =
        ap (λ r. (r.0, (dropping os pt made).1)) q in
      let m = dropping_ok os pt made kept in
      let x = pt_spawn_ok ctx.pt_provider token w1 p in
      subst (Wired cfg ctx w.spawned) (ap (λ r. r.1.spawned) q)
        (behind_pt_ok cfg ctx token pt w1 w2 x m)
