-- ===== src/Traffic.antt =====
-- The parts of a running engine put together: the way of the traffic from the tunnel through the main instance of
-- Leaf into Arti, and what Arti is given of the transport. What Leaf does with its documents is read as in Leaf.Route.
use fictional_octo_spork.Prelude.{
  ℕ, suc, ◌≡◌, ◌⊎◌, refl, ◌∙◌, true, none, some, List, [], ◌∷◌, ◌++◌, pos,
}
use fictional_octo_spork.Text.{Bytes, Text, text}
use fictional_octo_spork.Failure.{Result, Error, ok, err}
use fictional_octo_spork.Config.{AppConfig}
use fictional_octo_spork.Util.Compare.{ct_eq_iff}
use fictional_octo_spork.Leaf.{main_document, pt_document}
use fictional_octo_spork.Leaf.Route.{
  Hop, route, everywhere, socks_hop, reality_hop, vless_hop, route-main_document,
}
use fictional_octo_spork.Leaf.Route.Endpoints.{
  listens_at, shown, dials_at, login_of, listens_at-pt_document, dials_at-socks_hop,
  login_of-socks_hop, asks_for, asks_for-pt_document, device_of, device_of-main_document,
}
use fictional_octo_spork.Net.{show_ip}
use fictional_octo_spork.Socks.{Credentials, contains, socks5_handshake}
use fictional_octo_spork.Socks.Stream.{conn}
use fictional_octo_spork.Socks.Handshake.{client_hello, knows, handshake_answers}
use fictional_octo_spork.Arti.{TorCrates, Progress, untouched, bring_up}
use fictional_octo_spork.Arti.Reaches.{Reaches, bring_up_lem}
use fictional_octo_spork.Arti.Unable.{Unable}
use fictional_octo_spork.Arti.Listener.{credentials}
use fictional_octo_spork.World.{Outside, World, Engine, Task, PlatformContext}
use fictional_octo_spork.Engine.{tun_of}
use fictional_octo_spork.Engine
use fictional_octo_spork.Engine.Wiring.{Wired, start-Wired}

knows_self : (who : Credentials) → knows who who ≡ true
knows_self who =
    rw ((ct_eq_iff who.username who.username).1 refl, (ct_eq_iff who.password who.password).1 refl)
      refl

-- A client that offers user/password and presents the credentials of the server is let in.
lets_in :
    (who : Credentials) (rest out : Bytes) (n : ℕ) (rf wf : Text)
    → socks5_handshake who (conn (client_hello (0x02 ∷ []) who rest) out (suc (suc n)) rf wf)
      ≡ (ok tt, conn rest (out ++ 0x05 ∷ 0x02 ∷ 0x01 ∷ 0x00 ∷ []) n rf wf)
unfolding contains
lets_in who rest out n rf wf =
    handshake_answers who who (0x02 ∷ []) rest out n rf wf ∙ rw (knows_self who) refl

module _ (os : Outside) (crates : TorCrates) where
  -- How the tasks behind a start are connected, towards a client with `rest` to send.
  pub record Tunnelled (cfg : AppConfig) (ctx : PlatformContext) (before after : List Task)
      (rest out : Bytes) (n : ℕ) (rf wf : Text) : Type 0 where
    pub wired : Wired os cfg ctx before after
    pub first : Hop
    pub who : Credentials
    pub progress : Progress
    pub outcome : Result crates.Client
    pub reads :
        device_of (main_document cfg (tun_of ctx) wired.arti_socks)
        ≡ some (record {
          protocol = text "tun";
          fd = ctx.tun_fd;
          address = show_ip ctx.tun_addr;
          mtu = pos ctx.tun_mtu;
        })
    pub routes :
        route (main_document cfg (tun_of ctx) wired.arti_socks)
        ≡ some (everywhere, first ∷ reality_hop cfg ∷ vless_hop cfg ∷ [])
    pub dials : dials_at first ≡ some (shown wired.arti_socks.addr)
    pub presents : login_of first ≡ some who
    pub let_in :
        socks5_handshake
          (credentials wired.arti_socks)
          (conn (client_hello (0x02 ∷ []) who rest) out (suc (suc n)) rf wf)
        ≡ (ok tt, conn rest (out ++ 0x05 ∷ 0x02 ∷ 0x01 ∷ 0x00 ∷ []) n rf wf)
    pub transport : listens_at (pt_document wired.pt_socks) ≡ some (shown wired.pt_socks.addr)
    pub demands :
        asks_for (pt_document wired.pt_socks)
        ≡ some (record { username = wired.pt_socks.username; password = wired.pt_socks.password })
    pub bootstrap :
        bring_up crates cfg wired.pt_socks wired.arti_socks ctx.private_dir untouched
        ≡ (outcome, progress)
    pub reaches :
        ((e : Error) × (outcome ≡ err e)
          × Unable crates cfg wired.pt_socks wired.arti_socks ctx.private_dir e
          × (progress.listening ≡ none))
        ⊎ ((client : crates.Client) × (outcome ≡ ok client)
            × Reaches crates cfg wired.pt_socks wired.arti_socks ctx.private_dir client progress)

  -- If a start succeeds, the main instance of Leaf runs the document whose inbound is the tunnel of the platform, with
  -- its descriptor, address and MTU, and which sends all traffic to the address where Arti is to listen, and presents
  -- there a login that Arti's server accepts, whatever the client sends after it; from there it goes through Reality
  -- and VLESS. Arti, once it listens there, is bootstrapped from settings whose one obfs4 transport is the address
  -- where the other instance of Leaf is to listen; if its bootstrap fails it does not listen. That instance demands
  -- the login of its endpoint, of which Arti's settings hold the address only.
  pub start-Tunnelled :
      (cfg : AppConfig) (ctx : PlatformContext) (w : World os) {e : Engine} {w' : World os}
      (rest out : Bytes) (n : ℕ) (rf wf : Text)
      → Engine.start os cfg ctx w ≡ (ok e, w')
      → Tunnelled cfg ctx w.spawned w'.spawned rest out n rf wf
  start-Tunnelled cfg ctx w rest out n rf wf h =
      let x = start-Wired os cfg ctx w h in
      let m = bring_up crates cfg x.pt_socks x.arti_socks ctx.private_dir untouched in
      record {
        wired = x;
        first = socks_hop x.arti_socks;
        who = credentials x.arti_socks;
        progress = m.1;
        outcome = m.0;
        reads = device_of-main_document cfg (tun_of ctx) x.arti_socks;
        routes = route-main_document cfg (tun_of ctx) x.arti_socks;
        dials = dials_at-socks_hop x.arti_socks;
        presents = login_of-socks_hop x.arti_socks;
        let_in = lets_in (credentials x.arti_socks) rest out n rf wf;
        transport = listens_at-pt_document x.pt_socks;
        demands = asks_for-pt_document x.pt_socks;
        bootstrap = refl;
        reaches = bring_up_lem crates cfg x.pt_socks x.arti_socks ctx.private_dir;
      }
