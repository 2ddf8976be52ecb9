-- ===== src/Leaf.antt =====
-- rust/core/src/engine/leaf_config.rs: the JSON documents for the two Leaf instances.
pub mod Route
use fictional_octo_spork.Prelude.{ℕ, ℤ, pos, Bool, false, List, [], ◌∷◌}
use fictional_octo_spork.Text.{Text, text}
use fictional_octo_spork.Failure.{Result, Reported, json, map_err}
use fictional_octo_spork.Net.{IpAddr, SocketAddr, show_ip}
use fictional_octo_spork.Config.{AppConfig}
use fictional_octo_spork.Runtime.{SocksEndpoint}

-- `serde_json::Value`, as `json!` builds it.
mutual
  pub data Json : Type 0 where
    bool : Bool → Json
    int : ℤ → Json
    str : Text → Json
    arr : Items → Json
    obj : Fields → Json

  pub data Items : Type 0 where
    nil : Items
    cons : Json → Items → Items

  pub data Fields : Type 0 where
    end : Fields
    field : Text → Json → Fields → Fields

-- An object with two fields under fixed names.
abbrev tagged : Text → Text → Fields → Json
tagged tag protocol rest =
    obj (field (text "tag") (str tag) (field (text "protocol") (str protocol) rest))

abbrev settings : Fields → Fields
settings fs = field (text "settings") (obj fs) end

abbrev log_info : Fields → Fields
log_info rest = field (text "log") (obj (field (text "level") (str (text "info")) end)) rest

-- `PlatformContext`, less the directory and the provider, which no document names
pub record Tun : Type 0 where
  pub fd : ℤ  -- i32
  pub addr : IpAddr
  pub mtu : ℕ  -- u16

-- The document of `pt_socks_inbound_config`.
unfoldable pub pt_document : SocksEndpoint → Json
pt_document socks = obj (
    log_info (
      field (text "inbounds")
        (arr (
          cons
            (tagged (text "socks-pt") (text "socks") (
              field (text "address") (str (show_ip socks.addr.ip)) (
                field (text "port") (int (pos socks.addr.port)) (
                  settings (
                    field (text "username") (str socks.username)
                      (field (text "password") (str socks.password) end))))))
            nil))
        (field (text "outbounds") (arr (cons (tagged (text "out") (text "direct") end) nil)) end)))

tun_inbound : Tun → Json
tun_inbound tun = tagged (text "tun-in") (text "tun") (
    settings (
      field (text "fd") (int tun.fd) (
        field (text "auto") (bool false) (
          field (text "mtu") (int (pos tun.mtu)) (
            field (text "name") (str (text "tun-ff")) (
              field (text "address") (str (show_ip tun.addr))
                (field (text "fakeDnsExclude") (arr nil) end)))))))

-- A chain of two actors, by their tags.
abbrev actors : Text → Text → Fields
actors a b = settings (field (text "actors") (arr (cons (str a) (cons (str b) nil))) end)

socks_outbound : SocksEndpoint → Json
socks_outbound arti = tagged (text "socks-arti") (text "socks") (
    settings (
      field (text "address") (str (show_ip arti.addr.ip)) (
        field (text "port") (int (pos arti.addr.port)) (
          field (text "username") (str arti.username)
            (field (text "password") (str arti.password) end)))))

reality_outbound : AppConfig → Json
reality_outbound cfg = tagged (text "reality-tls") (text "reality") (
    settings (
      field (text "serverName") (str cfg.outbound.reality.server_name) (
        field (text "publicKey") (str cfg.outbound.reality.public_key)
          (field (text "shortId") (str cfg.outbound.reality.short_id) end))))

vless_outbound : AppConfig → Json
vless_outbound cfg = tagged (text "vless-out") (text "vless") (
    settings (
      field (text "address") (str cfg.outbound.address) (
        field (text "port") (int (pos cfg.outbound.port))
          (field (text "uuid") (str cfg.outbound.user_id) end))))

main_outbounds : AppConfig → SocksEndpoint → Items
unfolding socks_outbound reality_outbound vless_outbound
main_outbounds cfg arti =
    cons
      (tagged (text "proxy") (text "chain")
        (actors (text "socks-arti") (text "vless-reality-chain")))
      (cons (socks_outbound arti) (
        cons
          (tagged (text "vless-reality-chain") (text "chain")
            (actors (text "reality-tls") (text "vless-out")))
          (cons (reality_outbound cfg) (
            cons (vless_outbound cfg) (
              cons (tagged (text "direct") (text "direct") end)
                (cons (tagged (text "drop") (text "drop") end) nil))))))

router : Json
router = obj (
    field (text "rules")
      (arr (
        cons
          (obj (
            field (text "ip") (arr (cons (str (text "0.0.0.0/0")) (cons (str (text "::/0")) nil)))
              (field (text "target") (str (text "proxy")) end)))
          nil))
      end)

-- The document of `main_engine_config`.
unfoldable pub main_document : AppConfig → Tun → SocksEndpoint → Json
unfolding tun_inbound main_outbounds router
main_document cfg tun arti = obj (
    log_info (
      field (text "inbounds") (arr (cons (tun_inbound tun) nil)) (
        field (text "outbounds") (arr (main_outbounds cfg arti))
          (field (text "router") router end))))

-- `serde_json::to_string`, a parameter.
module _ (to_string : Json → Reported Text) where
  unfoldable pub pt_socks_inbound_config : SocksEndpoint → Result Text
  pt_socks_inbound_config socks = map_err json (to_string (pt_document socks))

  unfoldable pub main_engine_config : AppConfig → Tun → SocksEndpoint → Result Text
  main_engine_config cfg tun arti = map_err json (to_string (main_document cfg tun arti))
