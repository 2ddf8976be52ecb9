-- ===== src/Dns.antt =====
-- rust/core/src/dns.rs: the embedded resolver that forwards queries to a DoH server.
pub mod Servfail
pub mod Resolver
pub mod Forward
pub mod Loop
use fictional_octo_spork.Prelude.{
  ℕ, ◌≡◌, refl, Bool, true, false, Option, none, some, List, [], ◌∷◌, ◌++◌, ◌⊎◌, inl, inr, arith,
}
use fictional_octo_spork.Text.{Bytes, Text, text}
use fictional_octo_spork.Failure.{
  Result, Reported, ok, err, dns, from_reqwest, http, map_err, ◌>>=◌, ◌>>◌,
}
use fictional_octo_spork.Net.{IpAddr, SocketAddr, show_addr}
use fictional_octo_spork.Config.{AppConfig}

abbrev pub dns_port : ℕ
dns_port = 53

abbrev pub max_udp_dns : ℕ
max_udp_dns = 4096

-- `url::Url`: its `host_str` and its `port_or_known_default`.
pub record Url : Type 0 where
  pub host : Option Text
  pub port : Option ℕ

-- `reqwest::ClientBuilder`, with the resolutions that were pinned.
pub record ClientBuilder : Type 0 where
  pub timeout_secs : ℕ
  pub pool_idle_timeout_secs : ℕ
  pub http2_prior_knowledge : Bool
  pub user_agent : Text
  pub pins : List (Text × SocketAddr)

base_client : ClientBuilder
base_client = record {
  timeout_secs = 15;
  pool_idle_timeout_secs = 30;
  http2_prior_knowledge = true;
  user_agent = text "ff-vpn-doh/1";
  pins = [];
}

-- `Option::unwrap_or`
abbrev port_or : Option ℕ → ℕ → ℕ
port_or none d = d
port_or (some p) d = p

pin : IpAddr → Option Url → ClientBuilder → ClientBuilder
pin ip none b = b
pin ip (some url) b = elim url.host [
  | none ↦ b
  | some host ↦ record b {
    pins = b.pins ++ (host, record { ip = ip; port = port_or url.port 443 }) ∷ [];
  }
]

-- The builder that `build_doh_client` sets up; `parse_url` is `url::Url::parse`. The SOCKS endpoint
-- that the function is given is not used.
unfoldable pub doh_client_builder : (Text → Option Url) → AppConfig → ClientBuilder
unfolding base_client pin
doh_client_builder parse_url cfg = elim cfg.doh_server_ip [
  | none ↦ base_client
  | some ip ↦ pin ip (parse_url cfg.doh_server) base_client
]

-- What the operating system and the HTTP library answer.
pub record Services : Type 0 where
  pub parse_url : Text → Option Url
  pub bind_udp : SocketAddr → Reported (Unit {0})
  pub build_client : ClientBuilder → Reported (Unit {0})

-- `build_doh_client`
unfoldable pub build_doh_client : Services → AppConfig → Result (Unit {0})
build_doh_client s cfg = map_err from_reqwest (s.build_client (doh_client_builder s.parse_url cfg))

-- `spawn_dns_proxy`, up to the spawned loop
unfoldable pub spawn_dns_proxy : Services → AppConfig → IpAddr → Result (Unit {0})
spawn_dns_proxy s cfg tun_addr = do
  let bind : SocketAddr = record { ip = tun_addr; port = dns_port }
  map_err (λ m. dns (text "bind " ++ (show_addr bind ++ (text ": " ++ m)))) (s.bind_udp bind)
  build_doh_client s cfg

-- With a DoH address in the configuration, and a server URL that has a host, the client is the one that
-- it would be without the address, but for one pinned resolution: of exactly that host, to exactly that
-- address, at the port of the URL, or 443 if it has none.
pub doh_client_pins :
    (parse_url : Text → Option Url) (cfg : AppConfig) (ip : IpAddr) (url : Url) (host : Text)
    → cfg.doh_server_ip ≡ some ip
    → parse_url cfg.doh_server ≡ some url
    → url.host ≡ some host
    → doh_client_builder parse_url cfg
      ≡ record (doh_client_builder parse_url (record cfg { doh_server_ip = none })) {
        pins = (host, record { ip = ip; port = port_or url.port 443 }) ∷ [];
      }
unfolding doh_client_builder
doh_client_pins parse_url cfg ip url host a b c = rw (a, b, c) refl
