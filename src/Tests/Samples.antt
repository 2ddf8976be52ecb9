-- ===== src/Tests/Samples.antt =====
-- Sample data: an outside that answers everything, one whose DNS port is taken, and a fresh process.
use native.Mathlib.Nat.{mod-lt}
use fictional_octo_spork.Prelude.{◌+◌, ◌%◌, refl, Option, none, some, Bool, false, [], ◌∷◌, pos}
use fictional_octo_spork.Text.{Text, text}
use fictional_octo_spork.Failure.{Reported, good, failed}
use fictional_octo_spork.Net.{v4}
use fictional_octo_spork.Util.Outside.{Rng, Net}
use fictional_octo_spork.Runtime.{SocksEndpoint, Watch}
use fictional_octo_spork.Config.{
  RawUser, RawVnext, RawGrpc, RawReality, RawOutbound, RawRoot, AppConfig, assemble,
}
use fictional_octo_spork.Dns.{Services, Url}
use fictional_octo_spork.Ipc.Server.{Outcomes, Server}
use fictional_octo_spork.World.{Outside, World, PlatformContext, leaf_provider}
use fictional_octo_spork.Socks.{Tor, Credentials}

abbrev pub counting_rng : Rng
counting_rng = record { draw = λ k n. k % n; draw-lt = λ k n h. mod-lt k h }

abbrev pub free_ports : Net
free_ports = record { bind_local = λ k. good (9000 + k) }

abbrev pub last_value : Watch
last_value = record {
  Channel = Bool;
  channel = λ b. b;
  send = λ b c. b;
  borrow = λ c. c;
  borrow-channel = λ b. refl;
  borrow-send = λ b c. refl;
}

abbrev pub doh_url : Url
doh_url = record { host = some (text "dns.example"); port = none }

abbrev pub any_url : Text → Option Url
any_url t = some doh_url

abbrev pub services : Reported (Unit {0}) → Services
services bound = record { parse_url = any_url; bind_udp = λ a. bound; build_client = λ b. good tt }

abbrev pub outcomes : Outcomes
outcomes = record {
  remove_stale = good tt;
  bind = good tt;
  fresh_mode = 0o755;
  set_permissions = good tt;
}

abbrev outside : Reported (Unit {0}) → Outside
outside bound = record {
  rng = counting_rng;
  net = free_ports;
  watch = last_value;
  to_string = λ j. good (text "{}");
  services = λ k. services bound;
  ipc = λ k. outcomes;
}

abbrev pub willing : Outside
willing = outside (good tt)

abbrev pub port_taken : Outside
port_taken = outside (failed (text "address in use"))

abbrev pub no_server : Server
no_server = record {
  socket_mode = none;
  listening = false;
  cell = record { token = none; draws = 0 };
}

abbrev pub fresh : (os : Outside) → os.watch.Channel → World os
fresh os c = record {
  channels = record { at = λ i. c; next = 0 };
  spawned = [];
  next_task = 0;
  aborted = [];
  server = no_server;
  binds = 0;
  starts = 0;
  closed = [];
  slot = none;
  logging = false;
}

abbrev pub some_user : RawUser
some_user = record { id = text "user-1"; flow = [] }

abbrev pub some_vnext : RawVnext
some_vnext = record { address = text "vpn.example"; port = 443; users = some_user ∷ [] }

abbrev pub some_grpc : RawGrpc
some_grpc = record { service_name = text "svc" }

abbrev pub some_reality : RawReality
some_reality = record {
  server_name = text "www.example";
  public_key = text "key";
  short_id = text "01";
  fingerprint = text "chrome";
}

abbrev pub vless_outbound : RawOutbound
vless_outbound = record {
  tag = text "proxy";
  protocol = text "VLess";
  vnext = some_vnext ∷ [];
  stream_settings = record {
    network = text "grpc";
    grpc_settings = some some_grpc;
    security = text "reality";
    reality_settings = some some_reality;
  };
}

abbrev pub direct_outbound : RawOutbound
direct_outbound = record vless_outbound { tag = text "direct"; protocol = text "freedom" }

abbrev pub some_raw : RawRoot
some_raw = record {
  bridge_rsa_id = text "rsa";
  bridge_ed25519_id = text "ed";
  doh_server = text "https://dns.example/dns-query";
  doh_server_ip = none;
  outbounds = direct_outbound ∷ vless_outbound ∷ [];
}

abbrev pub some_config : AppConfig
some_config = assemble some_raw vless_outbound some_grpc some_reality some_vnext some_user none

abbrev pub some_context : PlatformContext
some_context = record {
  tun_fd = pos 7;
  tun_addr = v4 10 0 0 2;
  tun_mtu = 1500;
  private_dir = text "/data";
  pt_provider = leaf_provider;
}

abbrev pub some_endpoint : SocksEndpoint
some_endpoint = record {
  addr = record { ip = v4 127 0 0 1; port = 9000 };
  username = text "user";
  password = text "pass";
}

abbrev pub alice : Credentials
alice = record { username = text "alice"; password = text "secret" }

abbrev pub open_tor : Tor
open_tor = record {
  TorAddr = Text;
  from = λ t. good t.host;
  connect = λ t. good tt;
  debug = λ t. t;
}
