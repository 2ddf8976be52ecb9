-- ===== src/Tests/Setup.antt =====
-- Configurations, documents and clients, on sample documents.
use fictional_octo_spork.Prelude.{◌≡◌, ◌↔◌, ◌⊎◌, refl, subst, arith, some, [], ◌∷◌}
use fictional_octo_spork.Text.{Text, text, eq_ignore_ascii_case, trim, is_empty}
use fictional_octo_spork.Net.{v6}
use fictional_octo_spork.Net.Parse.{parse_ip}
use fictional_octo_spork.Failure.{Reported, good, failed, ok, err, json, invalid_config}
use fictional_octo_spork.Config.{
  RawRoot, AppConfig, is_vless, find_vless, first, parse_doh_ip, from_raw, from_json,
}
use fictional_octo_spork.Config.Selects.{Selects, from_raw_iff}
use fictional_octo_spork.Config.Types.{IsTyped, Typed, from_json-Typed}
use fictional_octo_spork.Leaf.{main_document}
use fictional_octo_spork.Leaf.Route.{
  route, everywhere, socks_hop, reality_hop, vless_hop, route-main_document,
}
use fictional_octo_spork.Engine.{tun_of}
use fictional_octo_spork.Tests.Samples.{some_raw, some_config, some_context, some_endpoint}

from_raw_iff_example : (from_raw some_raw ≡ ok some_config) ↔ Selects some_raw some_config
from_raw_iff_example = from_raw_iff some_raw some_config

-- The sample is accepted.
from_raw_sample : from_raw some_raw ≡ ok some_config
unfolding from_raw text eq_ignore_ascii_case find_vless is_vless first parse_doh_ip
from_raw_sample = refl

-- The sample with an address for its DoH server.
abbrev pinned_raw : RawRoot
pinned_raw = record some_raw { doh_server_ip = some (text "2001:db8::1") }

abbrev always : Text → Reported RawRoot
always t = good pinned_raw

always-IsTyped : (raw : RawRoot) → always [] ≡ good raw → IsTyped raw
always-IsTyped raw h =
    let same : pinned_raw ≡ raw = cc in
    subst IsTyped same ((omega arith, tt), ((omega arith, tt), tt))

from_json-Typed_example :
    ((m : Text) × (always [] ≡ failed m) × (from_json always [] ≡ err (json m)))
    ⊎ ((raw : RawRoot) × (always [] ≡ good raw)
        × (((m : Text) × (from_json always [] ≡ err (invalid_config m)))
            ⊎ ((cfg : AppConfig) × (from_json always [] ≡ ok cfg) × Selects raw cfg × Typed cfg)))
from_json-Typed_example = from_json-Typed always [] always-IsTyped

-- It is accepted too.
pinned_sample :
    from_raw pinned_raw
    ≡ ok (record some_config {
      doh_server_ip = some (v6 (0x2001 ∷ 0xdb8 ∷ 0 ∷ 0 ∷ 0 ∷ 0 ∷ 0 ∷ 1 ∷ []));
    })
unfolding from_raw text eq_ignore_ascii_case find_vless is_vless first parse_doh_ip parse_ip trim
    is_empty
pinned_sample = refl

route-main_document_example :
    route (main_document some_config (tun_of some_context) some_endpoint)
    ≡ some
        (everywhere, socks_hop some_endpoint ∷ reality_hop some_config ∷ vless_hop some_config ∷ [])
route-main_document_example = route-main_document some_config (tun_of some_context) some_endpoint
