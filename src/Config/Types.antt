-- ===== src/Config/Types.antt =====
-- The numbers of a configuration are in the range of their types.
use fictional_octo_spork.Prelude.{
  ◌<◌, ◌≡◌, ◌⊎◌, inl, inr, subst, Option, none, some, List, [], ◌∷◌, ◌++◌, All,
}
use fictional_octo_spork.Text.{Text}
use fictional_octo_spork.Failure.{Reported, good, failed, ok, err, json, invalid_config}
use fictional_octo_spork.Net.{IpAddr}
use fictional_octo_spork.Net.Parse.Range.{InRange, parse_ip-InRange}
use fictional_octo_spork.Config.{RawRoot, AppConfig, from_json}
use fictional_octo_spork.Config.Selects.{DohIp, absent, blank, pinned, Selects}
use fictional_octo_spork.Config.Refusals.{from_json_total}

-- What `serde_json` gives for the `u16` of every server.
abbrev pub IsTyped : RawRoot → Type 0
IsTyped raw = All (λ o. All (λ v. v.port < 65536) o.vnext) raw.outbounds

abbrev pub PinnedInRange : Option IpAddr → Type 0
PinnedInRange none = Unit
PinnedInRange (some ip) = InRange ip

All-middle {ℓ} :
    {A : Type ℓ} (P : A → Type 0) (xs : List A) (y : A) (zs : List A) → All P (xs ++ y ∷ zs) → P y
All-middle P [] y zs h = h.0
All-middle P (x ∷ xs) y zs h = All-middle P xs y zs h.1

DohIp-InRange : {t : Option Text} {ip : Option IpAddr} → DohIp t ip → PinnedInRange ip
DohIp-InRange absent = tt
DohIp-InRange (blank b) = tt
DohIp-InRange (pinned {s = s} b p) = parse_ip-InRange s p

-- The port of the server has 16 bits, and the pinned address of the DoH server, if there is one, four octets or eight
-- groups of 16 bits.
abbrev pub Typed : AppConfig → Type 0
Typed cfg = (cfg.outbound.port < 65536) × PinnedInRange cfg.doh_server_ip

Selects-Typed : {raw : RawRoot} {cfg : AppConfig} → IsTyped raw → Selects raw cfg → Typed cfg
Selects-Typed typed s =
    let servers = All-middle _ s.before s.outbound s.behind (subst (All _) s.splits typed) in
    let server = subst (All (λ v. v.port < 65536)) s.has_vnext servers in
    rw (s.result) (server.0, DohIp-InRange s.doh_ip)

-- Every text ends in one of three ways, where the decoder keeps to the types of the document: it is no JSON of the
-- raw shape, and the error is the parser's; it is refused as an invalid configuration; or it is accepted with the
-- configuration that it describes, and the numbers of that are in the range of their types: the port of the server,
-- and the octets or the eight groups of the pinned DoH address, if there is one.
pub from_json-Typed :
    (decode : Text → Reported RawRoot) (source : Text)
    → ((raw : RawRoot) → decode source ≡ good raw → IsTyped raw)
    → ((m : Text) × (decode source ≡ failed m) × (from_json decode source ≡ err (json m)))
      ⊎ ((raw : RawRoot) × (decode source ≡ good raw)
          × (((m : Text) × (from_json decode source ≡ err (invalid_config m)))
              ⊎ ((cfg : AppConfig) × (from_json decode source ≡ ok cfg)
                  × Selects raw cfg
                  × Typed cfg)))
from_json-Typed decode source typed = elim (from_json_total decode source) [
  | inl no_json ↦ inl no_json
  | inr (raw, e, inl refused) ↦ inr (raw, e, inl refused)
  | inr (raw, e, inr (cfg, made, s)) ↦
      inr (raw, e, inr (cfg, made, s, Selects-Typed (typed raw e) s))
]
