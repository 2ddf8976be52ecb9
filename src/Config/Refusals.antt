-- ===== src/Config/Refusals.antt =====
-- What `from_json` refuses, and what of a document it never looks at.
use fictional_octo_spork.Prelude.{
  ◌≡◌, ◌⊎◌, inl, inr, refl, ap, ◌∙◌, Bool-cases, Bool, true, false, Option, none, some, List, [],
  ◌∷◌, ◌++◌, All,
}
use fictional_octo_spork.Text.{Text, text, trim, is_empty}
use fictional_octo_spork.Failure.{
  Result, Reported, Error, ok, err, good, failed, json, invalid_config, ok_or, ensure, ◌>>=◌,
}
use fictional_octo_spork.Config.{
  RawOutbound, RawRoot, AppConfig, is_vless, find_vless, parse_doh_ip, from_raw, from_json,
}
use fictional_octo_spork.Config.Selects.{Selects, from_raw_iff, find_vless_split}

-- A result whose error, if it is one, is an invalid configuration.
record OnlyInvalid {A : Type 0} (r : Result A) : Type 0 where
  invalid : (e : Error) → r ≡ err e → (m : Text) × (e ≡ invalid_config m)

OnlyInvalid-ok : {A : Type 0} (a : A) → OnlyInvalid (ok a)
OnlyInvalid-ok a = record { invalid = λ e h. absurd (cc) }

OnlyInvalid-bind :
    {A B : Type 0} (m : Result A) (f : A → Result B)
    → OnlyInvalid m
    → ((a : A) → OnlyInvalid (f a))
    → OnlyInvalid (m >>= f)
OnlyInvalid-bind (ok a) f h k = k a
OnlyInvalid-bind (err e) f h k = record { invalid = λ x p. h.invalid x (cc) }

OnlyInvalid-ok_or :
    {A : Type 0} (o : Option A) (m : Text) → OnlyInvalid (ok_or o (invalid_config m))
OnlyInvalid-ok_or none m = record { invalid = λ e h. (m, cc) }
OnlyInvalid-ok_or (some a) m = OnlyInvalid-ok a

OnlyInvalid-ensure : (b : Bool) (m : Text) → OnlyInvalid (ensure b (invalid_config m))
OnlyInvalid-ensure true m = OnlyInvalid-ok tt
OnlyInvalid-ensure false m = record { invalid = λ e h. (m, cc) }

ruleset refusals = (OnlyInvalid-ok, OnlyInvalid-bind, OnlyInvalid-ok_or, OnlyInvalid-ensure)

OnlyInvalid-parse_doh_ip : (t : Option Text) → OnlyInvalid (parse_doh_ip t)
unfolding parse_doh_ip
OnlyInvalid-parse_doh_ip none = OnlyInvalid-ok none
OnlyInvalid-parse_doh_ip (some s) = elim (Bool-cases (is_empty (trim s))) [
  | inl blank ↦ rw blank (OnlyInvalid-ok none)
  | inr not_blank ↦ rw not_blank (search refusals)
]

from_raw-OnlyInvalid : (raw : RawRoot) → OnlyInvalid (from_raw raw)
unfolding from_raw
from_raw-OnlyInvalid raw = search (refusals, OnlyInvalid-parse_doh_ip) depth 20

-- A decoded document is refused as invalid, or accepted with what it describes.
from_raw_total :
    (raw : RawRoot)
    → ((m : Text) × (from_raw raw ≡ err (invalid_config m)))
      ⊎ ((cfg : AppConfig) × (from_raw raw ≡ ok cfg) × Selects raw cfg)
from_raw_total raw = go (from_raw raw) refl (from_raw-OnlyInvalid raw).invalid
  where
    go :
        (r : Result AppConfig)
        → from_raw raw ≡ r
        → ((e : Error) → r ≡ err e → (m : Text) × (e ≡ invalid_config m))
        → ((m : Text) × (from_raw raw ≡ err (invalid_config m)))
          ⊎ ((cfg : AppConfig) × (from_raw raw ≡ ok cfg) × Selects raw cfg)
    go (ok cfg) e h = inr (cfg, e, (from_raw_iff raw cfg).0 e)
    go (err x) e h = let (m, is) = h x refl in inl (m, e ∙ ap err is)

-- Every text ends in one of three ways: it is no JSON of the raw shape, and the error is the parser's; it
-- is refused as an invalid configuration; or it is accepted with the configuration that it describes.
pub from_json_total :
    (decode : Text → Reported RawRoot) (source : Text)
    → ((m : Text) × (decode source ≡ failed m) × (from_json decode source ≡ err (json m)))
      ⊎ ((raw : RawRoot) × (decode source ≡ good raw)
          × (((m : Text) × (from_json decode source ≡ err (invalid_config m)))
              ⊎ ((cfg : AppConfig) × (from_json decode source ≡ ok cfg) × Selects raw cfg)))
unfolding from_json
from_json_total decode source = go (decode source) refl
  where
    go :
        (d : Reported RawRoot)
        → decode source ≡ d
        → ((m : Text) × (decode source ≡ failed m) × (from_json decode source ≡ err (json m)))
          ⊎ ((raw : RawRoot) × (decode source ≡ good raw)
              × (((m : Text) × (from_json decode source ≡ err (invalid_config m)))
                  ⊎ ((cfg : AppConfig) × (from_json decode source ≡ ok cfg) × Selects raw cfg)))
    go (failed m) e = inl (m, e, rw e refl)
    go (good raw) e = inr (raw, e, rw e (from_raw_total raw))

none_found : (os : List RawOutbound) → All (λ o. is_vless o ≡ false) os → find_vless os ≡ none
unfolding find_vless
none_found [] h = refl
none_found (o ∷ os) h = rw (h.0) (none_found os h.1)

-- Only the first vless outbound counts, whether it leads to a configuration or to an error: what stands
-- before it, if that is not vless, and whatever stands behind it make no difference. With no vless
-- outbound at all the document is refused.
pub first_vless_decides :
    (raw : RawRoot) (before : List RawOutbound) (o : RawOutbound) (behind : List RawOutbound)
    → All (λ p. is_vless p ≡ false) before
    → is_vless o ≡ true
    → (from_raw (record raw { outbounds = before ++ o ∷ behind })
        ≡ from_raw (record raw { outbounds = o ∷ [] }))
      × (from_raw (record raw { outbounds = before })
          ≡ err (invalid_config (text "no vless outbound found")))
unfolding from_raw
first_vless_decides raw before o behind h v = (
  rw (find_vless_split before o behind h v, find_vless_split [] o [] tt v) refl,
  rw (none_found before h) refl,
)
