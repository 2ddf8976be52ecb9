-- ===== src/Config/Selects.antt =====
-- Which configuration `from_json` makes: a description that does not follow its steps.
use fictional_octo_spork.Prelude.{
  ◌≡◌, ◌↔◌, inl, inr, refl, ap, true, false, Option, none, some, List, [], ◌∷◌, ◌++◌, All, arith,
  Bool-cases, Option-cases,
}
use fictional_octo_spork.Text.{Text, text, eq_ignore_ascii_case, trim, is_empty}
use fictional_octo_spork.Failure.{ok, from_bind, from_ok_or, from_ensure}
use fictional_octo_spork.Net.{IpAddr}
use fictional_octo_spork.Net.Parse.{parse_ip}
use fictional_octo_spork.Config.{
  RawUser, RawVnext, RawGrpc, RawReality, RawOutbound, RawRoot, AppConfig, is_vless, find_vless,
  first, parse_doh_ip, assemble, from_raw,
}

-- The pinned address of the DoH server: none if it is absent or blank, else what the text says.
pub data DohIp : Option Text → Option IpAddr → Type 0 where
  absent : DohIp none none
  blank : {s : Text} → is_empty (trim s) ≡ true → DohIp (some s) none
  pinned :
      {s : Text} {ip : IpAddr}
      → is_empty (trim s) ≡ false
      → parse_ip s ≡ some ip
      → DohIp (some s) (some ip)

-- `cfg` is made of the first vless outbound, the first server in it, and the first user of that server.
pub record Selects (raw : RawRoot) (cfg : AppConfig) : Type 0 where
  pub before : List RawOutbound
  pub outbound : RawOutbound
  pub behind : List RawOutbound
  pub vnext : RawVnext
  pub other_vnexts : List RawVnext
  pub user : RawUser
  pub other_users : List RawUser
  pub grpc : RawGrpc
  pub reality : RawReality
  pub ip : Option IpAddr
  pub splits : raw.outbounds ≡ before ++ outbound ∷ behind
  pub none_before : All (λ o. is_vless o ≡ false) before
  pub vless : is_vless outbound ≡ true
  pub is_reality : eq_ignore_ascii_case outbound.stream_settings.security (text "reality") ≡ true
  pub is_grpc : eq_ignore_ascii_case outbound.stream_settings.network (text "grpc") ≡ true
  pub has_grpc : outbound.stream_settings.grpc_settings ≡ some grpc
  pub has_reality : outbound.stream_settings.reality_settings ≡ some reality
  pub has_vnext : outbound.vnext ≡ vnext ∷ other_vnexts
  pub has_user : vnext.users ≡ user ∷ other_users
  pub doh_ip : DohIp raw.doh_server_ip ip
  pub result : cfg ≡ assemble raw outbound grpc reality vnext user ip

pub find_vless_split :
    (before : List RawOutbound) (o : RawOutbound) (behind : List RawOutbound)
    → All (λ p. is_vless p ≡ false) before
    → is_vless o ≡ true
    → find_vless (before ++ o ∷ behind) ≡ some o
unfolding find_vless
find_vless_split [] o behind a v = rw v refl
find_vless_split (p ∷ ps) o behind a v = rw (a.0) (find_vless_split ps o behind a.1 v)

parse_doh_ip-DohIp : {t : Option Text} {ip : Option IpAddr} → DohIp t ip → parse_doh_ip t ≡ ok ip
unfolding parse_doh_ip
parse_doh_ip-DohIp absent = refl
parse_doh_ip-DohIp (blank b) = rw b refl
parse_doh_ip-DohIp (pinned b p) = rw (b, p) refl

Selects-from_raw : (raw : RawRoot) (cfg : AppConfig) → Selects raw cfg → from_raw raw ≡ ok cfg
unfolding from_raw first
Selects-from_raw raw cfg s =
    let found : find_vless raw.outbounds ≡ some s.outbound =
      rw s.splits (find_vless_split s.before s.outbound s.behind s.none_before s.vless) in
    ground (arith, found, parse_doh_ip-DohIp s.doh_ip)

-- Where `find` found it.
record FoundAt (os : List RawOutbound) (o : RawOutbound) : Type 0 where
  before : List RawOutbound
  behind : List RawOutbound
  splits : os ≡ before ++ o ∷ behind
  none_before : All (λ p. is_vless p ≡ false) before
  vless : is_vless o ≡ true

find_vless-FoundAt :
    (os : List RawOutbound) (o : RawOutbound) → find_vless os ≡ some o → FoundAt os o
unfolding find_vless
find_vless-FoundAt [] o h = absurd (cc)
find_vless-FoundAt (p ∷ ps) o h = elim (Bool-cases (is_vless p)) [
  | inl is ↦
      let same : p ≡ o = ground arith in
      record {
        before = [];
        behind = ps;
        splits = ap (λ q. q ∷ ps) same;
        none_before = tt;
        vless = rw same at is;
      }
  | inr not ↦
      let rest = find_vless-FoundAt ps o (ground arith) in
      record {
        before = p ∷ rest.before;
        behind = rest.behind;
        splits = ap (λ qs. p ∷ qs) rest.splits;
        none_before = (not, rest.none_before);
        vless = rest.vless;
      }
]

first-eq_some : {A : Type 0} (l : List A) {a : A} → first l ≡ some a → (r : List A) × (l ≡ a ∷ r)
unfolding first
first-eq_some [] h = absurd (cc)
first-eq_some (b ∷ r) h = (r, ap (λ c. c ∷ r) (ground arith))

parse_doh_ip_sound : (t : Option Text) {ip : Option IpAddr} → parse_doh_ip t ≡ ok ip → DohIp t ip
unfolding parse_doh_ip
parse_doh_ip_sound none {ip} h = let e : none ≡ ip = cc in rw (← e) absent
parse_doh_ip_sound (some s) {ip} h = elim (Bool-cases (is_empty (trim s))) [
  | inl b ↦ let e : none ≡ ip = ground arith in rw (← e) (blank b)
  | inr nb ↦ elim (Option-cases (parse_ip s)) [
    | inl bad ↦ absurd (ground arith)
    | inr (a, p) ↦ let e : some a ≡ ip = ground arith in rw (← e) (pinned nb p)
  ]
]

from_raw-Selects : (raw : RawRoot) (cfg : AppConfig) → from_raw raw ≡ ok cfg → Selects raw cfg
unfolding from_raw
from_raw-Selects raw cfg h = from_ok_or (find_vless raw.outbounds) _ _ h λ outbound found h1.
    from_ensure (eq_ignore_ascii_case outbound.stream_settings.security (text "reality")) _ _ h1
      λ rl h2.
        from_ensure (eq_ignore_ascii_case outbound.stream_settings.network (text "grpc")) _ _ h2
          λ gr h3. from_ok_or outbound.stream_settings.grpc_settings _ _ h3 λ grpc g h4.
            from_ok_or outbound.stream_settings.reality_settings _ _ h4 λ reality r h5.
              from_ok_or (first outbound.vnext) _ _ h5 λ vnext v h6.
                from_ok_or (first vnext.users) _ _ h6 λ user u h7.
                  from_bind (parse_doh_ip raw.doh_server_ip) _ h7 λ ip d h8.
                    let at = find_vless-FoundAt raw.outbounds outbound found in
                    let (vs, ve) = first-eq_some outbound.vnext v in
                    let (us, ue) = first-eq_some vnext.users u in
                    record {
                      before = at.before;
                      outbound = outbound;
                      behind = at.behind;
                      vnext = vnext;
                      other_vnexts = vs;
                      user = user;
                      other_users = us;
                      grpc = grpc;
                      reality = reality;
                      ip = ip;
                      splits = at.splits;
                      none_before = at.none_before;
                      vless = at.vless;
                      is_reality = rl;
                      is_grpc = gr;
                      has_grpc = g;
                      has_reality = r;
                      has_vnext = ve;
                      has_user = ue;
                      doh_ip = parse_doh_ip_sound raw.doh_server_ip d;
                      result = cc;
                    }

-- `from_json` accepts a decoded document exactly with the configuration that is made of its first vless
-- outbound, provided this uses reality over grpc and has both settings, of the first server in it and
-- the first user of that, and of the pinned DoH address; nothing else in the document matters.
pub from_raw_iff : (raw : RawRoot) (cfg : AppConfig) → (from_raw raw ≡ ok cfg) ↔ Selects raw cfg
from_raw_iff raw cfg = (from_raw-Selects raw cfg, Selects-from_raw raw cfg)
