-- ===== src/Leaf/Route.antt =====
-- Where the router of a Leaf document sends traffic: the outbound that a rule targets, with every
-- chain replaced by the actors it names. This reads the document as Leaf's schema describes it.
pub mod Endpoints
use fictional_octo_spork.Prelude.{
  ℕ, zero, suc, ◌≡◌, refl, Option, none, some, Bool, false, List, [], ◌∷◌, ◌++◌, if◌then◌else◌, pos,
}
use fictional_octo_spork.Text.{Text, text, same}
use fictional_octo_spork.Net.{show_ip}
use fictional_octo_spork.Config.{AppConfig}
use fictional_octo_spork.Runtime.{SocksEndpoint}
use fictional_octo_spork.Leaf.{
  Json, str, int, arr, obj, Items, nil, cons, Fields, end, field, Tun, main_document,
}

-- A hop of a route: a protocol with its settings.
pub record Hop : Type 0 where
  pub protocol : Text
  pub settings : Fields

infixl 5 ◌>>=◌
abbrev ◌>>=◌ : {A B : Type 0} → Option A → (A → Option B) → Option B
none >>= f = none
some a >>= f = f a

look_up : Text → Fields → Option Json
unfolding same
look_up key end = none
look_up key (field k v fs) = if same k key then some v else look_up key fs

get : Text → Json → Option Json
unfolding look_up
get key (obj fs) = look_up key fs
get key _ = none

as_text : Json → Option Text
as_text (str t) = some t
as_text _ = none

as_items : Json → Option Items
as_items (arr xs) = some xs
as_items _ = none

as_fields : Json → Option Fields
as_fields (obj fs) = some fs
as_fields _ = none

text_at : Text → Json → Option Text
unfolding get as_text
text_at key j = do v ← get key j; as_text v

items_at : Text → Json → Option Items
unfolding get as_items
items_at key j = do v ← get key j; as_items v

has_tag : Text → Json → Bool
unfolding text_at same
has_tag tag j = elim (text_at (text "tag") j) [ none ↦ false | some t ↦ same t tag ]

find_tag : Text → Items → Option Json
unfolding has_tag
find_tag tag nil = none
find_tag tag (cons j js) = if has_tag tag j then some j else find_tag tag js

is_chain : Text → Bool
unfolding same
is_chain protocol = same protocol (text "chain")

settings_of : Json → Option Fields
unfolding get as_fields
settings_of j = do s ← get (text "settings") j; as_fields s

-- One after the other, each must succeed.
all_hops : (Text → Option (List Hop)) → Items → Option (List Hop)
unfolding as_text
all_hops route nil = some []
all_hops route (cons a as') = do
  tag ← as_text a
  here ← route tag
  rest ← all_hops route as'
  some (here ++ rest)

-- An outbound that is no chain is a hop; a chain is the hops of its actors.
expand : (Text → Option (List Hop)) → Json → Option (List Hop)
unfolding text_at items_at settings_of is_chain all_hops
expand route j = do
  protocol ← text_at (text "protocol") j
  fields ← settings_of j
  if is_chain protocol
      then (do names ← items_at (text "actors") (obj fields); all_hops route names)
      else some (record { protocol = protocol; settings = fields } ∷ [])

-- The hops of the outbound with a tag. Chains nest at most `fuel` deep; `none` if a tag is missing.
hops : ℕ → Items → Text → Option (List Hop)
unfolding find_tag expand
hops zero outbounds tag = none
hops (suc fuel) outbounds tag = do j ← find_tag tag outbounds; expand (hops fuel outbounds) j

first_item : Items → Option Json
first_item nil = none
first_item (cons j js) = some j

-- The addresses of the first rule, and the hops behind its target.
unfoldable pub route : Json → Option (Items × List Hop)
unfolding get items_at text_at first_item hops text
route doc = do
  outbounds ← items_at (text "outbounds") doc
  router ← get (text "router") doc
  rules ← items_at (text "rules") router
  rule ← first_item rules
  addresses ← items_at (text "ip") rule
  target ← text_at (text "target") rule
  found ← hops 3 outbounds target
  some (addresses, found)

abbrev pub everywhere : Items
everywhere = cons (str (text "0.0.0.0/0")) (cons (str (text "::/0")) nil)

abbrev pub socks_hop : SocksEndpoint → Hop
socks_hop arti = record {
  protocol = text "socks";
  settings = field (text "address") (str (show_ip arti.addr.ip)) (
      field (text "port") (int (pos arti.addr.port)) (
        field (text "username") (str arti.username)
          (field (text "password") (str arti.password) end)));
}

abbrev pub reality_hop : AppConfig → Hop
reality_hop cfg = record {
  protocol = text "reality";
  settings = field (text "serverName") (str cfg.outbound.reality.server_name) (
      field (text "publicKey") (str cfg.outbound.reality.public_key)
        (field (text "shortId") (str cfg.outbound.reality.short_id) end));
}

abbrev pub vless_hop : AppConfig → Hop
vless_hop cfg = record {
  protocol = text "vless";
  settings = field (text "address") (str cfg.outbound.address) (
      field (text "port") (int (pos cfg.outbound.port))
        (field (text "uuid") (str cfg.outbound.user_id) end));
}

-- The document for the main instance sends all IPv4 and IPv6 traffic through Arti's SOCKS listener, with its
-- credentials, then through Reality, then VLESS, with the settings of the configuration: every tag that a
-- rule or a chain names is there.
pub route-main_document :
    (cfg : AppConfig) (tun : Tun) (arti : SocksEndpoint)
    → route (main_document cfg tun arti)
      ≡ some (everywhere, socks_hop arti ∷ reality_hop cfg ∷ vless_hop cfg ∷ [])
unfolding route main_document
route-main_document cfg tun arti = refl
