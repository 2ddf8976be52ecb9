-- ===== src/Leaf/Route/Endpoints.antt =====
-- Where an instance of Leaf listens and what it presents to the next hop, read from its document.
use fictional_octo_spork.Prelude.{Option, none, some, ℤ, pos, refl, ◌≡◌}
use fictional_octo_spork.Text.{Text, text}
use fictional_octo_spork.Net.{SocketAddr, show_ip}
use fictional_octo_spork.Config.{AppConfig}
use fictional_octo_spork.Runtime.{SocksEndpoint}
use fictional_octo_spork.Socks.{Credentials}
use fictional_octo_spork.Leaf.{Json, int, obj, Tun, pt_document, main_document}
use fictional_octo_spork.Leaf.Route.{Hop, socks_hop, get, text_at, items_at, first_item, ◌>>=◌}

as_int : Json → Option ℤ
as_int (int n) = some n
as_int _ = none

-- The address and the port of an object.
address_of : Json → Option (Text × ℤ)
unfolding text_at as_int
address_of j = do
  ip ← text_at (text "address") j
  port ← get (text "port") j
  n ← as_int port
  some (ip, n)

-- Where the first inbound of a document listens.
pub listens_at : Json → Option (Text × ℤ)
unfolding address_of items_at first_item
listens_at doc = do
  inbounds ← items_at (text "inbounds") doc
  inbound ← first_item inbounds
  address_of inbound

-- What the first inbound of a document asks a client to present.
pub asks_for : Json → Option Credentials
unfolding items_at first_item text_at get
asks_for doc = do
  inbounds ← items_at (text "inbounds") doc
  inbound ← first_item inbounds
  fields ← get (text "settings") inbound
  username ← text_at (text "username") fields
  password ← text_at (text "password") fields
  some (record { username = username; password = password })

-- A device that traffic is read from: its protocol, descriptor, address and MTU.
pub record Device : Type 0 where
  pub protocol : Text
  pub fd : ℤ
  pub address : Text
  pub mtu : ℤ

-- The device of the first inbound of a document.
pub device_of : Json → Option Device
unfolding items_at first_item text_at get as_int
device_of doc = do
  inbounds ← items_at (text "inbounds") doc
  inbound ← first_item inbounds
  protocol ← text_at (text "protocol") inbound
  fields ← get (text "settings") inbound
  descriptor ← get (text "fd") fields
  fd ← as_int descriptor
  address ← text_at (text "address") fields
  size ← get (text "mtu") fields
  mtu ← as_int size
  some (record { protocol = protocol; fd = fd; address = address; mtu = mtu })

-- The user name and the password that a hop is told to present.
pub login_of : Hop → Option Credentials
unfolding text_at
login_of hop = do
  username ← text_at (text "username") (obj hop.settings)
  password ← text_at (text "password") (obj hop.settings)
  some (record { username = username; password = password })

abbrev pub shown : SocketAddr → Text × ℤ
shown addr = (show_ip addr.ip, pos addr.port)

-- The address and the port that a hop is told to dial.
pub dials_at : Hop → Option (Text × ℤ)
unfolding address_of
dials_at hop = address_of (obj hop.settings)

pub listens_at-pt_document :
    (socks : SocksEndpoint) → listens_at (pt_document socks) ≡ some (shown socks.addr)
unfolding listens_at pt_document text
listens_at-pt_document socks = refl

pub dials_at-socks_hop : (arti : SocksEndpoint) → dials_at (socks_hop arti) ≡ some (shown arti.addr)
unfolding dials_at text
dials_at-socks_hop arti = refl

pub login_of-socks_hop :
    (arti : SocksEndpoint)
    → login_of (socks_hop arti)
      ≡ some (record { username = arti.username; password = arti.password })
unfolding login_of text
login_of-socks_hop arti = refl

pub asks_for-pt_document :
    (socks : SocksEndpoint)
    → asks_for (pt_document socks)
      ≡ some (record { username = socks.username; password = socks.password })
unfolding asks_for pt_document text
asks_for-pt_document socks = refl

pub device_of-main_document :
    (cfg : AppConfig) (tun : Tun) (arti : SocksEndpoint)
    → device_of (main_document cfg tun arti)
      ≡ some (record {
        protocol = text "tun";
        fd = tun.fd;
        address = show_ip tun.addr;
        mtu = pos tun.mtu;
      })
unfolding device_of main_document text
device_of-main_document cfg tun arti = refl
