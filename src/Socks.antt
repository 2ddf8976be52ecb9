-- ===== src/Socks.antt =====
-- rust/core/src/engine/arti_runtime.rs, the minimal SOCKS5 server: method selection with
-- username/password, the CONNECT request, and the reply.
pub mod Stream
pub mod Laws
pub mod Handshake
pub mod Request
pub mod Serve
pub mod Clients
pub mod Pumps
use fictional_octo_spork.Prelude.{
  ℕ, ◌+◌, ◌*◌, Bool, true, false, ◌&&◌, ◌||◌, not, List, [], ◌∷◌, ◌==◌, if◌then◌else◌, get_or, take,
  drop, ◌++◌,
}
use fictional_octo_spork.Text.{Bytes, Text, text}
use fictional_octo_spork.Text.Utf8.{is_utf8}
use fictional_octo_spork.Text.Utf8Error.{utf8_error}
use fictional_octo_spork.Text.Decimal.{decimal}
use fictional_octo_spork.Failure.{Result, Reported, ok, err, other, map_err, ensure}
use fictional_octo_spork.Action.{Action, ◌>>=◌, ◌>>◌, pure, raise, lift}
use fictional_octo_spork.Util.{ct_eq}
use fictional_octo_spork.Net.{show_v4, show_v6}
use Stream.{Conn, read_exact, read_u8, write_all}

-- `methods.contains(&m)`
unfoldable pub contains : Bytes → ℕ → Bool
contains [] m = false
contains (b ∷ bs) m = b == m || contains bs m

-- The credentials `(String, String)`.
pub record Credentials : Type 0 where
  pub username : Text
  pub password : Text

-- The subnegotiation of `socks5_handshake`: version, user, password, verdict.
unfoldable pub subnegotiate : Credentials → Action Conn (Unit {0})
subnegotiate auth = do
  ver ← read_u8
  lift (ensure (ver == 0x01) (other (text "bad auth subnegotiation version")))
  ulen ← read_u8
  user ← read_exact ulen
  plen ← read_u8
  pass ← read_exact plen
  let accepted = ct_eq user auth.username && ct_eq pass auth.password
  write_all (0x01 ∷ (if accepted then 0x00 else 0x01) ∷ [])
  lift (ensure accepted (other (text "invalid SOCKS5 credentials")))

reject_methods : Action Conn (Unit {0})
reject_methods = do
  write_all (0x05 ∷ 0xff ∷ [])
  raise (other (text "client refused user/pass auth"))

-- `socks5_handshake`
unfoldable pub socks5_handshake : Credentials → Action Conn (Unit {0})
unfolding reject_methods
socks5_handshake auth = do
  header ← read_exact 2
  lift (ensure (get_or header 0 0 == 0x05) (other (text "not a SOCKS5 client")))
  methods ← read_exact (get_or header 1 0)
  if contains methods 0x02
      then (do write_all (0x05 ∷ 0x02 ∷ []); subnegotiate auth)
      else reject_methods

-- `u16::from_be_bytes`
abbrev pub from_be_bytes : ℕ → ℕ → ℕ
from_be_bytes hi lo = hi * 256 + lo

-- A host, as text, and a port.
pub record HostPort : Type 0 where
  pub host : Text
  pub port : ℕ

-- The eight groups of `Ipv6Addr::from([u8; 16])`.
unfoldable pub be_groups : Bytes → List ℕ
be_groups (a ∷ b ∷ r) = from_be_bytes a b ∷ be_groups r
be_groups _ = []

read_ipv4 : Action Conn HostPort
read_ipv4 = do
  bytes ← read_exact 6
  let at = λ (i : ℕ). get_or bytes i 0
  pure (record { host = show_v4 (at 0) (at 1) (at 2) (at 3); port = from_be_bytes (at 4) (at 5) })

read_domain : Action Conn HostPort
read_domain = do
  len ← read_u8
  buf ← read_exact (len + 2)
  let host = take len buf
  lift (ensure (is_utf8 host) (other (text "bad host: " ++ utf8_error host)))
  pure (record { host = host; port = from_be_bytes (get_or buf len 0) (get_or buf (len + 1) 0) })

read_ipv6 : Action Conn HostPort
read_ipv6 = do
  bytes ← read_exact 18
  pure (record {
    host = show_v6 (be_groups (take 16 bytes));
    port = from_be_bytes (get_or bytes 16 0) (get_or bytes 17 0);
  })

-- `{:?}` of a byte array
debug_rest : Bytes → Text
debug_rest [] = b']' ∷ []
debug_rest (b ∷ bs) = b',' ∷ b' ' ∷ (decimal b ++ debug_rest bs)

unfoldable pub debug_bytes : Bytes → Text
unfolding debug_rest
debug_bytes [] = text "[]"
debug_bytes (b ∷ bs) = b'[' ∷ (decimal b ++ debug_rest bs)

-- The `match atyp`.
read_address : ℕ → Action Conn HostPort
unfolding read_ipv4 read_domain read_ipv6
read_address atyp =
    if atyp == 0x01
    then read_ipv4
    else if atyp == 0x03
    then read_domain
    else if atyp == 0x04
    then read_ipv6
    else raise (other (text "unsupported atyp " ++ decimal atyp))

-- `socks5_read_request`, up to the conversion into the Tor library's address.
unfoldable pub read_host_port : Action Conn HostPort
unfolding read_address
read_host_port = do
  head ← read_exact 4
  lift (
      ensure (get_or head 0 0 == 0x05 && get_or head 1 0 == 0x01)
        (other (text "unsupported SOCKS5 request " ++ debug_bytes head)))
  read_address (get_or head 3 0)

-- `arti_client`: its addresses, how a host and a port make one, and `TorClient::connect`.
pub record Tor : Type 1 where
  pub TorAddr : Type 0
  pub from : HostPort → Reported TorAddr
  pub connect : TorAddr → Reported (Unit {0})
  pub debug : TorAddr → Text

module _ (tor : Tor) where
  -- `socks5_read_request`
  unfoldable pub socks5_read_request : Action Conn tor.TorAddr
  unfolding read_host_port
  socks5_read_request = do
    target ← read_host_port
    lift (map_err (λ m. other (text "invalid TorAddr: " ++ m)) (tor.from target))
