-- ===== src/Socks/Request.antt =====
-- The CONNECT request against the client's encoding of RFC 1928.
pub mod Encoded
pub mod Sound
use mathlib.Core.List.{append_assoc}
use native.Mathlib.Nat.{suc-add}
use fictional_octo_spork.Prelude.{
  ℕ, ◌+◌, ◌/◌, ◌%◌, ◌≡◌, refl, ◌++◌, [], ◌∷◌, length, length-append, take-append, get_or, arith,
  false, if◌then◌else◌, ◌==◌, ◌&&◌,
}
use fictional_octo_spork.Text.{Bytes, Text, text}
use fictional_octo_spork.Text.Utf8.{is_utf8}
use fictional_octo_spork.Text.Utf8Error.{utf8_error}
use fictional_octo_spork.Failure.{Result, ok, err, other}
use fictional_octo_spork.Net.{show_v4, show_v6}
use fictional_octo_spork.Socks.{
  HostPort, from_be_bytes, be_groups, debug_bytes, read_ipv4, read_domain, read_ipv6,
  read_host_port,
}
use fictional_octo_spork.Socks.Stream.{conn, read_exact}
use fictional_octo_spork.Socks.Laws.{read_exact_lem, read_u8_lem}

-- What a client can ask for: an IPv4 address, a host name, or the eight groups of an IPv6 address.
pub data Target : Type 0 where
  octets : (a b c d : ℕ) → Target
  domain : Text → Target
  groups : (a b c d e f g h : ℕ) → Target

abbrev pub to_be_bytes : ℕ → Bytes → Bytes
to_be_bytes n rest = n / 256 ∷ n % 256 ∷ rest

abbrev pub address_bytes : Target → Bytes → Bytes
address_bytes (octets a b c d) rest = 0x01 ∷ a ∷ b ∷ c ∷ d ∷ rest
address_bytes (domain host) rest = 0x03 ∷ length host ∷ (host ++ rest)
address_bytes (groups a b c d e f g h) rest =
    0x04
    ∷ to_be_bytes a (
        to_be_bytes b (
          to_be_bytes c
            (to_be_bytes d (to_be_bytes e (to_be_bytes f (to_be_bytes g (to_be_bytes h rest)))))))

-- The request that a client sends, before what follows it.
abbrev pub connect_request : Target → ℕ → Bytes → Bytes
connect_request t port rest = 0x05 ∷ 0x01 ∷ 0x00 ∷ address_bytes t (to_be_bytes port rest)

abbrev pub understood : Target → ℕ → Result HostPort
understood (octets a b c d) port = ok (record { host = show_v4 a b c d; port = port })
understood (domain host) port =
    if is_utf8 host
    then ok (record { host = host; port = port })
    else err (other (text "bad host: " ++ utf8_error host))
understood (groups a b c d e f g h) port =
    ok (record { host = show_v6 (a ∷ b ∷ c ∷ d ∷ e ∷ f ∷ g ∷ h ∷ []); port = port })

pub be_bytes_back : (n : ℕ) → from_be_bytes (n / 256) (n % 256) ≡ n
be_bytes_back n = omega arith

-- The two bytes behind a host name.
first_behind : (xs : Bytes) (a b : ℕ) → get_or (xs ++ a ∷ b ∷ []) (length xs) 0 ≡ a
first_behind [] a b = refl
first_behind (x ∷ xs) a b = first_behind xs a b

second_behind : (xs : Bytes) (a b : ℕ) → get_or (xs ++ a ∷ b ∷ []) (length xs + 1) 0 ≡ b
second_behind [] a b = refl
second_behind (x ∷ xs) a b = rw suc-add (second_behind xs a b)

module _ (out : Bytes) (n : ℕ) (rf wf : Text) (port : ℕ) (rest : Bytes) where
  read_ipv4_lem :
      (a b c d : ℕ)
      → read_ipv4 (conn (a ∷ b ∷ c ∷ d ∷ to_be_bytes port rest) out n rf wf)
        ≡ (understood (octets a b c d) port, conn rest out n rf wf)
  unfolding read_ipv4
  read_ipv4_lem a b c d =
      rw (read_exact_lem (a ∷ b ∷ c ∷ d ∷ to_be_bytes port []) rest out n rf wf)
        (rw be_bytes_back refl)

  read_ipv6_lem :
      (a b c d e f g h : ℕ)
      → read_ipv6 (
          conn
            (to_be_bytes a (
              to_be_bytes b (
                to_be_bytes c (
                  to_be_bytes d (
                    to_be_bytes e
                      (to_be_bytes f (to_be_bytes g (to_be_bytes h (to_be_bytes port rest)))))))))
            out
            n
            rf
            wf)
        ≡ (understood (groups a b c d e f g h) port, conn rest out n rf wf)
  unfolding read_ipv6 be_groups
  read_ipv6_lem a b c d e f g h =
      rw
        (read_exact_lem
          (to_be_bytes a (
            to_be_bytes b (
              to_be_bytes c (
                to_be_bytes d (
                  to_be_bytes e
                    (to_be_bytes f (to_be_bytes g (to_be_bytes h (to_be_bytes port [])))))))))
          rest out n rf wf)
        (simp be_bytes_back)

  read_behind :
      (host : Text) (a b : ℕ)
      → read_exact (length host + 2) (conn (host ++ a ∷ b ∷ rest) out n rf wf)
        ≡ (ok (host ++ a ∷ b ∷ []), conn rest out n rf wf)
  read_behind host a b =
      let two_more : length host + 2 ≡ length (host ++ a ∷ b ∷ []) =
        omega (arith, length-append host (a ∷ b ∷ [])) in
      rw two_more (
        rw (← append_assoc host (a ∷ b ∷ []) rest)
          (read_exact_lem (host ++ a ∷ b ∷ []) rest out n rf wf))

  read_domain_lem :
      (host : Text)
      → read_domain (conn (length host ∷ (host ++ to_be_bytes port rest)) out n rf wf)
        ≡ (understood (domain host) port, conn rest out n rf wf)
  unfolding read_domain
  read_domain_lem host = rw read_u8_lem (
      rw read_behind
        (simp (take-append, first_behind, second_behind, be_bytes_back) (ground arith)))

-- Every request that a client can encode is read back: an IPv4 or IPv6 address as its printed form,
-- a host name as it is if it is UTF-8 and as an error if not, each with its port. What follows the request
-- is left to be read, and nothing is written.
pub read_host_port-connect_request :
    (t : Target) (port : ℕ) (rest out : Bytes) (n : ℕ) (rf wf : Text)
    → read_host_port (conn (connect_request t port rest) out n rf wf)
      ≡ (understood t port, conn rest out n rf wf)
unfolding read_host_port
read_host_port-connect_request (octets a b c d) port rest out n rf wf =
    rw (read_exact_lem (0x05 ∷ 0x01 ∷ 0x00 ∷ 0x01 ∷ []) _ out n rf wf)
      (read_ipv4_lem out n rf wf port rest a b c d)
read_host_port-connect_request (domain host) port rest out n rf wf =
    rw (read_exact_lem (0x05 ∷ 0x01 ∷ 0x00 ∷ 0x03 ∷ []) _ out n rf wf)
      (read_domain_lem out n rf wf port rest host)
read_host_port-connect_request (groups a b c d e f g h) port rest out n rf wf =
    rw (read_exact_lem (0x05 ∷ 0x01 ∷ 0x00 ∷ 0x04 ∷ []) _ out n rf wf)
      (read_ipv6_lem out n rf wf port rest a b c d e f g h)

-- A header that is not version 5 with CONNECT is refused whatever follows, and only it is read.
pub read_host_port-refuses :
    (ver cmd rsv atyp : ℕ) (rest out : Bytes) (n : ℕ) (rf wf : Text)
    → (ver == 0x05 && cmd == 0x01) ≡ false
    → read_host_port (conn (ver ∷ cmd ∷ rsv ∷ atyp ∷ rest) out n rf wf) ≡ (
      err (other (text "unsupported SOCKS5 request " ++ debug_bytes (ver ∷ cmd ∷ rsv ∷ atyp ∷ []))),
      conn rest out n rf wf,
    )
unfolding read_host_port
read_host_port-refuses ver cmd rsv atyp rest out n rf wf h =
    rw (read_exact_lem (ver ∷ cmd ∷ rsv ∷ atyp ∷ []) rest out n rf wf) (rw h refl)
