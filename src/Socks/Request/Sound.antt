-- ===== src/Socks/Request/Sound.antt =====
-- `socks5_read_request` backwards: a request that is read was one, and its numbers are in range.
use fictional_octo_spork.Prelude.{
  ℕ, ◌+◌, ◌<◌, ◌≡◌, sym, ap, subst, ◌∙◌, ◌&&◌, ◌==◌, ==_iff, ◌∷◌, take, get_or, All, arith,
}
use fictional_octo_spork.Text.{Bytes}
use fictional_octo_spork.Text.Utf8.{is_utf8}
use fictional_octo_spork.Failure.{Result, ok}
use fictional_octo_spork.Socks.{
  HostPort, read_ipv4, read_domain, read_ipv6, read_address, read_host_port,
}
use fictional_octo_spork.Socks.Stream.{Conn}
use fictional_octo_spork.Socks.Laws.{from_read_u8, from_read_exact, from_ensure, from_if}
use fictional_octo_spork.Socks.Request.Encoded.{
  IsByte, InRange, IsRequest, All-left, All-right, v4_of, v6_of, named, v4_IsRequest, v6_IsRequest,
  domain_IsRequest, four_bytes,
}
use fictional_octo_spork.Socks.Request.{Target, to_be_bytes, address_bytes, understood}

-- What is read of an address, behind the type of it.
record HasAddress (before : ℕ) (c : Conn) (hp : HostPort) (c' : Conn) : Type 0 where
  is_request : IsRequest (before ∷ c.input) c'.input hp
  same_output : c'.output ≡ c.output

module _ (c : Conn) {hp : HostPort} {c' : Conn} (bytes : All IsByte c.input) where
  finish :
      (before : ℕ) (sent : Bytes) (d : Conn) (x : HostPort)
      → c.input ≡ sent
      → IsRequest (before ∷ sent) d.input x
      → d.output ≡ c.output
      → ◌≡◌ {A = Result HostPort × Conn} (ok x, d) (ok hp, c')
      → HasAddress before c hp c'
  finish before sent d x read q o e =
      let host_port : x ≡ hp = cc in
      let last : d ≡ c' = cc in
      record {
        is_request =
            subst (λ y. IsRequest (before ∷ c.input) c'.input y) host_port
              (subst (λ k. IsRequest (before ∷ c.input) k.input x) last
                (subst (λ l. IsRequest (before ∷ l) d.input x) (sym read) q));
        same_output = subst (λ k. k.output ≡ c.output) last o;
      }

  read_ipv4_sound : read_ipv4 c ≡ (ok hp, c') → HasAddress 0x01 c hp c'
  unfolding read_ipv4
  read_ipv4_sound h = from_read_exact c 6 _ h λ bs d r e.
      let b = subst (All IsByte) r.was_next bytes in
      finish 0x01 _ d (v4_of bs) r.was_next
        (v4_IsRequest d.input bs r.length_read (All-left IsByte bs d.input b)) r.same_output e

  read_ipv6_sound : read_ipv6 c ≡ (ok hp, c') → HasAddress 0x04 c hp c'
  unfolding read_ipv6
  read_ipv6_sound h = from_read_exact c 18 _ h λ bs d r e.
      let b = subst (All IsByte) r.was_next bytes in
      finish 0x04 _ d (v6_of bs) r.was_next
        (v6_IsRequest d.input bs r.length_read (All-left IsByte bs d.input b)) r.same_output e

  read_domain_sound : read_domain c ≡ (ok hp, c') → HasAddress 0x03 c hp c'
  unfolding read_domain
  read_domain_sound h = from_read_u8 c _ h λ n c1 r1 h1.
      from_read_exact c1 (n + 2) _ h1 λ bs d r h2.
        from_ensure d (is_utf8 (take n bs)) _ _ h2 λ utf8 e.
          let read = r1.was_next ∙ ap (λ l. n ∷ l) r.was_next in
          let b = subst (All IsByte) read bytes in
          finish 0x03 _ d (named n bs) read
            (domain_IsRequest d.input bs n b.0 r.length_read (All-left IsByte bs d.input b.1) utf8)
            (r.same_output ∙ r1.same_output) e

  read_address_sound : (atyp : ℕ) → read_address atyp c ≡ (ok hp, c') → HasAddress atyp c hp c'
  unfolding read_address
  read_address_sound atyp h =
      from_if c (atyp == 0x01) _ _ h
        (λ v k.
          subst (λ a. HasAddress a c hp c') (sym ((==_iff atyp 0x01).0 v)) (read_ipv4_sound k))
        λ v k.
          from_if c (atyp == 0x03) _ _ k
            (λ v k.
              subst (λ a. HasAddress a c hp c') (sym ((==_iff atyp 0x03).0 v))
                (read_domain_sound k))
            λ v k.
              from_if c (atyp == 0x04) _ _ k
                (λ v k.
                  subst (λ a. HasAddress a c hp c') (sym ((==_iff atyp 0x04).0 v))
                    (read_ipv6_sound k))
                λ v k. absurd (cc)

-- A request that is read was one of a client's, in all its parts: version 5, CONNECT, any reserved byte, a target and
-- a port as the client encodes them, each in the range of its type, and the host and the port are what the target
-- and the port stand for. Nothing behind the request is read, and nothing is written.
pub read_host_port_sound :
    (c : Conn) {hp : HostPort} {c' : Conn}
    → All IsByte c.input
    → read_host_port c ≡ (ok hp, c')
    → (target : Target) × (reserved : ℕ) × (port : ℕ) × InRange target
      × (port < 65536)
      × (c.input ≡ 0x05 ∷ 0x01 ∷ reserved ∷ address_bytes target (to_be_bytes port c'.input))
      × (understood target port ≡ ok hp)
      × (c'.output ≡ c.output)
unfolding read_host_port
read_host_port_sound c bytes h = from_read_exact c 4 _ h λ bs d r h1.
    from_ensure d (get_or bs 0 0 == 0x05 && get_or bs 1 0 == 0x01) _ _ h1 λ v e.
      let b = subst (All IsByte) r.was_next bytes in
      let a = read_address_sound d (All-right IsByte bs d.input b) (get_or bs 3 0) e in
      let q = a.is_request in
      let head = four_bytes bs r.length_read (All-left IsByte bs d.input b) in
      (
        q.target,
        get_or bs 2 0,
        q.port,
        q.in_range,
        q.port_in_range,
        r.was_next ∙ ground (arith, head, q.encoded),
        q.meant,
        a.same_output ∙ r.same_output,
      )
