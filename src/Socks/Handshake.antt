-- ===== src/Socks/Handshake.antt =====
-- `socks5_handshake` against the client's side of RFC 1928 and RFC 1929.
use mathlib.Core.List.{append_assoc}
use fictional_octo_spork.Prelude.{
  ℕ, suc, ◌≡◌, refl, ◌++◌, [], ◌∷◌, length, arith, Bool, true, ◌&&◌, if◌then◌else◌, Bool-cases, inl,
  inr, ◌==◌, get_or,
}
use fictional_octo_spork.Text.{Bytes, Text, text}
use fictional_octo_spork.Failure.{ok, err, other, ensure}
use fictional_octo_spork.Util.{ct_eq}
use fictional_octo_spork.Util.Compare.{ct_eq_iff}
use fictional_octo_spork.Socks.{Credentials, contains, subnegotiate, socks5_handshake}
use fictional_octo_spork.Socks.Stream.{Conn, conn}
use fictional_octo_spork.Socks.Laws.{
  stream_laws, from_read_u8, from_read_exact, from_write_all, from_ensure, from_if, two_bytes,
  read_exact_lem,
}

-- What a client sends to log in, before what follows it.
abbrev pub login : Credentials → Bytes → Bytes
login who rest =
    0x01 ∷ length who.username ∷ (who.username ++ length who.password ∷ (who.password ++ rest))

abbrev pub client_hello : Bytes → Credentials → Bytes → Bytes
client_hello methods who rest = 0x05 ∷ length methods ∷ (methods ++ login who rest)

abbrev pub knows : Credentials → Credentials → Bool
knows who auth = ct_eq who.username auth.username && ct_eq who.password auth.password

subnegotiate_lem :
    (auth who : Credentials) (rest out : Bytes) (n : ℕ) (rf wf : Text)
    → subnegotiate auth (conn (login who rest) out (suc n) rf wf) ≡ (
      ensure (knows who auth) (other (text "invalid SOCKS5 credentials")),
      conn rest (out ++ 0x01 ∷ (if knows who auth then 0x00 else 0x01) ∷ []) n rf wf,
    )
unfolding subnegotiate
subnegotiate_lem auth who rest out n rf wf = simp stream_laws refl

-- The answer to a client that speaks the protocol, in all cases. It is refused with 05 FF if it does not
-- offer user/password; else it is offered 05 02, and then the verdict 01 00 or 01 01: success exactly
-- if the credentials are the server's.
pub handshake_answers :
    (auth who : Credentials) (methods rest out : Bytes) (n : ℕ) (rf wf : Text)
    → socks5_handshake auth (conn (client_hello methods who rest) out (suc (suc n)) rf wf) ≡ (
        if contains methods 0x02
        then (
          ensure (knows who auth) (other (text "invalid SOCKS5 credentials")),
          conn rest
              (out ++ 0x05 ∷ 0x02 ∷ 0x01 ∷ (if knows who auth then 0x00 else 0x01) ∷ [])
              n
              rf
              wf,
        )
        else (
          err (other (text "client refused user/pass auth")),
          conn (login who rest) (out ++ 0x05 ∷ 0xff ∷ []) (suc n) rf wf,
        ))
unfolding socks5_handshake
handshake_answers auth who methods rest out n rf wf =
    rw
      (read_exact_lem (0x05 ∷ length methods ∷ []) (methods ++ login who rest) out (suc (suc n)) rf
        wf)
      (simp read_exact_lem (elim (Bool-cases (contains methods 0x02)) [
        | inl offered ↦ rw offered (simp (stream_laws, subnegotiate_lem, append_assoc))
        | inr not_offered ↦ rw not_offered (simp stream_laws)
      ]))

-- The parts of a subnegotiation that succeeded.
subnegotiate_sound :
    (auth : Credentials) (c : Conn) {c' : Conn}
    → subnegotiate auth c ≡ (ok tt, c')
    → (c.input ≡ login auth c'.input) × (c'.output ≡ c.output ++ 0x01 ∷ 0x00 ∷ [])
unfolding subnegotiate
subnegotiate_sound auth c h = from_read_u8 c _ h λ ver c1 r1 h1.
    from_ensure c1 (ver == 0x01) _ _ h1 λ v1 h2. from_read_u8 c1 _ h2 λ ulen c2 r2 h3.
      from_read_exact c2 ulen _ h3 λ user c3 r3 h4. from_read_u8 c3 _ h4 λ plen c4 r4 h5.
        from_read_exact c4 plen _ h5 λ pass c5 r5 h6.
          from_write_all c5 _ _ h6
            λ c6 w h7. ground (arith, ct_eq_iff user auth.username, ct_eq_iff pass auth.password)

-- A handshake that succeeds was one: the client offered user/password, sent exactly the server's
-- credentials, and was answered 05 02 01 00; what it sent after that is still to be read.
pub handshake_sound :
    (auth : Credentials) (c : Conn) {c' : Conn}
    → socks5_handshake auth c ≡ (ok tt, c')
    → (methods : Bytes) × (contains methods 0x02 ≡ true)
      × (c.input ≡ client_hello methods auth c'.input)
      × (c'.output ≡ c.output ++ 0x05 ∷ 0x02 ∷ 0x01 ∷ 0x00 ∷ [])
unfolding socks5_handshake
handshake_sound auth c h = from_read_exact c 2 _ h λ header c1 r1 h1.
    from_ensure c1 (get_or header 0 0 == 0x05) _ _ h1 λ v h2.
      from_read_exact c1 (get_or header 1 0) _ h2 λ methods c2 r2 h3.
        from_if c2 (contains methods 0x02) _ _ h3
          (λ offered h4. from_write_all c2 _ _ h4 λ c3 w h5.
            let (sent, answered) = subnegotiate_sound auth c3 h5 in
            let header_is = two_bytes header r1.length_read in
            (
              methods,
              offered,
              ground (arith, sent, header_is),
              ground (arith, answered, append_assoc c.output (0x05 ∷ 0x02 ∷ []) (0x01 ∷ 0x00 ∷ [])),
            ))
          (λ _ h4. from_write_all c2 _ _ h4 λ c3 w h5. absurd (cc))
