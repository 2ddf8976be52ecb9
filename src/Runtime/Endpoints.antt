-- ===== src/Runtime/Endpoints.antt =====
-- rust/core/src/runtime.rs: a random endpoint is one that a client can log in to.
use fictional_octo_spork.Prelude.{
  ℕ, ◌+◌, ◌<◌, ◌≡◌, ◌⊎◌, inl, inr, refl, true, [], length, All, All-append, All-map, arith,
}
use fictional_octo_spork.Text.{Text}
use fictional_octo_spork.Failure.{Reported, good, failed, ok, err, io}
use fictional_octo_spork.Net.{v4}
use fictional_octo_spork.Util.Outside.{Rng, Net}
use fictional_octo_spork.Util.{random_local_port, random_username}
use fictional_octo_spork.Util.Password.{is_alphanumeric, random_password-alphanumeric}
use fictional_octo_spork.Runtime.{SocksEndpoint, new_random}
use fictional_octo_spork.Socks.{Credentials}
use fictional_octo_spork.Socks.Handshake.{login}
use fictional_octo_spork.Socks.Request.Encoded.{IsByte}
use fictional_octo_spork.Arti.Listener.{credentials}

abbrev pub IsAlphanumeric : Text → Type 0
IsAlphanumeric t = All (λ c. is_alphanumeric c ≡ true) t

alphanumeric_byte : (c : ℕ) → is_alphanumeric c ≡ true → c < 256
alphanumeric_byte c h = ground arith

bytes_of : (t : Text) → IsAlphanumeric t → All IsByte t
bytes_of t h = All-map _ IsByte t alphanumeric_byte h

-- An endpoint on the loopback address with a login that fits the bytes of RFC 1929.
pub record Usable (port : ℕ) (e : SocksEndpoint) : Type 0 where
  pub local : e.addr ≡ record { ip = v4 127 0 0 1; port = port }
  pub username_length : length e.username ≡ 12
  pub password_length : length e.password ≡ 32
  pub username_chars : IsAlphanumeric e.username
  pub password_chars : IsAlphanumeric e.password
  pub encodable : All IsByte (login (credentials e) [])

login-bytes :
    (who : Credentials)
    → length who.username < 256
    → length who.password < 256
    → All IsByte who.username
    → All IsByte who.password
    → All IsByte (login who [])
login-bytes who ul pl u p = (
  omega arith,
  (ul, All-append IsByte who.username _ u (pl, All-append IsByte who.password [] p tt)),
)

-- An endpoint is drawn exactly if a local port is to be had, and whatever is drawn, it is that port of the loopback
-- address, with a user name of 12 and a password of 32 ASCII letters and digits, which make a login message of
-- bytes. Without a port, the error is the system's.
pub new_random-Usable :
    (rng : Rng) (net : Net) (call k : ℕ)
    → ((m : Text) × (net.bind_local call ≡ failed m) × (new_random rng net call k ≡ err (io m)))
      ⊎ ((port : ℕ) × (e : SocksEndpoint) × (net.bind_local call ≡ good port)
          × (new_random rng net call k ≡ ok e)
          × Usable port e)
unfolding new_random random_local_port random_username
new_random-Usable rng net call k = go (net.bind_local call) refl
  where
    go :
        (r : Reported ℕ)
        → net.bind_local call ≡ r
        → ((m : Text) × (net.bind_local call ≡ failed m) × (new_random rng net call k ≡ err (io m)))
          ⊎ ((port : ℕ) × (e : SocksEndpoint) × (net.bind_local call ≡ good port)
              × (new_random rng net call k ≡ ok e)
              × Usable port e)
    go (failed m) b = inl (m, b, rw b refl)
    go (good port) b =
        let (ul, u) = random_password-alphanumeric rng k 12 in
        let (pl, p) = random_password-alphanumeric rng (k + 12) 32 in
        inr (
          port,
          _,
          b,
          rw b refl,
          record {
            local = refl;
            username_length = ul;
            password_length = pl;
            username_chars = u;
            password_chars = p;
            encodable =
                login-bytes _ (omega (arith, ul)) (omega (arith, pl)) (bytes_of _ u) (bytes_of _ p);
          },
        )
