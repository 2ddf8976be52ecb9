-- ===== src/Util/Password.antt =====
-- Random passwords: their length and their characters.
use fictional_octo_spork.Prelude.{
  ℕ, zero, suc, ◌+◌, ◌<◌, ◌≡◌, refl, ap, Bool, true, ◌&&◌, ◌||◌, leb, length, get_or, All, arith,
  all_below, all_below_sound,
}
use fictional_octo_spork.Util.{charset, random_password}
use fictional_octo_spork.Util.Outside.{Rng}

-- An ASCII letter or digit.
abbrev pub is_alphanumeric : ℕ → Bool
is_alphanumeric c =
    leb b'0' c && leb c b'9' || (leb b'A' c && leb c b'Z' || leb b'a' c && leb c b'z')

charset_table : all_below 62 (λ i. is_alphanumeric (get_or charset i 0)) ≡ true
unfolding all_below charset
charset_table = refl

length-charset : length charset ≡ 62
unfolding charset
length-charset = refl

charset_at : (i : ℕ) → i < length charset → is_alphanumeric (get_or charset i 0) ≡ true
charset_at i h =
    all_below_sound 62 (λ j. is_alphanumeric (get_or charset j 0)) i (omega (arith, length-charset))
      charset_table

-- A password has the length asked for.
pub length-random_password : (rng : Rng) (k n : ℕ) → length (random_password rng k n) ≡ n
unfolding random_password
length-random_password rng k zero = refl
length-random_password rng k (suc n) = ap suc (length-random_password rng (k + 1) n)

random_password-chars :
    (rng : Rng) (k n : ℕ) → All (λ c. is_alphanumeric c ≡ true) (random_password rng k n)
unfolding random_password
random_password-chars rng k zero = tt
random_password-chars rng k (suc n) = (
  charset_at (rng.draw k (length charset))
      (rng.draw-lt k (length charset) (omega (arith, length-charset))),
  random_password-chars rng (k + 1) n,
)

-- Whatever numbers are drawn, a password has the length asked for, and consists of ASCII letters and
-- digits: it holds no NUL, no `:` and no byte above 127.
pub random_password-alphanumeric :
    (rng : Rng) (k n : ℕ)
    → (length (random_password rng k n) ≡ n)
      × All (λ c. is_alphanumeric c ≡ true) (random_password rng k n)
random_password-alphanumeric rng k n =
    (length-random_password rng k n, random_password-chars rng k n)
