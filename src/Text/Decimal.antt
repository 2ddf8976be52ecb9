-- ===== src/Text/Decimal.antt =====
-- `Display` of the unsigned integers up to 64 bits, which have at most twenty digits.
use fictional_octo_spork.Prelude.{
  ℕ, zero, suc, ◌+◌, ◌/◌, ◌%◌, ◌≡◌, refl, List, [], ◌∷◌, ◌==◌, if◌then◌else◌,
}

digits_of : ℕ → ℕ → List ℕ → List ℕ
digits_of zero n acc = acc
digits_of (suc fuel) n acc =
    let digit = (b'0' + n % 10) ∷ acc in
    let more = digits_of fuel (n / 10) digit in if n / 10 == 0 then digit else more

unfoldable pub decimal : ℕ → List ℕ
unfolding digits_of
decimal n = digits_of 20 n []

decimal_example : decimal 8090 ≡ b'8' ∷ b'0' ∷ b'9' ∷ b'0' ∷ []
unfolding decimal
decimal_example = refl
