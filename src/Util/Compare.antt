-- ===== src/Util/Compare.antt =====
-- `ct_eq` and equality.
use fictional_octo_spork.Prelude.{
  ℕ, ◌≡◌, ◌↔◌, refl, true, [], ◌∷◌, arith, ==_refl, length, bit_or, bit_xor, bit_or-eq-zero,
  bit_xor-eq-zero, bit_xor_self,
}
use fictional_octo_spork.Text.{Bytes}
use fictional_octo_spork.Util.{differences, ct_eq}

differences-keeps : (d : ℕ) (a b : Bytes) → differences d a b ≡ 0 → d ≡ 0
unfolding differences
differences-keeps d [] b h = h
differences-keeps d (x ∷ a) [] h = h
differences-keeps d (x ∷ a) (y ∷ b) h =
    (bit_or-eq-zero d (bit_xor x y) (differences-keeps (bit_or d (bit_xor x y)) a b h)).0

differences_sound : (d : ℕ) (a b : Bytes) → length a ≡ length b → differences d a b ≡ 0 → a ≡ b
unfolding differences
differences_sound d [] [] l h = refl
differences_sound d [] (y ∷ b) l h = absurd (omega arith)
differences_sound d (x ∷ a) [] l h = absurd (omega arith)
differences_sound d (x ∷ a) (y ∷ b) l h =
    let none_yet = differences-keeps (bit_or d (bit_xor x y)) a b h in
    cc (
      bit_xor-eq-zero x y (bit_or-eq-zero d (bit_xor x y) none_yet).1,
      differences_sound (bit_or d (bit_xor x y)) a b (omega arith) h,
    )

differences_self : (a : Bytes) → differences 0 a a ≡ 0
unfolding differences
differences_self [] = refl
differences_self (x ∷ a) =
    let clean : bit_or 0 (bit_xor x x) ≡ 0 = rw bit_xor_self refl in rw clean (differences_self a)

-- `ct_eq` answers `true` exactly on equal byte strings, of whatever lengths.
pub ct_eq_iff : (a b : Bytes) → (ct_eq a b ≡ true) ↔ (a ≡ b)
unfolding ct_eq
ct_eq_iff a b = (
  λ h. ground (arith, differences_sound 0 a b),
  λ e. rw e (rw (==_refl (length b), differences_self b) refl),
)
