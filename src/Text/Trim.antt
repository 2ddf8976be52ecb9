-- ===== src/Text/Trim.antt =====
-- `str::trim` of a line whose text begins and ends with a byte that is no white space.
use mathlib.Core.List.{reverse, reverse-append, reverse-reverse}
use fictional_octo_spork.Prelude.{
  ℕ, zero, suc, ◌≡◌, refl, sym, ap, ◌∙◌, [], ◌∷◌, ◌++◌, length, arith,
}
use fictional_octo_spork.Text.{
  Text, trim, white_one, white_two, white_three, white_start, white_end, strip,
}

start_object : (m : Text) → white_start (b'{' ∷ m) ≡ 0
unfolding white_start
start_object [] = refl
start_object (a ∷ []) = refl
start_object (a ∷ b ∷ m) = refl

end_object : (m : Text) → white_end (b'}' ∷ m) ≡ 0
unfolding white_end white_three white_two white_one
end_object [] = refl
end_object (a ∷ []) = ground arith
end_object (a ∷ b ∷ m) = ground arith

end_line : (m : Text) → white_end (b'\n' ∷ b'}' ∷ m) ≡ 1
unfolding white_end white_one
end_line [] = refl
end_line (a ∷ m) = refl

module _ (white : Text → ℕ) where
  strip_none : (fuel : ℕ) (s : Text) → white s ≡ 0 → strip white fuel s ≡ s
  unfolding strip
  strip_none zero s h = refl
  strip_none (suc fuel) s h = rw h refl

  strip_one :
      (fuel : ℕ) (a : ℕ) (s : Text)
      → white (a ∷ s) ≡ 1
      → white s ≡ 0
      → strip white (suc fuel) (a ∷ s) ≡ s
  unfolding strip
  strip_one fuel a s h k = rw h (strip_none fuel s k)

object_line :
    (m : Text) → reverse (b'{' ∷ (m ++ b'}' ∷ b'\n' ∷ [])) ≡ b'\n' ∷ b'}' ∷ reverse (b'{' ∷ m)
object_line m = reverse-append (b'{' ∷ m) (b'}' ∷ b'\n' ∷ [])

object : (m : Text) → reverse (b'}' ∷ reverse (b'{' ∷ m)) ≡ b'{' ∷ (m ++ b'}' ∷ [])
object m =
    ap reverse (sym (reverse-append (b'{' ∷ m) (b'}' ∷ [])))
    ∙ reverse-reverse (b'{' ∷ (m ++ b'}' ∷ []))

-- A JSON object in a line of its own is what is left of the line.
pub trim_object : (m : Text) → trim (b'{' ∷ (m ++ b'}' ∷ b'\n' ∷ [])) ≡ b'{' ∷ (m ++ b'}' ∷ [])
unfolding trim
trim_object m =
    rw (strip_none white_start (length line) line (start_object (m ++ b'}' ∷ b'\n' ∷ []))) (
      rw (object_line m) (
        rw
          (strip_one white_end (length (m ++ b'}' ∷ b'\n' ∷ [])) b'\n' (b'}' ∷ reverse (b'{' ∷ m))
            (end_line (reverse (b'{' ∷ m))) (end_object (reverse (b'{' ∷ m))))
          (object m)))
  where
    line : Text
    line = b'{' ∷ (m ++ b'}' ∷ b'\n' ∷ [])
