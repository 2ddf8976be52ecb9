-- ===== src/Text/Utf8Error.antt =====
-- How `Utf8Error` prints: where the text stops being UTF-8, and how many bytes of a character were there.
use fictional_octo_spork.Prelude.{ℕ, ◌+◌, ◌≡◌, refl, ◌++◌, ◌==◌, if◌then◌else◌, [], ◌∷◌}
use fictional_octo_spork.Text.{Bytes, Text, text}
use fictional_octo_spork.Text.Decimal.{decimal}
use fictional_octo_spork.Text.Utf8.{
  Expect, lead, tail_one, tail_two, tail_three, after_e0, after_ed, after_f0, after_f4, bad,
  next_byte,
}

incomplete : Expect → ℕ → Text
incomplete lead valid = []
incomplete _ valid = text "incomplete utf-8 byte sequence from index " ++ decimal valid

invalid : ℕ → ℕ → Text
invalid valid seen =
    text "invalid utf-8 sequence of "
    ++ (decimal (if seen == 0 then 1 else seen) ++ (text " bytes from index " ++ decimal valid))

-- `valid` bytes are whole characters, and `seen` bytes of the next one have been read.
error_from : Expect → ℕ → ℕ → Bytes → Text
unfolding next_byte incomplete invalid
error_from e valid seen [] = incomplete e valid
error_from e valid seen (b ∷ bs) =
    let next = next_byte e b in
    let inside = error_from next valid (seen + 1) bs in
    let outside = error_from lead (valid + seen + 1) 0 bs in
    elim next [
      | bad ↦ invalid valid seen
      | lead ↦ outside
      | tail_one ↦ inside
      | tail_two ↦ inside
      | tail_three ↦ inside
      | after_e0 ↦ inside
      | after_ed ↦ inside
      | after_f0 ↦ inside
      | after_f4 ↦ inside
    ]

-- The message for a text that is not UTF-8; empty for one that is.
unfoldable pub utf8_error : Bytes → Text
unfolding error_from
utf8_error = error_from lead 0 0

utf8_error_invalid :
    utf8_error (0x41 ∷ 0xe2 ∷ 0x86 ∷ 0x41 ∷ [])
    ≡ text "invalid utf-8 sequence of 2 bytes from index 1"
unfolding utf8_error decimal text
utf8_error_invalid = refl

utf8_error_incomplete :
    utf8_error (0x41 ∷ 0xe2 ∷ 0x86 ∷ []) ≡ text "incomplete utf-8 byte sequence from index 1"
unfolding utf8_error decimal text
utf8_error_incomplete = refl
