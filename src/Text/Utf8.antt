-- ===== src/Text/Utf8.antt =====
-- `String::from_utf8`: which byte strings are UTF-8, by the table of well-formed sequences.
use fictional_octo_spork.Prelude.{
  ℕ, ◌≡◌, refl, Bool, true, false, ◌&&◌, List, [], ◌∷◌, leb, if◌then◌else◌,
}

-- What the bytes read so far ask of the next one.
pub data Expect : Type 0 where
  lead : Expect  -- the start of a character
  tail_one tail_two tail_three : Expect  -- so many continuation bytes
  after_e0 after_ed after_f0 after_f4 : Expect  -- a second byte with a narrower range
  bad : Expect

between : ℕ → ℕ → ℕ → Expect → Expect
between lo hi b next = if leb lo b && leb b hi then next else bad

lead_byte : ℕ → Expect
lead_byte b =
    if leb b 0x7f
    then lead
    else if leb b 0xc1
    then bad
    else if leb b 0xdf
    then tail_one
    else if leb b 0xe0
    then after_e0
    else if leb b 0xec
    then tail_two
    else if leb b 0xed
    then after_ed
    else if leb b 0xef
    then tail_two
    else if leb b 0xf0
    then after_f0
    else if leb b 0xf3
    then tail_three
    else if leb b 0xf4
    then after_f4
    else bad

unfoldable pub next_byte : Expect → ℕ → Expect
unfolding between lead_byte
next_byte lead b = lead_byte b
next_byte tail_one b = between 0x80 0xbf b lead
next_byte tail_two b = between 0x80 0xbf b tail_one
next_byte tail_three b = between 0x80 0xbf b tail_two
next_byte after_e0 b = between 0xa0 0xbf b tail_one
next_byte after_ed b = between 0x80 0x9f b tail_one
next_byte after_f0 b = between 0x90 0xbf b tail_two
next_byte after_f4 b = between 0x80 0x8f b tail_two
next_byte bad b = bad

is_lead : Expect → Bool
is_lead lead = true
is_lead _ = false

utf8_from : Expect → List ℕ → Bool
unfolding next_byte is_lead
utf8_from e [] = is_lead e
utf8_from e (b ∷ s) = utf8_from (next_byte e b) s

unfoldable pub is_utf8 : List ℕ → Bool
unfolding utf8_from
is_utf8 = utf8_from lead

is_utf8_example : is_utf8 (0xe2 ∷ 0x86 ∷ 0x92 ∷ 0x41 ∷ []) ≡ true
unfolding is_utf8
is_utf8_example = refl

-- A surrogate is refused.
is_utf8_surrogate : is_utf8 (0xed ∷ 0xa0 ∷ 0x80 ∷ []) ≡ false
unfolding is_utf8
is_utf8_surrogate = refl
