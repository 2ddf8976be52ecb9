-- ===== src/Text.antt =====
-- Rust's `String`, `&str` and byte slices: a text is the list of its UTF-8 bytes, as it is in
-- memory, so that `as_bytes` is the identity.
pub mod Utf8
pub mod Decimal
pub mod Utf8Error
pub mod Trim
use Prim.Native.Char.{code}
use Prim.Native.String.{String}
use fictional_octo_spork.Prelude.{
  ℕ, zero, suc, ◌+◌, ◌≡◌, refl, Bool, true, false, ◌&&◌, List, [], ◌∷◌, leb, ◌==◌, if◌then◌else◌,
  length, drop,
}
use mathlib.Core.List.{reverse}

abbrev pub Bytes : Type 0
Bytes = List ℕ

abbrev pub Text : Type 0
Text = List ℕ

-- A literal. Every literal of the program that is modelled is ASCII.
unfoldable pub text : String → Text
text String.[] = []
text (String.◌∷◌ c s) = code c ∷ text s

-- `u8::to_ascii_lowercase`
unfoldable pub to_ascii_lowercase : ℕ → ℕ
to_ascii_lowercase c = if leb b'A' c && leb c b'Z' then c + 32 else c

-- `str::eq_ignore_ascii_case`
unfoldable pub eq_ignore_ascii_case : Text → Text → Bool
unfolding to_ascii_lowercase
eq_ignore_ascii_case [] [] = true
eq_ignore_ascii_case (a ∷ s) (b ∷ t) =
    to_ascii_lowercase a == to_ascii_lowercase b && eq_ignore_ascii_case s t
eq_ignore_ascii_case _ _ = false

-- Equality of byte slices, `==`.
unfoldable pub same : Bytes → Bytes → Bool
same [] [] = true
same (a ∷ s) (b ∷ t) = a == b && same s t
same _ _ = false

-- How many bytes the white space character at the head of a text has; 0 if there is none there.
-- These are the characters of Unicode's White_Space, which `str::trim` removes.
white_one : ℕ → ℕ
white_one a = if leb 9 a && leb a 13 then 1 else if a == 32 then 1 else 0

white_two : ℕ → ℕ → ℕ
unfolding white_one
white_two a b =
    if a == 0xc2 then (if b == 0x85 then 2 else if b == 0xa0 then 2 else 0) else white_one a

white_three : ℕ → ℕ → ℕ → ℕ
unfolding white_two
white_three a b c =
    if a == 0xe1
    then (if b == 0x9a && c == 0x80 then 3 else 0)
    else if a == 0xe2
    then (if b == 0x80
        then (if leb 0x80 c && leb c 0x8a
            then 3
            else if c == 0xa8
            then 3
            else if c == 0xa9
            then 3
            else if c == 0xaf
            then 3
            else 0)
        else if b == 0x81 && c == 0x9f
        then 3
        else 0)
    else if a == 0xe3
    then (if b == 0x80 && c == 0x80 then 3 else 0)
    else white_two a b

white_start : Text → ℕ
unfolding white_one white_two white_three
white_start [] = 0
white_start (a ∷ []) = white_one a
white_start (a ∷ b ∷ []) = white_two a b
white_start (a ∷ b ∷ c ∷ s) = white_three a b c

-- The same at the end of a text, whose bytes come last first.
white_end : Text → ℕ
unfolding white_one white_two white_three
white_end [] = 0
white_end (a ∷ []) = white_one a
white_end (b ∷ a ∷ []) = if leb b 32 then white_one b else if a == 0xc2 then white_two a b else 0
white_end (c ∷ b ∷ a ∷ s) =
    if leb c 32
    then white_one c
    else if b == 0xc2
    then white_two b c
    else if leb 0xe1 a && leb a 0xe3
    then white_three a b c
    else 0

-- `fuel` is the number of bytes: each round removes at least one.
strip : (Text → ℕ) → ℕ → Text → Text
strip white zero s = s
strip white (suc fuel) s =
    let rest = strip white fuel (drop (white s) s) in if white s == 0 then s else rest

-- `str::trim`
unfoldable pub trim : Text → Text
unfolding strip white_start white_end
trim s = let t = strip white_start (length s) s in reverse (strip white_end (length t) (reverse t))

unfoldable pub is_empty : Text → Bool
is_empty [] = true
is_empty (a ∷ s) = false

eq_ignore_ascii_case_example : eq_ignore_ascii_case (text "VLess") (text "vless") ≡ true
unfolding eq_ignore_ascii_case text
eq_ignore_ascii_case_example = refl

trim_example : trim (text "  a b ") ≡ text "a b"
unfolding trim text
trim_example = refl
