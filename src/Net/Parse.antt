-- ===== src/Net/Parse.antt =====
-- `IpAddr::from_str` of the standard library: a recursive-descent parser that must use up its input.
pub mod Range
use fictional_octo_spork.Prelude.{
  ℕ, zero, suc, ◌+◌, ◌-◌, ◌*◌, ◌≡◌, refl, Option, none, some, Bool, true, false, ◌&&◌, not, List,
  [], ◌∷◌, ◌++◌, ltb, leb, ◌==◌, if◌then◌else◌, length, replicate,
}
use fictional_octo_spork.Text.{Text, text}
use fictional_octo_spork.Net.{IpAddr, v4, v6}

-- A parser gives what it read, and the rest of the text.
abbrev Parser : Type 0 → Type 0
Parser A = Text → Option (A × Text)

infixl 5 ◌>>=◌
abbrev ◌>>=◌ : {A B : Type 0} → Parser A → (A → Parser B) → Parser B
◌>>=◌ p f s = elim (p s) [ none ↦ none | some (a, r) ↦ f a r ]

-- `char::to_digit`
digit : ℕ → ℕ → Option ℕ
digit radix c =
    let n =
      if leb b'0' c && leb c b'9'
      then c - b'0'
      else if leb b'a' c && leb c b'z'
      then c - b'a' + 10
      else if leb b'A' c && leb c b'Z'
      then c - b'A' + 10
      else 36 in
    if ltb n radix then some n else none

-- The digits of a number below `bound`, at most `left` of them.
read_digits : ℕ → ℕ → ℕ → ℕ → ℕ → Parser (ℕ × ℕ)
unfolding digit
read_digits radix bound left n count [] = some ((n, count), [])
read_digits radix bound left n count (c ∷ s) = elim (digit radix c) [
  | none ↦ some ((n, count), c ∷ s)
  | some d ↦
      let v = n * radix + d in
      if ltb v bound && ltb count left then read_digits radix bound left v (count + 1) s else none
]

starts_with_zero : Text → Bool
starts_with_zero [] = false
starts_with_zero (c ∷ s) = c == b'0'

-- `read_number(radix, Some(max_digits), allow_zero_prefix)`
read_number : ℕ → ℕ → ℕ → Bool → Parser ℕ
unfolding read_digits starts_with_zero
read_number radix bound max_digits allow_zero_prefix s =
    elim (read_digits radix bound max_digits 0 0 s) [
      | none ↦ none
      | some ((n, count), r) ↦
          if count == 0
          then none
          else if not allow_zero_prefix && (starts_with_zero s && ltb 1 count)
          then none
          else some (n, r)
    ]

-- `read_given_char`
read_char : ℕ → Parser (Unit {0})
read_char c [] = none
read_char c (d ∷ s) = if d == c then some (tt, s) else none

read_octet : Parser ℕ
unfolding read_number
read_octet = read_number 10 256 3 false

read_v4 : Parser (ℕ × ℕ × ℕ × ℕ)
unfolding read_octet read_char
read_v4 = do
  a ← read_octet
  p ← read_char b'.'
  b ← read_octet
  q ← read_char b'.'
  c ← read_octet
  r ← read_char b'.'
  d ← read_octet
  λ s. some ((a, b, c, d), s)

-- `read_separator(':', i, …)`, where `first` says whether `i` is 0
separated : {A : Type 0} → Bool → Parser A → Parser A
unfolding read_char
separated true p = p
separated false p = do c ← read_char b':'; p

-- `read_groups`: the groups, whether they end in an IPv4 address, and the rest.
read_groups : ℕ → Bool → Text → List ℕ × Bool × Text
unfolding separated read_v4 read_number
read_groups zero first s = ([], false, s)
read_groups (suc k) first s = elim (if ltb 0 k then separated first read_v4 s else none) [
  | some ((a, b, c, d), r) ↦ ((a * 256 + b) ∷ (c * 256 + d) ∷ [], true, r)
  | none ↦ elim (separated first (read_number 16 65536 4 true) s) [
    | none ↦ ([], false, s)
    | some (g, r) ↦ let (gs, v, r') = read_groups k false r in (g ∷ gs, v, r')
  ]
]

read_tail : List ℕ → Parser (List ℕ)
unfolding read_groups
read_tail head s =
    let (tail, v, r) = read_groups (7 - length head) true s in
    some (head ++ (replicate (8 - length head - length tail) 0 ++ tail), r)

read_v6 : Parser (List ℕ)
unfolding read_groups read_tail read_char
read_v6 s =
    let (head, v, r) = read_groups 8 true s in
    if length head == 8
    then some (head, r)
    else if v
    then none
    else (do c ← read_char b':'; d ← read_char b':'; read_tail head) r

-- The whole text must have been read.
finish : {A : Type 0} → Option (A × Text) → Option A
finish none = none
finish (some (a, [])) = some a
finish (some (a, c ∷ s)) = none

-- `str::parse::<IpAddr>`: `read_ip_addr` takes an IPv4 address wherever one can be read.
unfoldable pub parse_ip : Text → Option IpAddr
unfolding read_v4 read_v6 finish
parse_ip s = elim (read_v4 s) [
  | some ((a, b, c, d), r) ↦ finish (some (v4 a b c d, r))
  | none ↦ elim (read_v6 s) [ none ↦ none | some (gs, r) ↦ finish (some (v6 gs, r)) ]
]

parse_v4_example : parse_ip (text "8.8.8.8") ≡ some (v4 8 8 8 8)
unfolding parse_ip text
parse_v4_example = refl

parse_v4_leading_zero : parse_ip (text "8.8.08.8") ≡ none
unfolding parse_ip text
parse_v4_leading_zero = refl

parse_v6_example :
    parse_ip (text "2001:DB8::1") ≡ some (v6 (0x2001 ∷ 0xdb8 ∷ 0 ∷ 0 ∷ 0 ∷ 0 ∷ 0 ∷ 1 ∷ []))
unfolding parse_ip text
parse_v6_example = refl

parse_mapped_example :
    parse_ip (text "::ffff:8.8.4.4") ≡ some (v6 (0 ∷ 0 ∷ 0 ∷ 0 ∷ 0 ∷ 0xffff ∷ 0x808 ∷ 0x404 ∷ []))
unfolding parse_ip text
parse_mapped_example = refl

parse_port_refused : parse_ip (text "8.8.8.8:53") ≡ none
unfolding parse_ip text
parse_port_refused = refl
