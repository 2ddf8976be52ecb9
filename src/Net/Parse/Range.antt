-- ===== src/Net/Parse/Range.antt =====
-- What `IpAddr::from_str` reads: four octets, or eight groups of 16 bits.
use fictional_octo_spork.Prelude.{
  ℕ, zero, suc, ◌+◌, ◌-◌, ◌*◌, ◌<◌, ◌≤◌, ◌≡◌, refl, subst, Option, none, some, Bool, true, false,
  ◌&&◌, not, List, [], ◌∷◌, ◌++◌, ltb, ◌==◌, ==_iff, if◌then◌else◌, length, length-append,
  length-replicate, replicate, All, All-append, arith,
}
use fictional_octo_spork.Text.{Text}
use fictional_octo_spork.Net.{IpAddr, v4, v6}
use fictional_octo_spork.Net.Parse.{
  Parser, ◌>>=◌, digit, read_digits, starts_with_zero, read_number, read_char, read_octet, read_v4,
  separated, read_groups, read_tail, read_v6, finish, parse_ip,
}

-- The parts of an address are in the range of their types.
abbrev pub InRange : IpAddr → Type 0
InRange (v4 a b c d) = (a < 256) × (b < 256) × (c < 256) × (d < 256)
InRange (v6 gs) = (length gs ≡ 8) × All (λ g. g < 65536) gs

-- What is read, if anything is, has a property.
abbrev Gives : {A : Type 0} → (A → Type 0) → Option (A × Text) → Type 0
Gives P none = Unit
Gives P (some (a, r)) = P a

module _ {A B : Type 0} (P : A → Type 0) (Q : B → Type 0) where
  then_Gives :
      (p : Parser A) (f : A → Parser B)
      → ((s : Text) → Gives P (p s))
      → ((a : A) → P a → (s : Text) → Gives Q (f a s))
      → (s : Text) → Gives Q ((p >>= f) s)
  then_Gives p f h k s = go (p s) (h s)
    where
      go :
          (o : Option (A × Text))
          → Gives P o
          → Gives Q (elim o [ none ↦ none | some (a, r) ↦ f a r ])
      go none g = tt
      go (some (a, r)) g = k a g r

and_Gives :
    {A Q : Type 0} (P : A → Type 0) (o : Option (A × Text)) → Gives P o → Q → Gives (λ a. P a × Q) o
and_Gives P none h q = tt
and_Gives P (some (a, r)) h q = (h, q)

if_Gives :
    {A : Type 0} (P : A → Type 0) (b : Bool) (x y : Option (A × Text))
    → (b ≡ true → Gives P x)
    → (b ≡ false → Gives P y)
    → Gives P (if b then x else y)
if_Gives P true x y h k = h refl
if_Gives P false x y h k = k refl

read_digits-Gives :
    (radix bound left n count : ℕ) (s : Text)
    → n < bound
    → Gives (λ r. r.0 < bound) (read_digits radix bound left n count s)
unfolding read_digits
read_digits-Gives radix bound left n count [] h = h
read_digits-Gives radix bound left n count (c ∷ s) h =
    go (λ v k small. read_digits-Gives radix bound left v k s small) (digit radix c)
  where
    go :
        ((v k : ℕ)
          → v < bound
          → Gives {A = ℕ × ℕ} (λ r. r.0 < bound) (read_digits radix bound left v k s))
        → (o : Option ℕ)
        → Gives {A = ℕ × ℕ}
            (λ r. r.0 < bound)
            (elim o [
              | none ↦ some ((n, count), c ∷ s)
              | some d ↦
                  let v = n * radix + d in
                  if ltb v bound && ltb count left
                  then read_digits radix bound left v (count + 1) s
                  else none
            ])
    go rest none = h
    go rest (some d) =
        if_Gives (λ r. r.0 < bound) (ltb (n * radix + d) bound && ltb count left) _ none
          (λ small. rest (n * radix + d) (count + 1) (ground arith)) (λ q. tt)

read_number-Gives :
    (radix bound most : ℕ) (zeros : Bool) (s : Text)
    → 0 < bound
    → Gives (λ n. n < bound) (read_number radix bound most zeros s)
unfolding read_number
read_number-Gives radix bound most zeros s h =
    go (read_digits radix bound most 0 0 s) (read_digits-Gives radix bound most 0 0 s h)
  where
    go :
        (o : Option ((ℕ × ℕ) × Text))
        → Gives (λ r. r.0 < bound) o
        → Gives
            (λ n. n < bound)
            (elim o [
              | none ↦ none
              | some ((n, count), r) ↦
                  if count == 0
                  then none
                  else if not zeros && (starts_with_zero s && ltb 1 count)
                  then none
                  else some (n, r)
            ])
    go none g = tt
    go (some ((n, count), r)) g =
        if_Gives (λ n. n < bound) (count == 0) none _ (λ q. tt)
          (λ q.
            if_Gives (λ n. n < bound) (not zeros && (starts_with_zero s && ltb 1 count)) none _
              (λ q. tt) (λ q. g))

read_octet-Gives : (s : Text) → Gives (λ n. n < 256) (read_octet s)
unfolding read_octet
read_octet-Gives s = read_number-Gives 10 256 3 false s (omega arith)

read_char-Gives : (c : ℕ) (s : Text) → Gives (λ t. Unit) (read_char c s)
unfolding read_char
read_char-Gives c [] = tt
read_char-Gives c (d ∷ s) = if_Gives (λ t. Unit) (d == c) _ none (λ q. tt) (λ q. tt)

abbrev Octets : ℕ × ℕ × ℕ × ℕ → Type 0
Octets (a, b, c, d) = InRange (v4 a b c d)

abbrev Octet : ℕ → Type 0
Octet n = n < 256

read_v4-Gives : (s : Text) → Gives Octets (read_v4 s)
unfolding read_v4
read_v4-Gives = then_Gives Octet Octets read_octet _ read_octet-Gives λ a p.
    then_Gives _ Octets (read_char b'.') _ (read_char-Gives b'.') λ _ _.
      then_Gives Octet Octets read_octet _ read_octet-Gives λ b q.
        then_Gives _ Octets (read_char b'.') _ (read_char-Gives b'.') λ _ _.
          then_Gives Octet Octets read_octet _ read_octet-Gives λ c r.
            then_Gives _ Octets (read_char b'.') _ (read_char-Gives b'.')
              λ _ _. then_Gives Octet Octets read_octet _ read_octet-Gives λ d t s. (p, q, r, t)

separated-Gives :
    {A : Type 0} (P : A → Type 0) (first : Bool) (p : Parser A)
    → ((s : Text) → Gives P (p s))
    → (s : Text) → Gives P (separated first p s)
unfolding separated
separated-Gives P true p h = h
separated-Gives P false p h = then_Gives _ P (read_char b':') _ (read_char-Gives b':') (λ _ _. h)

abbrev Group : ℕ → Type 0
Group g = g < 65536

abbrev Groups : ℕ → List ℕ → Type 0
Groups most gs = (length gs ≤ most) × All Group gs

read_hex-Gives : (s : Text) → Gives Group (read_number 16 65536 4 true s)
read_hex-Gives s = read_number-Gives 16 65536 4 true s (omega arith)

read_groups_range : (k : ℕ) (first : Bool) (s : Text) → Groups k (read_groups k first s).0
unfolding read_groups
read_groups_range zero first s = (omega arith, tt)
read_groups_range (suc k) first s =
    go (λ r. read_groups_range k false r) (if ltb 0 k then separated first read_v4 s else none)
      (if_Gives (λ x. Octets x × (0 < k)) (ltb 0 k) _ none
        (λ q.
          and_Gives Octets (separated first read_v4 s)
            (separated-Gives Octets first read_v4 read_v4-Gives s) (ground arith))
        (λ q. tt))
      (separated first (read_number 16 65536 4 true) s)
      (separated-Gives Group first _ read_hex-Gives s)
  where
    go :
        ((r : Text) → Groups k (read_groups k false r).0)
        → (o : Option ((ℕ × ℕ × ℕ × ℕ) × Text)) → Gives (λ x. Octets x × (0 < k)) o
        → (g : Option (ℕ × Text)) → Gives Group g
        → let out : List ℕ × Bool × Text = elim o [
          | some ((a, b, c, d), r) ↦ ((a * 256 + b) ∷ (c * 256 + d) ∷ [], true, r)
          | none ↦ elim g [
            | none ↦ ([], false, s)
            | some (g, r) ↦ let (gs, v, r') = read_groups k false r in (g ∷ gs, v, r')
          ]
        ] in
          Groups (suc k) out.0
    go rest (some ((a, b, c, d), r)) ((p, q, t, u), more) g e =
        (omega arith, (omega arith, (omega arith, tt)))
    go rest none h none e = (omega arith, tt)
    go rest none h (some (g, r)) e = (omega (arith, (rest r).0), (e, (rest r).1))

abbrev Address : List ℕ → Type 0
Address gs = InRange (v6 gs)

zeros_in_range : (n : ℕ) → All Group (replicate n 0)
zeros_in_range zero = tt
zeros_in_range (suc n) = (omega arith, zeros_in_range n)

read_tail-Gives : (head : List ℕ) (s : Text) → Groups 7 head → Gives Address (read_tail head s)
unfolding read_tail
read_tail-Gives head s (short, small) =
    let tail = (read_groups (7 - length head) true s).0 in
    let (rest_short, rest_small) = read_groups_range (7 - length head) true s in
    let zeros = replicate (8 - length head - length tail) 0 in
    (
      omega (
        arith,
        short,
        rest_short,
        length-append head (zeros ++ tail),
        length-append zeros tail,
        length-replicate {A = ℕ} (8 - length head - length tail) 0,
      ),
      All-append Group head (zeros ++ tail) small
          (All-append Group zeros tail (zeros_in_range _) rest_small),
    )

below_eight : (n : ℕ) → (n == 8) ≡ false → n ≤ 8 → n ≤ 7
below_eight n h k = ground arith

read_v6-Gives : (s : Text) → Gives Address (read_v6 s)
unfolding read_v6
read_v6-Gives s =
    let (head, v, r) = read_groups 8 true s in
    let (short, small) = read_groups_range 8 true s in
    if_Gives Address (length head == 8) _ _ (λ full. ((==_iff (length head) 8).0 full, small))
      λ not_full.
        if_Gives Address v none _ (λ q. tt)
          λ q.
            then_Gives (λ t. Unit) Address (read_char b':') _ (read_char-Gives b':')
              (λ _ _.
                then_Gives (λ t. Unit) Address (read_char b':') _ (read_char-Gives b':')
                  (λ _ _ rest.
                    read_tail-Gives head rest (below_eight (length head) not_full short, small)))
              r

finish-InRange :
    {A : Type 0} (P : A → Type 0) (o : Option (A × Text)) {a : A}
    → Gives P o
    → finish o ≡ some a
    → P a
unfolding finish
finish-InRange P none g h = absurd (cc)
finish-InRange P (some (a, [])) g h = subst P (cc) g
finish-InRange P (some (a, c ∷ s)) g h = absurd (cc)

-- An address that is read has four octets, or eight groups of 16 bits.
pub parse_ip-InRange : (s : Text) {ip : IpAddr} → parse_ip s ≡ some ip → InRange ip
unfolding parse_ip
parse_ip-InRange s {ip} h = go (read_v4 s) (read_v4-Gives s) (read_v6 s) (read_v6-Gives s) h
  where
    go :
        (o : Option ((ℕ × ℕ × ℕ × ℕ) × Text))
        → Gives Octets o
        → (q : Option (List ℕ × Text)) → Gives Address q
        → elim o [
          | some ((a, b, c, d), r) ↦ finish (some (v4 a b c d, r))
          | none ↦ elim q [ none ↦ none | some (gs, r) ↦ finish (some (v6 gs, r)) ]
        ]
          ≡ some ip
        → InRange ip
    go (some ((a, b, c, d), r)) g q k e = finish-InRange InRange (some (v4 a b c d, r)) g e
    go none g none k e = absurd (cc)
    go none g (some (gs, r)) k e = finish-InRange InRange (some (v6 gs, r)) k e
