-- ===== src/Prelude/Lists.antt =====
-- Lists measured by native numbers, under the library's names, and predicates by recursion.
use Prim.Native.Nat.{ℕ, zero, suc, ◌+◌, ◌-◌, ◌≤◌, min}
use mathlib.Core.Path.{◌≡◌, refl, ap, subst}
use mathlib.Core.Option.{Option, none, some}
use mathlib.Core.List.{List, [], ◌∷◌, ◌++◌, map, Perm, perm_middle}
use mathlib.Core.List.Perm
use native.Mathlib.Omega.{arith}

module _ {ℓ} {A : Type ℓ} where
  abbrev pub length : List A → ℕ
  length [] = 0
  length (x ∷ xs) = suc (length xs)

  abbrev pub take : ℕ → List A → List A
  take zero xs = []
  take (suc n) [] = []
  take (suc n) (x ∷ xs) = x ∷ take n xs

  abbrev pub drop : ℕ → List A → List A
  drop zero xs = xs
  drop (suc n) [] = []
  drop (suc n) (x ∷ xs) = drop n xs

  abbrev pub get_or : List A → ℕ → A → A
  get_or [] i d = d
  get_or (x ∷ xs) zero d = x
  get_or (x ∷ xs) (suc i) d = get_or xs i d

  abbrev pub replicate : ℕ → A → List A
  replicate zero a = []
  replicate (suc n) a = a ∷ replicate n a

  -- The item at a place, and the list with another item there.
  abbrev pub get_at : ℕ → List A → Option A
  get_at i [] = none
  get_at zero (x ∷ xs) = some x
  get_at (suc i) (x ∷ xs) = get_at i xs

  abbrev pub put_at : ℕ → A → List A → List A
  put_at i y [] = []
  put_at zero y (x ∷ xs) = y ∷ xs
  put_at (suc i) y (x ∷ xs) = x ∷ put_at i y xs

  -- The item at a place, if there is one, and the others.
  abbrev pub pull : ℕ → List A → Option A × List A
  pull i [] = (none, [])
  pull zero (x ∷ xs) = (some x, xs)
  pull (suc i) (x ∷ xs) = let (o, rest) = pull i xs in (o, x ∷ rest)

  -- An item put back before the others.
  abbrev pub hold : Option A → List A → List A
  hold none xs = xs
  hold (some x) xs = x ∷ xs

  pub pull-perm : (i : ℕ) (xs : List A) → Perm (hold (pull i xs).0 (pull i xs).1) xs
  pull-perm i [] = Perm.refl []
  pull-perm zero (x ∷ xs) = Perm.refl (x ∷ xs)
  pull-perm (suc i) (x ∷ xs) = moved (pull i xs).0 (pull-perm i xs)
    where
      moved :
          (o : Option A)
          → Perm (hold o (pull i xs).1) xs
          → Perm (hold o (x ∷ (pull i xs).1)) (x ∷ xs)
      moved none h = Perm.append_left (x ∷ []) h
      moved (some y) h =
          Perm.trans (Perm.symm (perm_middle (x ∷ []) (pull i xs).1)) (Perm.append_left (x ∷ []) h)

  pub length-append : (xs ys : List A) → length (xs ++ ys) ≡ length xs + length ys
  length-append [] ys = omega arith
  length-append (x ∷ xs) ys = omega (arith, length-append xs ys)

  pub length-take : (n : ℕ) (xs : List A) → length (take n xs) ≡ min n (length xs)
  length-take zero xs = omega arith
  length-take (suc n) [] = omega arith
  length-take (suc n) (x ∷ xs) = omega (arith, length-take n xs)

  pub take-append : (xs ys : List A) → take (length xs) (xs ++ ys) ≡ xs
  take-append [] ys = refl
  take-append (x ∷ xs) ys = ap (λ l. x ∷ l) (take-append xs ys)

  pub drop-append : (xs ys : List A) → drop (length xs) (xs ++ ys) ≡ ys
  drop-append [] ys = refl
  drop-append (x ∷ xs) ys = drop-append xs ys

  pub take-append-drop : (n : ℕ) (xs : List A) → take n xs ++ drop n xs ≡ xs
  take-append-drop zero xs = refl
  take-append-drop (suc n) [] = refl
  take-append-drop (suc n) (x ∷ xs) = ap (λ l. x ∷ l) (take-append-drop n xs)

  pub length-drop : (n : ℕ) (xs : List A) → length (drop n xs) ≡ length xs - n
  length-drop zero xs = omega arith
  length-drop (suc n) [] = omega arith
  length-drop (suc n) (x ∷ xs) = omega (arith, length-drop n xs)

  pub length-replicate : (n : ℕ) (a : A) → length (replicate n a) ≡ n
  length-replicate zero a = refl
  length-replicate (suc n) a = ap suc (length-replicate n a)

  pub take-take_append :
      (n : ℕ) (xs ys : List A) → n ≤ length xs → take n (take n xs ++ ys) ≡ take n xs
  take-take_append zero xs ys h = refl
  take-take_append (suc n) [] ys h = absurd (omega arith)
  take-take_append (suc n) (x ∷ xs) ys h = ap (λ l. x ∷ l) (take-take_append n xs ys (omega arith))

  pub take-all : (n : ℕ) (xs : List A) → length xs ≤ n → take n xs ≡ xs
  take-all zero [] h = refl
  take-all zero (x ∷ xs) h = absurd (omega arith)
  take-all (suc n) [] h = refl
  take-all (suc n) (x ∷ xs) h = ap (λ l. x ∷ l) (take-all n xs (omega arith))

  abbrev pub All {κ} : (A → Type κ) → List A → Type κ
  All P [] = Unit
  All P (x ∷ xs) = P x × All P xs

  pub All-append {κ} : (P : A → Type κ) (xs ys : List A) → All P xs → All P ys → All P (xs ++ ys)
  All-append P [] ys h k = k
  All-append P (x ∷ xs) ys h k = (h.0, All-append P xs ys h.1 k)

  pub All-map {κ μ} :
      (P : A → Type κ) (Q : A → Type μ) (xs : List A) → ((a : A) → P a → Q a) → All P xs → All Q xs
  All-map P Q [] f h = tt
  All-map P Q (x ∷ xs) f h = (f x h.0, All-map P Q xs f h.1)

  pub All-and {κ μ} :
      (P : A → Type κ) (Q : A → Type μ) (xs : List A)
      → All P xs
      → All Q xs
      → All (λ a. P a × Q a) xs
  All-and P Q [] h k = tt
  All-and P Q (x ∷ xs) h k = ((h.0, k.0), All-and P Q xs h.1 k.1)

  module _ {κ} (P : A → Type κ) where
    pub All-put_at : (i : ℕ) (y : A) (xs : List A) → All P xs → P y → All P (put_at i y xs)
    All-put_at i y [] h k = tt
    All-put_at zero y (x ∷ xs) h k = (k, h.1)
    All-put_at (suc i) y (x ∷ xs) h k = (h.0, All-put_at i y xs h.1 k)

    pub All-get_at : (i : ℕ) (xs : List A) {x : A} → All P xs → get_at i xs ≡ some x → P x
    All-get_at i [] h e = absurd (cc)
    All-get_at zero (x ∷ xs) h e = subst P (cc) h.0
    All-get_at (suc i) (x ∷ xs) h e = All-get_at i xs h.1 e

  pub get_at-put_at :
      (i : ℕ) (y : A) (xs : List A) {x : A}
      → get_at i xs ≡ some x
      → get_at i (put_at i y xs) ≡ some y
  get_at-put_at i y [] e = absurd (cc)
  get_at-put_at zero y (x ∷ xs) e = refl
  get_at-put_at (suc i) y (x ∷ xs) e = get_at-put_at i y xs e

  pub get_at-put_at_other :
      (i j : ℕ) (y : A) (xs : List A) → ¬ (j ≡ i) → get_at i (put_at j y xs) ≡ get_at i xs
  get_at-put_at_other i j y [] n = refl
  get_at-put_at_other zero zero y (x ∷ xs) n = absurd (n refl)
  get_at-put_at_other zero (suc j) y (x ∷ xs) n = refl
  get_at-put_at_other (suc i) zero y (x ∷ xs) n = refl
  get_at-put_at_other (suc i) (suc j) y (x ∷ xs) n =
      get_at-put_at_other i j y xs (λ e. n (ap suc e))

  pub get_at-append :
      (i : ℕ) (xs ys : List A) {x : A} → get_at i xs ≡ some x → get_at i (xs ++ ys) ≡ some x
  get_at-append i [] ys e = absurd (cc)
  get_at-append zero (x ∷ xs) ys e = e
  get_at-append (suc i) (x ∷ xs) ys e = get_at-append i xs ys e

pub get_at-map {ℓ κ} :
    {A : Type ℓ} {B : Type κ} (f : A → B) (i : ℕ) (xs : List A) {x : A}
    → get_at i xs ≡ some x
    → get_at i (map f xs) ≡ some (f x)
get_at-map f i [] e = absurd (cc)
get_at-map f zero (x ∷ xs) e = ap (λ y. some (f y)) (cc)
get_at-map f (suc i) (x ∷ xs) e = get_at-map f i xs e
