-- ===== src/Socks/Request/Encoded.antt =====
-- What bytes make a request of the CONNECT kind: an address and a port of a length and a range that are known.
use mathlib.Core.List.{append_assoc}
use native.Mathlib.Nat.{suc-add}
use fictional_octo_spork.Prelude.{
  ℕ, zero, suc, ◌+◌, ◌*◌, ◌/◌, ◌%◌, ◌<◌, ◌≡◌, refl, sym, ap, subst, ◌∙◌, true, List, [], ◌∷◌, ◌++◌,
  length, length-take, take, get_or, All, arith,
}
use fictional_octo_spork.Text.{Bytes}
use fictional_octo_spork.Text.Utf8.{is_utf8}
use fictional_octo_spork.Failure.{ok}
use fictional_octo_spork.Net.{show_v4, show_v6}
use fictional_octo_spork.Socks.{HostPort, from_be_bytes, be_groups}
use fictional_octo_spork.Socks.Request.{
  be_bytes_back, Target, octets, domain, groups, to_be_bytes, address_bytes, understood,
}

abbrev pub IsByte : ℕ → Type 0
IsByte b = b < 256

-- The parts of a target are in the range of their types.
abbrev pub InRange : Target → Type 0
InRange (octets a b c d) = All IsByte (a ∷ b ∷ c ∷ d ∷ [])
InRange (domain host) = (length host < 256) × All IsByte host
InRange (groups a b c d e f g h) = All (λ n. n < 65536) (a ∷ b ∷ c ∷ d ∷ e ∷ f ∷ g ∷ h ∷ [])

-- Some bytes are an address and its port, before what follows them.
pub record IsRequest (sent rest : Bytes) (hp : HostPort) : Type 0 where
  pub target : Target
  pub port : ℕ
  pub in_range : InRange target
  pub port_in_range : port < 65536
  pub encoded : sent ≡ address_bytes target (to_be_bytes port rest)
  pub meant : understood target port ≡ ok hp

-- A list of a known length, by its items, which are all below a bound.
abbrev Items : ℕ → ℕ → (List ℕ → Type 0) → Type 0
Items bound zero P = P []
Items bound (suc n) P = (a : ℕ) → a < bound → Items bound n (λ l. P (a ∷ l))

by_items :
    (bound n : ℕ) (P : List ℕ → Type 0)
    → Items bound n P
    → (l : List ℕ) → length l ≡ n
    → All (λ a. a < bound) l
    → P l
by_items bound zero P k [] h b = k
by_items bound zero P k (a ∷ l) h b = absurd (omega arith)
by_items bound (suc n) P k [] h b = absurd (omega arith)
by_items bound (suc n) P k (a ∷ l) h b =
    by_items bound n (λ l. P (a ∷ l)) (k a b.0) l (omega arith) b.1

pub All-left {ℓ} : {A : Type ℓ} (P : A → Type 0) (xs ys : List A) → All P (xs ++ ys) → All P xs
All-left P [] ys h = tt
All-left P (x ∷ xs) ys h = (h.0, All-left P xs ys h.1)

pub All-right {ℓ} : {A : Type ℓ} (P : A → Type 0) (xs ys : List A) → All P (xs ++ ys) → All P ys
All-right P [] ys h = h
All-right P (x ∷ xs) ys h = All-right P xs ys h.1

-- Two bytes are those of their number, which takes 16 bits.
be_bytes_of :
    (hi lo : ℕ) (rest : Bytes)
    → hi < 256
    → lo < 256
    → to_be_bytes (from_be_bytes hi lo) rest ≡ hi ∷ lo ∷ rest
be_bytes_of hi lo rest h l =
    let q : (hi * 256 + lo) / 256 ≡ hi = omega arith in
    let r : (hi * 256 + lo) % 256 ≡ lo = omega arith in rw q (rw r refl)

from_be_bytes-lt : (hi lo : ℕ) → hi < 256 → lo < 256 → from_be_bytes hi lo < 65536
from_be_bytes-lt hi lo h l = omega arith

abbrev pub v4_of : Bytes → HostPort
v4_of bs =
    let at = λ (i : ℕ). get_or bs i 0 in
    record { host = show_v4 (at 0) (at 1) (at 2) (at 3); port = from_be_bytes (at 4) (at 5) }

pub v4_IsRequest :
    (rest bs : Bytes)
    → length bs ≡ 6
    → All IsByte bs
    → IsRequest (0x01 ∷ (bs ++ rest)) rest (v4_of bs)
v4_IsRequest rest =
    by_items 256 6 (λ l. IsRequest (0x01 ∷ (l ++ rest)) rest (v4_of l))
      λ a a' b b' c c' d d' hi h lo l. record {
        target = octets a b c d;
        port = from_be_bytes hi lo;
        in_range = (a', (b', (c', (d', tt))));
        port_in_range = from_be_bytes-lt hi lo h l;
        encoded = ap (λ t. 0x01 ∷ a ∷ b ∷ c ∷ d ∷ t) (sym (be_bytes_of hi lo rest h l));
        meant = refl;
      }

-- Groups and their bytes.
abbrev bytes_of : List ℕ → Bytes
bytes_of [] = []
bytes_of (n ∷ ns) = to_be_bytes n (bytes_of ns)

-- An even number of bytes is that of so many groups.
groups_of :
    (n : ℕ) (bs : Bytes)
    → length bs ≡ n + n
    → All IsByte bs
    → (ns : List ℕ) × (length ns ≡ n) × All (λ a. a < 65536) ns × (bs ≡ bytes_of ns)
groups_of zero [] h b = ([], refl, tt, refl)
groups_of zero (x ∷ bs) h b = absurd (omega arith)
groups_of (suc n) [] h b = absurd (omega arith)
groups_of (suc n) (x ∷ []) h b = absurd (omega arith)
groups_of (suc n) (x ∷ y ∷ bs) h b =
    let (ns, l, r, e) = groups_of n bs (omega arith) b.1.1 in
    (
      from_be_bytes x y ∷ ns,
      ap suc l,
      (from_be_bytes-lt x y b.0 b.1.0, r),
      ap (λ t. x ∷ y ∷ t) e ∙ sym (be_bytes_of x y (bytes_of ns) b.0 b.1.0),
    )

abbrev pub v6_of : Bytes → HostPort
v6_of bs = record {
  host = show_v6 (be_groups (take 16 bs));
  port = from_be_bytes (get_or bs 16 0) (get_or bs 17 0);
}

v6_groups :
    (rest : Bytes) (ns : List ℕ)
    → length ns ≡ 9
    → All (λ a. a < 65536) ns
    → IsRequest (0x04 ∷ (bytes_of ns ++ rest)) rest (v6_of (bytes_of ns))
unfolding be_groups
v6_groups rest =
    by_items 65536 9 (λ l. IsRequest (0x04 ∷ (bytes_of l ++ rest)) rest (v6_of (bytes_of l)))
      λ a a' b b' c c' d d' e e' f f' g g' h h' p p'. record {
        target = groups a b c d e f g h;
        port = p;
        in_range = (a', (b', (c', (d', (e', (f', (g', (h', tt))))))));
        port_in_range = p';
        encoded = refl;
        meant = simp be_bytes_back;
      }

pub v6_IsRequest :
    (rest bs : Bytes)
    → length bs ≡ 18
    → All IsByte bs
    → IsRequest (0x04 ∷ (bs ++ rest)) rest (v6_of bs)
v6_IsRequest rest bs h b =
    let (ns, l, r, e) = groups_of 9 bs h b in
    subst (λ t. IsRequest (0x04 ∷ (t ++ rest)) rest (v6_of t)) (sym e) (v6_groups rest ns l r)

-- All but the last two bytes, and these.
but_two :
    (n : ℕ) (bs : Bytes)
    → length bs ≡ n + 2
    → bs ≡ take n bs ++ get_or bs n 0 ∷ get_or bs (n + 1) 0 ∷ []
but_two zero [] h = absurd (omega arith)
but_two zero (a ∷ []) h = absurd (omega arith)
but_two zero (a ∷ b ∷ []) h = refl
but_two zero (a ∷ b ∷ c ∷ bs) h = absurd (omega arith)
but_two (suc n) [] h = absurd (omega arith)
but_two (suc n) (a ∷ bs) h = rw suc-add (ap (λ l. a ∷ l) (but_two n bs (omega arith)))

abbrev pub named : ℕ → Bytes → HostPort
named n bs = record { host = take n bs; port = from_be_bytes (get_or bs n 0) (get_or bs (n + 1) 0) }

pub domain_IsRequest :
    (rest bs : Bytes) (n : ℕ)
    → IsByte n
    → length bs ≡ n + 2
    → All IsByte bs
    → is_utf8 (take n bs) ≡ true
    → IsRequest (0x03 ∷ n ∷ (bs ++ rest)) rest (named n bs)
domain_IsRequest rest bs n byte h b utf8 =
    let host = take n bs in
    let hi = get_or bs n 0 in
    let lo = get_or bs (n + 1) 0 in
    let parts = subst (λ l. All IsByte l) (but_two n bs h) b in
    let (hi_byte, (lo_byte, _)) = All-right IsByte host (hi ∷ lo ∷ []) parts in
    let same_length : length host ≡ n = omega (arith, length-take n bs) in
    record {
      target = domain host;
      port = from_be_bytes hi lo;
      in_range = (omega (arith, same_length), All-left IsByte host (hi ∷ lo ∷ []) parts);
      port_in_range = from_be_bytes-lt hi lo hi_byte lo_byte;
      encoded =
          ap (λ l. 0x03 ∷ n ∷ (l ++ rest)) (but_two n bs h)
          ∙ ap (λ t. 0x03 ∷ n ∷ t) (append_assoc host (hi ∷ lo ∷ []) rest)
          ∙ ap (λ m. 0x03 ∷ m ∷ (host ++ hi ∷ lo ∷ rest)) (sym same_length)
          ∙ ap (λ t. 0x03 ∷ length host ∷ (host ++ t))
              (sym (be_bytes_of hi lo rest hi_byte lo_byte));
      meant = rw utf8 refl;
    }

pub four_bytes :
    (bs : Bytes)
    → length bs ≡ 4
    → All IsByte bs
    → bs ≡ get_or bs 0 0 ∷ get_or bs 1 0 ∷ get_or bs 2 0 ∷ get_or bs 3 0 ∷ []
four_bytes =
    by_items 256 4 (λ l. l ≡ get_or l 0 0 ∷ get_or l 1 0 ∷ get_or l 2 0 ∷ get_or l 3 0 ∷ [])
      λ a _ b _ c _ d _. refl
