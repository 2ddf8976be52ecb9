-- ===== src/Socks/Laws.antt =====
-- The reads and writes of a stream, forwards and backwards.
use fictional_octo_spork.Prelude.{
  ℕ, suc, ◌≡◌, refl, ◌++◌, [], ◌∷◌, length, take-append, drop-append, take-append-drop,
  length-append, length-take, arith, ltb, if◌then◌else◌, get_or, Bool, true, false, Bool-cases, inl,
  inr,
}
use fictional_octo_spork.Text.{Bytes, Text}
use fictional_octo_spork.Failure.{ok, ensure, Error}
use fictional_octo_spork.Action.{Action, after, after-eq-ok}
use fictional_octo_spork.Socks.Stream.{Conn, conn, read_exact, read_u8, write_all}

module _ (xs rest out : Bytes) (n : ℕ) (rf wf : Text) where
  -- A read of what the peer has sent gets it, and leaves the rest.
  pub read_exact_lem :
      read_exact (length xs) (conn (xs ++ rest) out n rf wf) ≡ (ok xs, conn rest out n rf wf)
  unfolding read_exact
  read_exact_lem =
      rw (take-append xs rest, drop-append xs rest) (ground (arith, length-append xs rest))

  pub write_all_lem :
      write_all xs (conn rest out (suc n) rf wf) ≡ (ok tt, conn rest (out ++ xs) n rf wf)
  unfolding write_all
  write_all_lem = refl

pub read_u8_lem :
    (b : ℕ) (rest out : Bytes) (n : ℕ) (rf wf : Text)
    → read_u8 (conn (b ∷ rest) out n rf wf) ≡ (ok b, conn rest out n rf wf)
unfolding read_u8
read_u8_lem b rest out n rf wf = rw (read_exact_lem (b ∷ []) rest out n rf wf) refl

pub ruleset stream_laws = (read_exact_lem, read_u8_lem, write_all_lem)

-- A read that succeeded got so many bytes, which were the next ones, and wrote nothing.
pub record HasRead (n : ℕ) (c : Conn) (bs : Bytes) (c' : Conn) : Type 0 where
  pub was_next : c.input ≡ bs ++ c'.input
  pub length_read : length bs ≡ n
  pub same_output : c'.output ≡ c.output

pub read_exact-HasRead :
    (n : ℕ) (c : Conn) {bs : Bytes} {c' : Conn} → read_exact n c ≡ (ok bs, c') → HasRead n c bs c'
unfolding read_exact
read_exact-HasRead n c h = elim (Bool-cases (ltb (length c.input) n)) [
  | inl short ↦ ground arith
  | inr enough ↦ record {
    was_next = ground (arith, take-append-drop n c.input);
    length_read = ground (arith, length-take n c.input);
    same_output = ground arith;
  }
]

pub two_bytes : (bs : Bytes) → length bs ≡ 2 → bs ≡ get_or bs 0 0 ∷ get_or bs 1 0 ∷ []
two_bytes [] l = absurd (omega arith)
two_bytes (a ∷ []) l = absurd (omega arith)
two_bytes (a ∷ b ∷ []) l = refl
two_bytes (a ∷ b ∷ c ∷ bs) l = absurd (omega arith)

pub record HasReadByte (c : Conn) (b : ℕ) (c' : Conn) : Type 0 where
  pub was_next : c.input ≡ b ∷ c'.input
  pub same_output : c'.output ≡ c.output

one_byte : (bs rest all : Bytes) → length bs ≡ 1 → all ≡ bs ++ rest → all ≡ get_or bs 0 0 ∷ rest
one_byte [] rest all l e = absurd (omega arith)
one_byte (b ∷ []) rest all l e = e
one_byte (b ∷ b' ∷ bs) rest all l e = absurd (omega arith)

pub read_u8-HasReadByte :
    (c : Conn) {b : ℕ} {c' : Conn} → read_u8 c ≡ (ok b, c') → HasReadByte c b c'
unfolding read_u8
read_u8-HasReadByte c h =
    let (bs, c1, got, e) = after-eq-ok (read_exact 1 c) _ h in
    let r = read_exact-HasRead 1 c got in
    record {
      was_next = ground (arith, one_byte bs c1.input c.input r.length_read r.was_next);
      same_output = ground (arith, r.same_output);
    }

pub record HasWritten (bs : Bytes) (c c' : Conn) : Type 0 where
  pub same_input : c'.input ≡ c.input
  pub appended : c'.output ≡ c.output ++ bs

pub write_all-HasWritten :
    (bs : Bytes) (c : Conn) {c' : Conn} → write_all bs c ≡ (ok tt, c') → HasWritten bs c c'
unfolding write_all
write_all-HasWritten bs c h = ground arith

-- Backwards through a sequence that succeeded, a step at a time.
module _ {B : Type 0} {b : B} {c' : Conn} {P : Type 0} (c : Conn) where
  pub from_read_u8 :
      (f : ℕ → Action Conn B)
      → after (read_u8 c) f ≡ (ok b, c')
      → ((x : ℕ) (d : Conn) → HasReadByte c x d → f x d ≡ (ok b, c') → P)
      → P
  from_read_u8 f h k =
      let (x, d, got, e) = after-eq-ok (read_u8 c) f h in k x d (read_u8-HasReadByte c got) e

  pub from_read_exact :
      (n : ℕ) (f : Bytes → Action Conn B)
      → after (read_exact n c) f ≡ (ok b, c')
      → ((bs : Bytes) (d : Conn) → HasRead n c bs d → f bs d ≡ (ok b, c') → P)
      → P
  from_read_exact n f h k =
      let (bs, d, got, e) = after-eq-ok (read_exact n c) f h in
      k bs d (read_exact-HasRead n c got) e

  pub from_write_all :
      (bs : Bytes) (f : Unit {0} → Action Conn B)
      → after (write_all bs c) f ≡ (ok b, c')
      → ((d : Conn) → HasWritten bs c d → f tt d ≡ (ok b, c') → P)
      → P
  from_write_all bs f h k =
      let (t, d, got, e) = after-eq-ok (write_all bs c) f h in k d (write_all-HasWritten bs c got) e

  pub from_if :
      (t : Bool) (m n : Action Conn B)
      → (if t then m else n) c ≡ (ok b, c')
      → (t ≡ true → m c ≡ (ok b, c') → P)
      → (t ≡ false → n c ≡ (ok b, c') → P)
      → P
  from_if true m n h yes_case no_case = yes_case refl h
  from_if false m n h yes_case no_case = no_case refl h

  -- A guard that passed held, and changed nothing.
  pub from_ensure :
      (t : Bool) (e : Error) (f : Unit {0} → Action Conn B)
      → after (ensure t e, c) f ≡ (ok b, c')
      → (t ≡ true → f tt c ≡ (ok b, c') → P)
      → P
  from_ensure true e f h k = k refl h
  from_ensure false e f h k = absurd (cc)
