-- ===== src/Util.antt =====
-- rust/core/src/util.rs: local ports, random passwords, constant-time comparison and the guard that
-- closes a file descriptor.
pub mod Outside
pub mod Compare
pub mod Password
use fictional_octo_spork.Prelude.{
  ℕ, zero, suc, ◌+◌, ◌==◌, if◌then◌else◌, Bool, true, false, List, [], ◌∷◌, length, get_or, bit_or,
  bit_xor, ℤ, is_negative, Option, none, some, ◌++◌,
}
use fictional_octo_spork.Text.{Bytes, Text, text}
use fictional_octo_spork.Failure.{Result, ok, err, io, map_err}
use Outside.{Rng, Net}

-- The loop `for (x, y) in a.iter().zip(b.iter()) { diff |= x ^ y; }`.
differences : ℕ → Bytes → Bytes → ℕ
differences diff (x ∷ a) (y ∷ b) = differences (bit_or diff (bit_xor x y)) a b
differences diff _ _ = diff

-- `ct_eq`. On bytes `|` and `^` stay below 256, so the `u8` never wraps.
unfoldable pub ct_eq : Bytes → Bytes → Bool
unfolding differences
ct_eq a b = if length a == length b then differences 0 a b == 0 else false

-- `CHARSET`
unfoldable pub charset : Bytes
unfolding text
charset = text "ABCDEFGHIJKLMNOPQRSTUVWXYZabcdefghijklmnopqrstuvwxyz0123456789"

-- `random_password`: `k` counts the numbers drawn so far, and each character draws one.
unfoldable pub random_password : Rng → ℕ → ℕ → Text
random_password rng k zero = []
random_password rng k (suc n) =
    get_or charset (rng.draw k (length charset)) 0 ∷ random_password rng (k + 1) n

-- `random_username`
unfoldable pub random_username : Rng → ℕ → ℕ → Text
random_username = random_password

-- `random_local_port`: the listener is dropped, so only the number that the `k`-th bind got is left.
unfoldable pub random_local_port : Net → ℕ → Result ℕ
random_local_port net k = map_err io (net.bind_local k)

-- `FdGuard` on unix
pub record FdGuard : Type 0 where
  pub fd : Option ℤ

-- `FdGuard::new`
unfoldable pub arm : ℤ → FdGuard
arm fd = record { fd = if is_negative fd then none else some fd }

-- `FdGuard::disarm`; what is left of the guard is then dropped
unfoldable pub disarm : FdGuard → FdGuard
disarm g = record { fd = none }

-- `Drop for FdGuard`: the descriptors closed so far, newest last
unfoldable pub drop_guard : FdGuard → List ℤ → List ℤ
drop_guard g closed = elim g.fd [ none ↦ closed | some fd ↦ closed ++ fd ∷ [] ]
