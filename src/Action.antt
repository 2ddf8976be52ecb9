-- ===== src/Action.antt =====
-- An operation that changes a state and may fail. What was done before the failure stays done, so
-- the state comes back beside the error.
use fictional_octo_spork.Prelude.{◌≡◌, ◌⊎◌, inl, inr, refl}
use fictional_octo_spork.Failure.{Error, Result, ok, err}

abbrev pub Action {ℓ} : Type 0 → Type ℓ → Type ℓ
Action S A = S → Result A × S

abbrev pub after {ℓ κ} :
    {S : Type 0} {A : Type ℓ} {B : Type κ} → Result A × S → (A → Action S B) → Result B × S
after (ok a, s) f = f a s
after (err e, s) f = (err e, s)

infixl 5 ◌>>=◌ ◌>>◌
abbrev pub ◌>>=◌ {ℓ κ} :
    {S : Type 0} {A : Type ℓ} {B : Type κ} → Action S A → (A → Action S B) → Action S B
◌>>=◌ m f s = after (m s) f

abbrev pub ◌>>◌ {ℓ} : {S : Type 0} {B : Type ℓ} → Action S (Unit {0}) → Action S B → Action S B
m >> k = m >>= λ _. k

abbrev pub pure {ℓ} : {S : Type 0} {A : Type ℓ} → A → Action S A
pure a s = (ok a, s)

abbrev pub raise {ℓ} : {S : Type 0} {A : Type ℓ} → Error → Action S A
raise e s = (err e, s)

abbrev pub lift {ℓ} : {S : Type 0} {A : Type ℓ} → Result A → Action S A
lift r s = (r, s)

abbrev pub modify : {S : Type 0} → (S → S) → Action S (Unit {0})
modify f s = (ok tt, f s)

-- Inversion of a sequence that succeeded.
pub after-eq-ok {ℓ κ} :
    {S : Type 0} {A : Type ℓ} {B : Type κ} (m : Result A × S) (f : A → Action S B) {b : B} {s' : S}
    → after m f ≡ (ok b, s')
    → (a : A) × (s : S) × (m ≡ (ok a, s)) × (f a s ≡ (ok b, s'))
after-eq-ok (ok a, s) f h = (a, s, refl, h)
after-eq-ok (err e, s) f h = cc

-- Inversion of a sequence that failed: at its first step, or behind it.
pub after-eq-err {ℓ κ} :
    {S : Type 0} {A : Type ℓ} {B : Type κ} (m : Result A × S) (f : A → Action S B) {e : Error}
    {s' : S}
    → after m f ≡ (err e, s')
    → (m ≡ (err e, s')) ⊎ ((a : A) × (s : S) × (m ≡ (ok a, s)) × (f a s ≡ (err e, s')))
after-eq-err (ok a, s) f h = inr (a, s, refl, h)
after-eq-err (err e, s) f h = inl cc
