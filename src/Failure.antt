-- ===== src/Failure.antt =====
-- rust/core/src/error.rs: the error of every fallible operation, and `Result`. The errors of other
-- crates that `Io`, `Json` and `Http` wrap are kept as the text that they print.
use fictional_octo_spork.Prelude.{◌≡◌, refl, Option, none, some, ◌++◌, Bool, true, false}
use fictional_octo_spork.Text.{Text, text}

pub data Error : Type 0 where
  already_running not_running cancelled : Error
  invalid_config io json http leaf arti dns ipc other : Text → Error

-- `#[error("…")]`
unfoldable pub display : Error → Text
display already_running = text "VPN engine is already running"
display not_running = text "VPN engine is not running"
display (invalid_config m) = text "invalid configuration: " ++ m
display (io m) = text "io error: " ++ m
display (json m) = text "json error: " ++ m
display (http m) = text "http error: " ++ m
display (leaf m) = text "leaf error: " ++ m
display (arti m) = text "arti error: " ++ m
display (dns m) = text "dns error: " ++ m
display (ipc m) = text "ipc error: " ++ m
display cancelled = text "cancelled"
display (other m) = m

-- `impl From<reqwest::Error> for Error`
abbrev pub from_reqwest : Text → Error
from_reqwest = http

pub data Result {ℓ} (A : Type ℓ) : Type ℓ where
  err : Error → Result A
  ok : A → Result A

-- The `?` operator.
infixl 5 ◌>>=◌
abbrev pub ◌>>=◌ {κ ℓ} : {B : Type κ} {A : Type ℓ} → Result A → (A → Result B) → Result B
err why >>= next = err why
ok a >>= next = next a

-- `Option::ok_or_else`
abbrev pub ok_or {ℓ} : {A : Type ℓ} → Option A → Error → Result A
ok_or none e = err e
ok_or (some a) e = ok a

infixl 5 ◌>>◌
abbrev pub ◌>>◌ {κ} : {B : Type κ} → Result (Unit {0}) → Result B → Result B
first >> second = first >>= λ done. second

-- `if !b { return Err(e) }`
abbrev pub ensure : Bool → Error → Result (Unit {0})
ensure true e = ok tt
ensure false e = err e

-- `Result::map_err`, at what a library reports as a text
pub data Reported {ℓ} (A : Type ℓ) : Type ℓ where
  good : A → Reported A
  failed : Text → Reported A

abbrev pub map_err {ℓ} : {A : Type ℓ} → (Text → Error) → Reported A → Result A
map_err f (good a) = ok a
map_err f (failed m) = err (f m)

-- What a chain that succeeded went through, a step at a time.
module _ {ℓ κ} {B : Type ℓ} {b : B} {P : Type κ} where
  pub from_bind {μ} :
      {A : Type μ} (m : Result A) (f : A → Result B)
      → (m >>= f) ≡ ok b
      → ((a : A) → m ≡ ok a → f a ≡ ok b → P)
      → P
  from_bind (ok a) f h k = k a refl h
  from_bind (err e) f h k = absurd (cc)

  pub from_ok_or {μ} :
      {A : Type μ} (o : Option A) (e : Error) (f : A → Result B)
      → (ok_or o e >>= f) ≡ ok b
      → ((a : A) → o ≡ some a → f a ≡ ok b → P)
      → P
  from_ok_or none e f h k = absurd (cc)
  from_ok_or (some a) e f h k = k a refl h

  pub from_ensure :
      (t : Bool) (e : Error) (f : Unit {0} → Result B)
      → (ensure t e >>= f) ≡ ok b
      → (t ≡ true → f tt ≡ ok b → P)
      → P
  from_ensure true e f h k = k refl h
  from_ensure false e f h k = absurd (cc)

pub map_err-eq-ok {ℓ} :
    {A : Type ℓ} (f : Text → Error) (r : Reported A) {a : A} → map_err f r ≡ ok a → r ≡ good a
map_err-eq-ok f (good a) h = cc
map_err-eq-ok f (failed m) h = absurd (cc)

pub ok-inj {ℓ} : {A : Type ℓ} {a b : A} → ◌≡◌ {A = Result A} (ok a) (ok b) → a ≡ b
ok-inj h = cc
