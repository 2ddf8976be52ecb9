-- ===== src/Ipc/Token.antt =====
-- The process-wide auth token: `AUTH_TOKEN`, a cell that is filled on first use.
use fictional_octo_spork.Prelude.{ℕ, ◌+◌, ◌≡◌, refl, Option, none, some, true, length, All, arith}
use fictional_octo_spork.Text.{Text}
use fictional_octo_spork.Util.{random_password}
use fictional_octo_spork.Util.Outside.{Rng}
use fictional_octo_spork.Util.Password.{is_alphanumeric, random_password-alphanumeric}

-- The cell, and how many random numbers have been drawn.
pub record TokenCell : Type 0 where
  pub token : Option Text
  pub draws : ℕ

abbrev token_length : ℕ
token_length = 32

module _ (rng : Rng) where
  -- `AUTH_TOKEN.get_or_init(…)`, and the token that is then in it
  pub get_or_init : TokenCell → Text × TokenCell
  get_or_init s = elim s.token [
    | some t ↦ (t, s)
    | none ↦
        let t = random_password rng s.draws token_length in
        (t, record { token = some t; draws = s.draws + token_length })
  ]

  pub current_auth_token : TokenCell → Text × TokenCell
  unfolding get_or_init
  current_auth_token s = get_or_init s

  pub rotate_auth_token : TokenCell → Text × TokenCell
  unfolding get_or_init
  rotate_auth_token s =
      let (_, filled) = get_or_init s in
      let new_token = random_password rng filled.draws token_length in
      (new_token, record { token = some new_token; draws = filled.draws + token_length })

  -- Until the next rotation every reader of the token gets the one that the rotation returned, and
  -- reading it changes nothing.
  pub current-rotate :
      (s : TokenCell) → current_auth_token (rotate_auth_token s).1 ≡ rotate_auth_token s
  unfolding current_auth_token rotate_auth_token
  current-rotate s = ground arith

  -- A token that is there is the one that every reader gets.
  pub current_auth_token-some :
      (s : TokenCell) {t : Text} → s.token ≡ some t → current_auth_token s ≡ (t, s)
  unfolding current_auth_token get_or_init
  current_auth_token-some s h = ground arith

  pub rotate_auth_token-some :
      (s : TokenCell) → (rotate_auth_token s).1.token ≡ some (rotate_auth_token s).0
  unfolding rotate_auth_token
  rotate_auth_token-some s = refl

  abbrev pub IsToken : Text → Type 0
  IsToken t = (length t ≡ 32) × All (λ c. is_alphanumeric c ≡ true) t

  -- A password of that length is 32 ASCII letters or digits, whatever is drawn.
  drawn-IsToken : (k : ℕ) → IsToken (random_password rng k token_length)
  drawn-IsToken k = random_password-alphanumeric rng k token_length

  -- What a cell holds, if it holds anything, is a token.
  abbrev pub HoldsToken : TokenCell → Type 0
  HoldsToken s = elim s.token [ none ↦ Unit | some t ↦ IsToken t ]

  get_or_init-HoldsToken :
      (s : TokenCell) → HoldsToken s → HoldsToken (get_or_init s).1 × IsToken (get_or_init s).0
  unfolding get_or_init
  get_or_init-HoldsToken s h = go s.token s.draws h
    where
      go :
          (o : Option Text) (k : ℕ)
          → HoldsToken (record { token = o; draws = k })
          → let r = get_or_init (record { token = o; draws = k }) in HoldsToken r.1 × IsToken r.0
      go none k h = (drawn-IsToken k, drawn-IsToken k)
      go (some t) k h = (h, h)

  -- If what the cell holds, where it holds anything, is 32 ASCII letters or digits, then reading the token, on first
  -- use or later, and rotating it both answer with 32 ASCII letters or digits and leave such a token in the cell.
  pub tokens_well_formed :
      (s : TokenCell)
      → HoldsToken s
      → HoldsToken (current_auth_token s).1
        × IsToken (current_auth_token s).0
        × HoldsToken (rotate_auth_token s).1
        × IsToken (rotate_auth_token s).0
  unfolding current_auth_token rotate_auth_token
  tokens_well_formed s h =
      let (held, is) = get_or_init-HoldsToken s h in (held, is, drawn-IsToken _, drawn-IsToken _)
