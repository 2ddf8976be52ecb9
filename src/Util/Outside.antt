-- ===== src/Util/Outside.antt =====
-- What the operating system and the `rand` crate give: parameters of the model.
use fictional_octo_spork.Prelude.{ℕ, ◌<◌}
use fictional_octo_spork.Failure.{Reported}

-- `rand::rng().random_range(0..n)`: `draw k n` is the answer to the `k`-th call.
pub record Rng : Type 0 where
  pub draw : ℕ → ℕ → ℕ
  pub draw-lt : (k n : ℕ) → 0 < n → draw k n < n

-- `TcpListener::bind(("127.0.0.1", 0))?.local_addr()?.port()`: the answer to the `k`-th call.
pub record Net : Type 0 where
  pub bind_local : ℕ → Reported ℕ
