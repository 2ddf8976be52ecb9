-- ===== src/Socks/Stream.antt =====
-- A TCP stream as the SOCKS5 server uses it: `read_exact`, `read_u8` and `write_all`.
use fictional_octo_spork.Prelude.{
  ℕ, zero, suc, ◌++◌, ltb, if◌then◌else◌, length, take, drop, get_or, [],
}
use fictional_octo_spork.Text.{Bytes, Text}
use fictional_octo_spork.Failure.{ok, err, io}
use fictional_octo_spork.Action.{Action, ◌>>=◌, pure}

-- `input` is what the peer sends before its end closes or breaks, and `read_failure` the error of
-- a read past it. The peer takes `accepts` more writes, and then `write_failure` is their error.
pub record Conn : Type 0 where
  pub input : Bytes
  pub output : Bytes
  pub accepts : ℕ
  pub read_failure : Text
  pub write_failure : Text

-- A stream by its fields.
abbrev pub conn : Bytes → Bytes → ℕ → Text → Text → Conn
conn input output accepts rf wf = record {
  input = input;
  output = output;
  accepts = accepts;
  read_failure = rf;
  write_failure = wf;
}

-- A read that ends early has taken what there was.
unfoldable pub read_exact : ℕ → Action Conn Bytes
read_exact n c =
    if ltb (length c.input) n
    then (err (io c.read_failure), record c { input = [] })
    else (ok (take n c.input), record c { input = drop n c.input })

unfoldable pub read_u8 : Action Conn ℕ
read_u8 = do b ← read_exact 1; pure (get_or b 0 0)

write_when : ℕ → Bytes → Action Conn (Unit {0})
write_when zero bs c = (err (io c.write_failure), c)
write_when (suc n) bs c = (ok tt, record c { output = c.output ++ bs; accepts = n })

unfoldable pub write_all : Bytes → Action Conn (Unit {0})
unfolding write_when
write_all bs c = write_when c.accepts bs c
