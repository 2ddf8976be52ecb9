-- ===== src/Ipc/Framing.antt =====
-- rust/core/src/ipc.rs, the bytes of a connection: the lines that `handle_client` reads, and what `send` writes.
pub mod Conversation
use fictional_octo_spork.Prelude.{
  ℕ, ◌+◌, ◌≡◌, Bool, true, false, ◌&&◌, not, if◌then◌else◌, ◌==◌, List, [], ◌∷◌, ◌++◌, length,
}
use fictional_octo_spork.Text.{Text, Bytes}
use fictional_octo_spork.Text.Utf8.{is_utf8}
use fictional_octo_spork.Failure.{Reported, good, failed}
use fictional_octo_spork.Ipc.Messages.{Request, Status, Reply}
use fictional_octo_spork.Ipc.Client.{Round, Input, line, closed, broken}

-- No line ends in it.
abbrev pub one_line : Bytes → Bool
one_line [] = true
one_line (b ∷ bs) = not (b == b'\n') && one_line bs

-- `AsyncBufReadExt::read_line` of a fresh line, at all that the peer is going to send: how many bytes it read, the
-- line with its end, and what is left to be read.
pub record LineReader : Type 0 where
  pub read_line : Bytes → Reported (ℕ × Text) × Bytes
  pub whole_line :
      (l rest : Bytes)
      → one_line l ≡ true
      → is_utf8 l ≡ true
      → read_line (l ++ b'\n' ∷ rest) ≡ (good (length l + 1, l ++ b'\n' ∷ []), rest)

-- serde_json at the derived formats of `Request` and `Reply`, on both ends of the connection. A value is printed as an
-- object on one line, and read back from it.
pub record Json : Type 0 where
  pub from_str : Text → Reported Request
  pub to_string : Request → Text
  pub to_vec : Reply → Bytes
  pub from_slice : Bytes → Reported Reply
  pub request_back : (q : Request) → from_str (to_string q) ≡ good q
  pub request_object : (q : Request) → (m : Text) × (to_string q ≡ b'{' ∷ (m ++ b'}' ∷ []))
  pub request_line :
      (q : Request) → (one_line (to_string q) ≡ true) × (is_utf8 (to_string q) ≡ true)
  pub reply_back : (a : Reply) → from_slice (to_vec a) ≡ good a
  pub reply_line : (a : Reply) → one_line (to_vec a) ≡ true

-- What the process does meanwhile: the status that a lock of it would show, and how a write ends.
pub record Moment : Type 0 where
  pub shared_status : Status
  pub write : Reported (Unit {0})

-- `.map_err(…)?` and `if n == 0`
input_of : Reported (ℕ × Text) → Input
input_of (good (n, l)) = if n == 0 then closed else line l
input_of (failed m) = broken m

module _ (reader : LineReader) where
  -- The rounds of a connection, of the bytes that the peer sends.
  unfoldable pub rounds : List Moment → Bytes → List Round
  unfolding input_of
  rounds [] bs = []
  rounds (m ∷ ms) bs =
      let (read, rest) = reader.read_line bs in
      let round : Round = record {
        input = input_of read;
        shared_status = m.shared_status;
        write = m.write;
      } in
      round ∷ rounds ms rest

module _ (json : Json) where
  -- The bytes that `send` writes.
  unfoldable pub frame : Reply → Bytes
  frame a = json.to_vec a ++ b'\n' ∷ []

  -- The bytes of the replies that went out.
  unfoldable pub wire : List Reply → Bytes
  unfolding frame
  wire [] = []
  wire (a ∷ as') = frame a ++ wire as'
