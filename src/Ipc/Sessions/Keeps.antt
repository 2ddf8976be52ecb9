-- ===== src/Ipc/Sessions/Keeps.antt =====
-- rust/core/src/ipc.rs: what the clients of a server leave alone.
use fictional_octo_spork.Prelude.{
  ℕ, zero, suc, ◌≡◌, ◌⊎◌, inl, inr, refl, ap, Bool, true, false, ◌||◌, if◌then◌else◌, Option, none,
  some, List, [], ◌∷◌, ◌++◌, length, put_at,
}
use fictional_octo_spork.Text.{Text}
use fictional_octo_spork.Failure.{Reported}
use fictional_octo_spork.Util.Outside.{Rng}
use fictional_octo_spork.Ipc.Messages.{Request}
use fictional_octo_spork.Ipc.Client.{Round, Ending, waiting, until_cancelled, returned}
use fictional_octo_spork.Ipc.Sessions.{
  Talk, Session, spawned, talks, Event, accepted, accept_error, loop_wakes, begins, speaks, wakes,
  cancels, starts, closes, Ipc, begin, speak, speak_at, wake, wake_at, step, is_shared,
}

length-put_at : (i : ℕ) (y : Session) (xs : List Session) → length (put_at i y xs) ≡ length xs
length-put_at i y [] = refl
length-put_at zero y (x ∷ xs) = refl
length-put_at (suc i) y (x ∷ xs) = ap suc (length-put_at i y xs)

-- The socket is left alone, its file at least unless it is shared with another start; a cancelled token stays so, and a
-- loop that has ended takes nobody on.
pub record Keeps (shared : Bool) (s s' : Ipc) : Type 0 where
  pub same_ended : s'.ended ≡ s.ended
  pub same_listening : s'.server.listening ≡ s.server.listening
  pub same_mode : (shared ≡ true) ⊎ (s'.server.socket_mode ≡ s.server.socket_mode)
  pub same_removal : s'.removal ≡ s.removal
  pub stays_cancelled : (s.cancelled ≡ false) ⊎ (s'.cancelled ≡ true)
  pub same_length : (s.ended ≡ false) ⊎ (length s'.sessions ≡ length s.sessions)

itself : (b : Bool) → (b ≡ false) ⊎ (b ≡ true)
itself true = inr refl
itself false = inl refl

Keeps-refl : (s : Ipc) → Keeps false s s
Keeps-refl s = record {
  same_ended = refl;
  same_listening = refl;
  same_mode = inr refl;
  same_removal = refl;
  stays_cancelled = itself s.cancelled;
  same_length = inr refl;
}

or_true : (b c : Bool) → (b ≡ false) ⊎ (b || c ≡ true)
or_true true c = inr refl
or_true false c = inl refl

Keeps-if :
    (s : Ipc) (b : Bool) (x y : Ipc)
    → Keeps false s x
    → Keeps false s y
    → Keeps false s (if b then x else y)
Keeps-if s true x y h k = h
Keeps-if s false x y h k = k

module _ (rng : Rng) (decode : Text → Reported Request) (s : Ipc) where
  begin-Keeps : (i : ℕ) (o : Option Session) → Keeps false s (begin rng i o s)
  unfolding begin
  begin-Keeps i none = Keeps-refl s
  begin-Keeps i (some (talks t)) = Keeps-refl s
  begin-Keeps i (some spawned) = record {
    same_ended = refl;
    same_listening = refl;
    same_mode = inr refl;
    same_removal = refl;
    stays_cancelled = itself s.cancelled;
    same_length = inr (length-put_at i _ s.sessions);
  }

  speak-Keeps : (i : ℕ) (r : Round) (t : Talk) (e : Ending) → Keeps false s (speak decode i r t e s)
  unfolding speak
  speak-Keeps i r t until_cancelled = Keeps-refl s
  speak-Keeps i r t (returned x) = Keeps-refl s
  speak-Keeps i r t waiting = record {
    same_ended = refl;
    same_listening = refl;
    same_mode = inr refl;
    same_removal = refl;
    stays_cancelled = or_true s.cancelled _;
    same_length = inr (length-put_at i _ s.sessions);
  }

  speak_at-Keeps :
      (i : ℕ) (r : Round) (o : Option Session) → Keeps false s (speak_at decode i r o s)
  unfolding speak_at
  speak_at-Keeps i r none = Keeps-refl s
  speak_at-Keeps i r (some spawned) = Keeps-refl s
  speak_at-Keeps i r (some (talks t)) = speak-Keeps i r t t.ending

  wake-Keeps : (i : ℕ) (t : Talk) (e : Ending) → Keeps false s (wake i t e s)
  unfolding wake
  wake-Keeps i t waiting = Keeps-refl s
  wake-Keeps i t (returned x) = Keeps-refl s
  wake-Keeps i t until_cancelled =
      Keeps-if s s.cancelled _ s
        (record {
          same_ended = refl;
          same_listening = refl;
          same_mode = inr refl;
          same_removal = refl;
          stays_cancelled = itself s.cancelled;
          same_length = inr (length-put_at i _ s.sessions);
        })
        (Keeps-refl s)

  wake_at-Keeps : (i : ℕ) (o : Option Session) → Keeps false s (wake_at i o s)
  unfolding wake_at
  wake_at-Keeps i none = Keeps-refl s
  wake_at-Keeps i (some spawned) = Keeps-refl s
  wake_at-Keeps i (some (talks t)) = wake-Keeps i t t.ending

accept-Keeps :
    (s : Ipc) (b : Bool)
    → s.ended ≡ b
    → Keeps false s (if b then s else record s { sessions = s.sessions ++ spawned ∷ [] })
accept-Keeps s true e = Keeps-refl s
accept-Keeps s false e = record {
  same_ended = refl;
  same_listening = refl;
  same_mode = inr refl;
  same_removal = refl;
  stays_cancelled = itself s.cancelled;
  same_length = inl e;
}

-- Every event leaves the socket alone, or is the loop's.
pub step-Keeps :
    (rng : Rng) (decode : Text → Reported Request) (e : Event) (s : Ipc)
    → Keeps (is_shared e) s (step rng decode e s) ⊎ (e ≡ loop_wakes)
unfolding step is_shared
step-Keeps rng decode accepted s = inl (accept-Keeps s s.ended refl)
step-Keeps rng decode (accept_error m) s = inl (Keeps-refl s)
step-Keeps rng decode loop_wakes s = inr refl
step-Keeps rng decode (begins i) s = inl (begin-Keeps rng decode s i _)
step-Keeps rng decode (speaks i r) s = inl (speak_at-Keeps rng decode s i r _)
step-Keeps rng decode (wakes i) s = inl (wake_at-Keeps rng decode s i _)
step-Keeps rng decode cancels s = inl (record {
  same_ended = refl;
  same_listening = refl;
  same_mode = inr refl;
  same_removal = refl;
  stays_cancelled = inr refl;
  same_length = inr refl;
})
step-Keeps rng decode (starts o) s = inl (record {
  same_ended = refl;
  same_listening = refl;
  same_mode = inl refl;
  same_removal = refl;
  stays_cancelled = itself s.cancelled;
  same_length = inr refl;
})
step-Keeps rng decode (closes r) s = inl (record {
  same_ended = refl;
  same_listening = refl;
  same_mode = inl refl;
  same_removal = refl;
  stays_cancelled = itself s.cancelled;
  same_length = inr refl;
})
