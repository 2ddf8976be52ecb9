-- ===== src/Ipc/Sessions/Phases.antt =====
-- rust/core/src/ipc.rs: the socket of the server while its loop runs, and after it.
use fictional_octo_spork.Prelude.{
  ℕ, ◌≡◌, ◌⊎◌, inl, inr, refl, ap, ◌∙◌, Bool, true, false, ◌&&◌, not, Bool-cases, if◌then◌else◌,
  Option, none, some, length, arith,
}
use fictional_octo_spork.Text.{Text}
use fictional_octo_spork.Failure.{Reported, good, failed}
use fictional_octo_spork.Util.Outside.{Rng}
use fictional_octo_spork.Ipc.Messages.{Request}
use fictional_octo_spork.Ipc.Server.{Server, owner_only, close_down}
use fictional_octo_spork.Ipc.Sessions.{Event, loop_wakes, Ipc, step, is_shared}
use fictional_octo_spork.Ipc.Sessions.Keeps.{Keeps, step-Keeps}

-- The permissions of the socket file behind the end of the loop, by how its removal goes.
abbrev pub mode_left : Reported (Unit {0}) → Option ℕ
mode_left (good t) = none
mode_left (failed m) = some owner_only

-- `taken` says that another start may have changed the socket file.
module _ (removal : Reported (Unit {0})) (taken : Bool) where
  -- The loop takes clients, on a socket of the owner's.
  pub record IsOpen (s : Ipc) : Type 0 where
    pub not_ended : s.ended ≡ false
    pub listens : s.server.listening ≡ true
    pub mode : (taken ≡ true) ⊎ (s.server.socket_mode ≡ some owner_only)
    pub removal_is : s.removal ≡ removal

  -- The loop is over.
  pub record IsShut (s : Ipc) : Type 0 where
    pub has_ended : s.ended ≡ true
    pub was_cancelled : s.cancelled ≡ true
    pub silent : s.server.listening ≡ false
    pub mode : (taken ≡ true) ⊎ (s.server.socket_mode ≡ mode_left removal)

  mode_still :
      {shared : Bool} {m m' m'' : Option ℕ}
      → (shared ≡ true → taken ≡ true)
      → (shared ≡ true) ⊎ (m' ≡ m)
      → (taken ≡ true) ⊎ (m ≡ m'')
      → (taken ≡ true) ⊎ (m' ≡ m'')
  mode_still f (inl b) h = inl (f b)
  mode_still f (inr e) (inl t) = inl t
  mode_still f (inr e) (inr h) = inr (e ∙ h)

  pub Keeps-IsShut :
      {shared : Bool} {s s' : Ipc}
      → (shared ≡ true → taken ≡ true)
      → Keeps shared s s'
      → IsShut s
      → IsShut s'
  Keeps-IsShut {s = s} {s' = s'} f k h = record {
    has_ended = k.same_ended ∙ h.has_ended;
    was_cancelled = still k.stays_cancelled;
    silent = k.same_listening ∙ h.silent;
    mode = mode_still f k.same_mode h.mode;
  }
    where
      still : (s.cancelled ≡ false) ⊎ (s'.cancelled ≡ true) → s'.cancelled ≡ true
      still (inl n) = let p = h.was_cancelled in absurd (cc)
      still (inr c) = c

  Keeps-Phase :
      {shared : Bool} {s s' : Ipc}
      → (shared ≡ true → taken ≡ true)
      → Keeps shared s s'
      → IsOpen s ⊎ IsShut s
      → IsOpen s' ⊎ IsShut s'
  Keeps-Phase f k (inl h) = inl (record {
    not_ended = k.same_ended ∙ h.not_ended;
    listens = k.same_listening ∙ h.listens;
    mode = mode_still f k.same_mode h.mode;
    removal_is = k.same_removal ∙ h.removal_is;
  })
  Keeps-Phase f k (inr h) = inr (Keeps-IsShut f k h)

  close_down-silent : (r : Reported (Unit {0})) (v : Server) → (close_down r v).listening ≡ false
  unfolding close_down
  close_down-silent (good t) v = refl
  close_down-silent (failed m) v = refl

  close_down-mode :
      (r : Reported (Unit {0})) (v : Server)
      → (taken ≡ true) ⊎ (v.socket_mode ≡ some owner_only)
      → (taken ≡ true) ⊎ ((close_down r v).socket_mode ≡ mode_left r)
  unfolding close_down
  close_down-mode (good t) v h = inr refl
  close_down-mode (failed m) v h = h

  loop_shuts :
      (s : Ipc)
      → IsOpen s ⊎ IsShut s
      → s.cancelled ≡ true
      → IsShut (
          if s.cancelled && not s.ended
          then record s { ended = true; server = close_down s.removal s.server }
          else s)
  loop_shuts s (inl h) c =
      let b : (s.cancelled && not s.ended) ≡ true = ground (arith, h.not_ended) in
      rw b (record {
        has_ended = refl;
        was_cancelled = c;
        silent = close_down-silent s.removal s.server;
        mode = elim (close_down-mode s.removal s.server h.mode) [
          | inl t ↦ inl t
          | inr m ↦ inr (m ∙ ap mode_left h.removal_is)
        ];
      })
  loop_shuts s (inr h) c =
      let b : (s.cancelled && not s.ended) ≡ false = ground (arith, h.has_ended) in rw b h

  module _ (rng : Rng) (decode : Text → Reported Request) where
    loop-Phase :
        (s : Ipc)
        → IsOpen s ⊎ IsShut s
        → IsOpen (step rng decode loop_wakes s) ⊎ IsShut (step rng decode loop_wakes s)
    unfolding step
    loop-Phase s h = elim (Bool-cases s.cancelled) [
      | inl c ↦ inr (loop_shuts s h c)
      | inr n ↦ let b : (s.cancelled && not s.ended) ≡ false = ground (arith, n) in rw b h
    ]

    pub loop_over :
        (s : Ipc)
        → IsShut s
        → IsShut (step rng decode loop_wakes s)
          × (length (step rng decode loop_wakes s).sessions ≡ length s.sessions)
    unfolding step
    loop_over s h =
        let b : (s.cancelled && not s.ended) ≡ false = ground (arith, h.has_ended) in rw b (h, refl)

    pub loop_closes :
        (s : Ipc) → IsOpen s ⊎ IsShut s → s.cancelled ≡ true → IsShut (step rng decode loop_wakes s)
    unfolding step
    loop_closes s h c = loop_shuts s h c

    pub step_cancelled :
        (e : Event) (s : Ipc)
        → IsOpen s ⊎ IsShut s
        → s.cancelled ≡ true
        → (step rng decode e s).cancelled ≡ true
    step_cancelled e s h c = go (step-Keeps rng decode e s)
      where
        still : (s' : Ipc) → (s.cancelled ≡ false) ⊎ (s'.cancelled ≡ true) → s'.cancelled ≡ true
        still s' (inl n) = absurd (cc)
        still s' (inr p) = p

        go :
            Keeps (is_shared e) s (step rng decode e s) ⊎ (e ≡ loop_wakes)
            → (step rng decode e s).cancelled ≡ true
        go (inl k) = still (step rng decode e s) k.stays_cancelled
        go (inr is) = rw is ((loop_closes s h c).was_cancelled)

    pub step-Phase :
        (e : Event) (s : Ipc)
        → (is_shared e ≡ true → taken ≡ true)
        → IsOpen s ⊎ IsShut s
        → IsOpen (step rng decode e s) ⊎ IsShut (step rng decode e s)
    step-Phase e s f h = go (step-Keeps rng decode e s)
      where
        go :
            Keeps (is_shared e) s (step rng decode e s) ⊎ (e ≡ loop_wakes)
            → IsOpen (step rng decode e s) ⊎ IsShut (step rng decode e s)
        go (inl k) = Keeps-Phase f k h
        go (inr is) = rw is (loop-Phase s h)

-- What holds while nobody shares the file holds where somebody may.
module _ (removal : Reported (Unit {0})) (taken taken' : Bool)
    (f : taken ≡ true → taken' ≡ true) where
  weaker : {m m' : Option ℕ} → (taken ≡ true) ⊎ (m ≡ m') → (taken' ≡ true) ⊎ (m ≡ m')
  weaker (inl t) = inl (f t)
  weaker (inr e) = inr e

  pub later_IsShut : {s : Ipc} → IsShut removal taken s → IsShut removal taken' s
  later_IsShut h = record {
    has_ended = h.has_ended;
    was_cancelled = h.was_cancelled;
    silent = h.silent;
    mode = weaker h.mode;
  }

  pub later_Phase :
      {s : Ipc}
      → IsOpen removal taken s ⊎ IsShut removal taken s
      → IsOpen removal taken' s ⊎ IsShut removal taken' s
  later_Phase (inl h) = inl (record {
    not_ended = h.not_ended;
    listens = h.listens;
    mode = weaker h.mode;
    removal_is = h.removal_is;
  })
  later_Phase (inr h) = inr (later_IsShut h)
