-- ===== src/Runtime/Wakeup.antt =====
-- `Cancel::cancelled` of rust/core/src/runtime.rs, a future that is polled while others cancel tokens.
use fictional_octo_spork.Prelude.{
  ℕ, ◌≤◌, ◌<◌, ◌≡◌, ◌≢◌, ◌⊎◌, inl, inr, ◌↔◌, refl, sym, ap, ◌∙◌, Bool, true, false, ◌||◌, ◌==◌,
  if◌then◌else◌, List, [], ◌∷◌, arith, Bool-cases,
}
use fictional_octo_spork.Runtime.{Watch, Channels, new_cancel, cancel, is_cancelled, cancel_lem}

-- `Receiver::has_changed`, which is when `changed` is ready. `cancelled` asks a clone of the token's receiver, and
-- neither has marked a value as seen since the channel was made.
pub record Notify (watch : Watch) : Type 0 where
  pub has_changed : watch.Channel → Bool
  pub has_changed-channel : (b : Bool) → has_changed (watch.channel b) ≡ false
  pub has_changed-send : (b : Bool) (c : watch.Channel) → has_changed (watch.send b c) ≡ true

-- Where the future stands: before its test, at `changed().await`, or behind it.
pub data Waiting : Type 0 where
  entered awaiting resolved : Waiting

-- Someone makes a token, someone cancels one, or the future is polled, from one of its stands to the next.
pub data Act : Type 0 where
  creates : Act
  cancels : ℕ → Act
  polled : Act

abbrev asks : ℕ → Act → Bool
asks i (cancels j) = j == i
asks i _ = false

-- Whether a token is cancelled among the acts.
unfoldable pub is_asked : ℕ → List Act → Bool
is_asked i [] = false
is_asked i (a ∷ as') = asks i a || is_asked i as'

module _ (watch : Watch) (notify : Notify watch) where
  unfoldable pub advance : ℕ → Channels watch → Waiting → Waiting
  unfolding is_cancelled
  advance i cs entered = if is_cancelled watch cs i then resolved else awaiting
  advance i cs awaiting = if notify.has_changed (cs.at i) then resolved else awaiting
  advance i cs resolved = resolved

  unfoldable pub act : ℕ → Act → Channels watch × Waiting → Channels watch × Waiting
  unfolding advance new_cancel cancel
  act i creates (cs, w) = ((new_cancel watch cs).1, w)
  act i (cancels j) (cs, w) = (cancel watch j cs, w)
  act i polled (cs, w) = (cs, advance i cs w)

  unfoldable pub happen : ℕ → List Act → Channels watch × Waiting → Channels watch × Waiting
  unfolding act
  happen i [] s = s
  happen i (a ∷ as') s = happen i as' (act i a s)

  -- The token has been made, a value was sent to it exactly if it is cancelled, and a future is resolved by that only.
  record Awake (i : ℕ) (s : Channels watch × Waiting) : Type 0 where
    made : i < s.0.next
    told : notify.has_changed (s.0.at i) ≡ is_cancelled watch s.0 i
    cause : (s.1 ≢ resolved) ⊎ (is_cancelled watch s.0 i ≡ true)

  new-Awake : (cs : Channels watch) → Awake cs.next ((new_cancel watch cs).1, entered)
  unfolding new_cancel is_cancelled
  new-Awake cs = record {
    made = omega arith;
    told = ground (arith, notify.has_changed-channel false, watch.borrow-channel false);
    cause = inl (λ e. cc);
  }

  advance-cause :
      (i : ℕ) (cs : Channels watch) (w : Waiting)
      → Awake i (cs, w)
      → (advance i cs w ≢ resolved) ⊎ (is_cancelled watch cs i ≡ true)
  unfolding advance
  advance-cause i cs entered h = elim (Bool-cases (is_cancelled watch cs i)) [
    | inl c ↦ inr c
    | inr c ↦ inl (rw c (λ e. cc))
  ]
  advance-cause i cs awaiting h = elim (Bool-cases (is_cancelled watch cs i)) [
    | inl c ↦ inr c
    | inr c ↦ inl (rw (h.told ∙ c) (λ e. cc))
  ]
  advance-cause i cs resolved h = h.cause

  -- Channels where the one of the token is the same.
  same-Awake :
      (i : ℕ) (cs cs' : Channels watch) (w : Waiting)
      → cs.next ≤ cs'.next
      → cs'.at i ≡ cs.at i
      → Awake i (cs, w)
      → Awake i (cs', w) × (is_cancelled watch cs' i ≡ (is_cancelled watch cs i || false))
  unfolding is_cancelled
  same-Awake i cs cs' w n e h =
      let m = h.made in
      (
        record {
          made = omega arith;
          told = rw (e, is_cancelled) h.told;
          cause = rw (e, is_cancelled) h.cause;
        },
        ap watch.borrow e ∙ ground arith,
      )

  act_lem :
      (i : ℕ) (a : Act) (s : Channels watch × Waiting)
      → Awake i s
      → Awake i (act i a s)
        × (is_cancelled watch (act i a s).0 i ≡ (is_cancelled watch s.0 i || asks i a))
  unfolding act new_cancel cancel is_cancelled
  act_lem i creates s h =
      let m = h.made in same-Awake i s.0 (new_cancel watch s.0).1 s.1 (omega arith) (ground arith) h
  act_lem i (cancels j) s h = elim (Bool-cases (j == i)) [
    | inl e ↦
        let sent : is_cancelled watch (cancel watch j s.0) i ≡ true =
          rw (is_cancelled, e) (watch.borrow-send true (s.0.at j)) in
        (
          record {
            made = h.made;
            told =
                rw (is_cancelled, e)
                  (notify.has_changed-send true (s.0.at j)
                    ∙ sym (watch.borrow-send true (s.0.at j)));
            cause = inr sent;
          },
          sent ∙ ground (arith, e),
        )
    | inr e ↦ rw e (same-Awake i s.0 (cancel watch j s.0) s.1 (omega arith) (rw e refl) h)
  ]
  act_lem i polled s h =
      (record { made = h.made; told = h.told; cause = advance-cause i s.0 s.1 h }, ground arith)

  happen_lem :
      (i : ℕ) (as' : List Act) (s : Channels watch × Waiting)
      → Awake i s
      → Awake i (happen i as' s)
        × (is_cancelled watch (happen i as' s).0 i ≡ (is_cancelled watch s.0 i || is_asked i as'))
  unfolding happen is_asked
  happen_lem i [] s h = (h, ground arith)
  happen_lem i (a ∷ as') s h =
      let (next, one) = act_lem i a s h in
      let (last, rest) = happen_lem i as' (act i a s) next in (last, ground (arith, one, rest))

  two_polls :
      (i : ℕ) (cs : Channels watch) (w : Waiting)
      → Awake i (cs, w)
      → (advance i cs (advance i cs w) ≡ resolved) ↔ (is_cancelled watch cs i ≡ true)
  unfolding advance
  two_polls i cs w h = elim (Bool-cases (is_cancelled watch cs i)) [
    | inl c ↦ (λ e. c, λ e. both w c (h.told ∙ c))
    | inr c ↦ (
      λ e.
          elim (advance-cause i cs (advance i cs w)
            (record { made = h.made; told = h.told; cause = advance-cause i cs w h })) [
              | inl still ↦ absurd (still e)
              | inr c' ↦ c'
            ],
      λ e. absurd (cc),
    )
  ]
    where
      both :
          (w : Waiting)
          → is_cancelled watch cs i ≡ true
          → notify.has_changed (cs.at i) ≡ true
          → advance i cs (advance i cs w) ≡ resolved
      both entered c n = rw c refl
      both awaiting c n = rw n refl
      both resolved c n = refl

  -- A new token, and a future of it, while others make tokens and cancel this and other ones, also between the
  -- future's test and its wait: the token is cancelled exactly if it was asked for; the future is not resolved
  -- before that; and when it is polled twice more it is resolved exactly if it was asked for by then.
  pub no_lost_wakeup :
      (cs : Channels watch) (as' : List Act)
      → let i = (new_cancel watch cs).0 in
        let s = happen i as' ((new_cancel watch cs).1, entered) in
        (is_cancelled watch s.0 i ≡ is_asked i as')
        × ((s.1 ≢ resolved) ⊎ (is_asked i as' ≡ true))
        × (((happen i (polled ∷ polled ∷ []) s).1 ≡ resolved) ↔ (is_asked i as' ≡ true))
  unfolding happen act
  no_lost_wakeup cs as' =
      let start : Channels watch × Waiting = ((new_cancel watch cs).1, entered) in
      let s = happen cs.next as' start in
      let (h, same) = happen_lem cs.next as' start (new-Awake cs) in
      let idle : is_cancelled watch (new_cancel watch cs).1 cs.next ≡ false =
        (cancel_lem watch cs 0 0).0 in
      let asked : is_cancelled watch s.0 cs.next ≡ is_asked cs.next as' =
        ground (arith, idle, same) in
      let (there, back) = two_polls cs.next s.0 s.1 h in
      (
        asked,
        elim h.cause [ inl n ↦ inl n | inr c ↦ inr (sym asked ∙ c) ],
        (λ e. sym asked ∙ there e, λ e. back (asked ∙ e)),
      )
