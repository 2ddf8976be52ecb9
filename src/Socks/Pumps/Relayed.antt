-- ===== src/Socks/Pumps/Relayed.antt =====
-- rust/core/src/engine/arti_runtime.rs, the end of `handle_socks_conn`: what the two copies deliver.
use fictional_octo_spork.Prelude.{
  ℕ, ◌≡◌, refl, sym, subst, ap, ◌∙◌, Option, none, some, Bool, true, false, Bool-cases,
  if◌then◌else◌, inl, inr, List, [], ◌∷◌, ◌++◌, take, drop, take-append-drop,
}
use mathlib.Core.List.{append_assoc, append-nil}
use fictional_octo_spork.Text.{Bytes}
use fictional_octo_spork.Socks.Pumps.{
  Side, up, down, How, at_eof, broke, by_cancel, Pipe, Act, sends, closes, copies, sees_end, fails,
  wakes, idle, Event, on, cancelled, is_live, is_empty, end_with, pump, seen, token_after, step,
  Relay, direction, relay, new_bytes, closed_after, sent,
}

-- How a direction stands, by how its task ended.
unfoldable pub Fate : Bool → Option How → Pipe → Type 0
Fate token none p = p.lost ≡ []
Fate token (some at_eof) p = (p.lost ≡ []) × (p.queued ≡ []) × (p.closed ≡ true)
Fate token (some broke) p = Unit
Fate token (some by_cancel) p = token ≡ true

-- Of what arrived a first part was written on, in order; the rest was lost with the task or is still to be read.
pub record Relayed (token : Bool) (arrived : Bytes) (p : Pipe) : Type 0 where
  pub whole : p.written ++ (p.lost ++ p.queued) ≡ arrived
  pub fate : Fate token p.ended p

abbrev pipe : Bytes → Bytes → Bytes → Bool → Option How → Pipe
pipe q w l c e = record { queued = q; written = w; lost = l; closed = c; ended = e }

-- A task that goes on without anything done.
same_Relayed :
    {t : Bool} {arrived : Bytes} (p : Pipe) → Relayed t arrived p → Relayed t (arrived ++ []) p
same_Relayed p r = record { whole = r.whole ∙ sym (append-nil _); fate = r.fate }

-- Bytes that go over from the queue are the same.
moved : (n : ℕ) (w q : Bytes) → (w ++ take n q) ++ drop n q ≡ w ++ q
moved n w q = append_assoc w (take n q) (drop n q) ∙ ap (λ l. w ++ l) (take-append-drop n q)

ends-whole :
    (how : How) (n : ℕ) (p : Pipe) {arrived : Bytes}
    → p.written ++ (p.lost ++ p.queued) ≡ arrived
    → let p' = end_with how n p in p'.written ++ (p'.lost ++ p'.queued) ≡ arrived ++ []
unfolding end_with
ends-whole how n p h = ap (λ l. p.written ++ l) (moved n p.lost p.queued) ∙ h ∙ sym (append-nil _)

empty_queue : (q : Bytes) → is_empty q ≡ true → q ≡ []
unfolding is_empty
empty_queue [] h = refl
empty_queue (b ∷ q) h = absurd (cc)

late_Fate :
    (t : Bool) (e : Option How) (q w l bs : Bytes)
    → Fate t e (pipe q w l false e)
    → Fate t e (pipe (q ++ bs) w l false e)
unfolding Fate
late_Fate t none q w l bs h = h
late_Fate t (some at_eof) q w l bs h = absurd (cc)
late_Fate t (some broke) q w l bs h = h
late_Fate t (some by_cancel) q w l bs h = h

closing_Fate :
    (t : Bool) (e : Option How) (q w l : Bytes) (c : Bool)
    → Fate t e (pipe q w l c e)
    → Fate t e (pipe q w l true e)
unfolding Fate
closing_Fate t none q w l c h = h
closing_Fate t (some at_eof) q w l c h = (h.0, h.1, refl)
closing_Fate t (some broke) q w l c h = h
closing_Fate t (some by_cancel) q w l c h = h

module _ (t : Bool) (q w l : Bytes) (arrived : Bytes) where
  sends-Relayed :
      (c : Bool) (e : Option How) (bs : Bytes)
      → Relayed t arrived (pipe q w l c e)
      → Relayed t (arrived ++ new_bytes (sends bs) c) (pump t (sends bs) (pipe q w l c e))
  unfolding pump new_bytes
  sends-Relayed true e bs r = same_Relayed _ r
  sends-Relayed false e bs r = record {
    whole =
        ap (λ x. w ++ x) (sym (append_assoc l q bs))
        ∙ sym (append_assoc w (l ++ q) bs)
        ∙ ap (λ x. x ++ bs) r.whole;
    fate = late_Fate t e q w l bs r.fate;
  }

  copies-Relayed :
      (c : Bool) (e : Option How) (n : ℕ)
      → Relayed t arrived (pipe q w l c e)
      → Relayed t (arrived ++ []) (pump t (copies n) (pipe q w l c e))
  unfolding pump is_live Fate
  copies-Relayed c (some how) n r = same_Relayed _ r
  copies-Relayed c none n r = record {
    whole =
        ap (λ x. (w ++ take n q) ++ (x ++ drop n q)) r.fate
        ∙ moved n w q
        ∙ sym (ap (λ x. w ++ (x ++ q)) r.fate)
        ∙ r.whole
        ∙ sym (append-nil arrived);
    fate = r.fate;
  }

  ends-Relayed :
      (how : How) (c : Bool) (n : ℕ)
      → Relayed t arrived (pipe q w l c none)
      → Fate t (some how) (end_with how n (pipe q w l c none))
      → Relayed t (arrived ++ []) (end_with how n (pipe q w l c none))
  unfolding end_with
  ends-Relayed how c n r f = record {
    whole = ends-whole how n (pipe q w l c none) r.whole;
    fate = f;
  }

  sees_end-Relayed :
      (c : Bool) (e : Option How)
      → Relayed t arrived (pipe q w l c e)
      → Relayed t (arrived ++ []) (pump t sees_end (pipe q w l c e))
  unfolding pump is_live Fate end_with
  sees_end-Relayed c (some how) r = same_Relayed _ r
  sees_end-Relayed false none r = same_Relayed _ r
  sees_end-Relayed true none r = elim (Bool-cases (is_empty q)) [
    | inl e ↦ rw e (ends-Relayed at_eof true 0 r (append-nil l ∙ r.fate, empty_queue q e, refl))
    | inr e ↦ rw e (same_Relayed _ r)
  ]

  fails-Relayed :
      (c : Bool) (e : Option How) (n : ℕ)
      → Relayed t arrived (pipe q w l c e)
      → Relayed t (arrived ++ []) (pump t (fails n) (pipe q w l c e))
  unfolding pump is_live Fate
  fails-Relayed c (some how) n r = same_Relayed _ r
  fails-Relayed c none n r = ends-Relayed broke c n r tt

  closes-Relayed :
      (c : Bool) (e : Option How)
      → Relayed t arrived (pipe q w l c e)
      → Relayed t (arrived ++ []) (pump t closes (pipe q w l c e))
  unfolding pump
  closes-Relayed c e r = record {
    whole = r.whole ∙ sym (append-nil arrived);
    fate = closing_Fate t e q w l c r.fate;
  }

wakes-Relayed :
    (t : Bool) (q w l : Bytes) (arrived : Bytes) (c : Bool) (e : Option How) (n : ℕ)
    → Relayed t arrived (pipe q w l c e)
    → Relayed t (arrived ++ []) (pump t (wakes n) (pipe q w l c e))
unfolding pump is_live Fate end_with
wakes-Relayed t q w l arrived c (some how) n r = same_Relayed _ r
wakes-Relayed false q w l arrived c none n r = same_Relayed _ r
wakes-Relayed true q w l arrived c none n r = ends-Relayed true q w l arrived by_cancel c n r refl

pump-Relayed :
    (t : Bool) (a : Act) (p : Pipe) {arrived : Bytes}
    → Relayed t arrived p
    → Relayed t (arrived ++ new_bytes a p.closed) (pump t a p)
unfolding new_bytes pump
pump-Relayed t (sends bs) p r = sends-Relayed t p.queued p.written p.lost _ p.closed p.ended bs r
pump-Relayed t closes p r = closes-Relayed t p.queued p.written p.lost _ p.closed p.ended r
pump-Relayed t (copies n) p r = copies-Relayed t p.queued p.written p.lost _ p.closed p.ended n r
pump-Relayed t sees_end p r = sees_end-Relayed t p.queued p.written p.lost _ p.closed p.ended r
pump-Relayed t (fails n) p r = fails-Relayed t p.queued p.written p.lost _ p.closed p.ended n r
pump-Relayed t (wakes n) p r = wakes-Relayed t p.queued p.written p.lost _ p.closed p.ended n r
pump-Relayed t idle p r = same_Relayed p r

if_same :
    (b : Bool) (x y : Pipe) {c : Bool}
    → x.closed ≡ c
    → y.closed ≡ c
    → (if b then x else y).closed ≡ c
if_same true x y h k = h
if_same false x y h k = k

pump-closed : (t : Bool) (a : Act) (p : Pipe) → (pump t a p).closed ≡ closed_after a p.closed
unfolding pump end_with closed_after
pump-closed t (sends bs) p = if_same _ _ _ refl refl
pump-closed t closes p = refl
pump-closed t (copies n) p = if_same _ _ _ refl refl
pump-closed t sees_end p = if_same _ _ _ refl refl
pump-closed t (fails n) p = if_same _ _ _ refl refl
pump-closed t (wakes n) p = if_same _ _ _ refl refl
pump-closed t idle p = refl

later_Fate :
    (t : Bool) (e : Event) (o : Option How) (p : Pipe) → Fate t o p → Fate (token_after t e) o p
unfolding Fate token_after
later_Fate t (on side a) o p f = f
later_Fate t cancelled none p f = f
later_Fate t cancelled (some at_eof) p f = f
later_Fate t cancelled (some broke) p f = f
later_Fate t cancelled (some by_cancel) p f = refl

-- One event, in one direction.
event-Relayed :
    (t : Bool) (a : Act) (e : Event) (p : Pipe) {arrived : Bytes}
    → Relayed t arrived p
    → Relayed (token_after t e) (arrived ++ new_bytes a p.closed) (pump t a p)
event-Relayed t a e p r =
    let next = pump-Relayed t a p r in
    record { whole = next.whole; fate = later_Fate t e _ (pump t a p) next.fate }

-- The next part of what the sender sends.
more_sent :
    (arrived : Bytes) (side : Side) (es : List Event) (a : Act) (c : Bool) {c' : Bool}
    → c' ≡ closed_after a c
    → (arrived ++ new_bytes a c) ++ sent side c' es
      ≡ arrived ++ (new_bytes a c ++ sent side (closed_after a c) es)
more_sent arrived side es a c h =
    append_assoc arrived (new_bytes a c) _
    ∙ ap (λ x. arrived ++ (new_bytes a c ++ sent side x es)) h

pub relay-Relayed :
    (side : Side) (es : List Event) (r : Relay) {arrived : Bytes}
    → Relayed r.token arrived (direction side r)
    → let r' = relay es r in
      Relayed r'.token (arrived ++ sent side (direction side r).closed es) (direction side r')
unfolding relay step sent
relay-Relayed side [] r h = same_Relayed (direction side r) h
relay-Relayed up (e ∷ es) r {arrived} h =
    let a = seen up e in
    subst (λ x. Relayed (relay es (step e r)).token x (relay es (step e r)).upward)
      (more_sent arrived up es a _ (pump-closed r.token a r.upward))
      (relay-Relayed up es (step e r) (event-Relayed r.token a e r.upward h))
relay-Relayed down (e ∷ es) r {arrived} h =
    let a = seen down e in
    subst (λ x. Relayed (relay es (step e r)).token x (relay es (step e r)).downward)
      (more_sent arrived down es a _ (pump-closed r.token a r.downward))
      (relay-Relayed down es (step e r) (event-Relayed r.token a e r.downward h))
