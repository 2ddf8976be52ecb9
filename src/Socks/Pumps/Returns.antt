-- ===== src/Socks/Pumps/Returns.antt =====
-- rust/core/src/engine/arti_runtime.rs, the end of `handle_socks_conn`: when its two tasks end.
use fictional_octo_spork.Prelude.{
  ◌≡◌, refl, Bool, true, false, ◌&&◌, Bool-cases, inl, inr, List, [], ◌∷◌, arith,
}
use fictional_octo_spork.Text.{Bytes}
use fictional_octo_spork.Socks.Pumps.{
  Side, up, down, Pipe, Act, sends, closes, copies, sees_end, fails, wakes, idle, Event, is_live,
  end_with, pump, seen, step, Relay, direction, start_relay, relay, has_returned, is_wake, woken,
}

-- A task that has ended stays so, whatever happens.
ended_stays :
    (t : Bool) (a : Act) (p : Pipe) → is_live p.ended ≡ false → is_live (pump t a p).ended ≡ false
unfolding pump is_live end_with
ended_stays t (sends bs) p h = ground arith
ended_stays t closes p h = h
ended_stays t (copies n) p h = ground arith
ended_stays t sees_end p h = ground arith
ended_stays t (fails n) p h = ground arith
ended_stays t (wakes n) p h = ground arith
ended_stays t idle p h = h

relay_stays :
    (side : Side) (es : List Event) (r : Relay)
    → is_live (direction side r).ended ≡ false
    → is_live (direction side (relay es r)).ended ≡ false
unfolding relay step
relay_stays side [] r h = h
relay_stays up (e ∷ es) r h =
    relay_stays up es (step e r) (ended_stays r.token (seen up e) r.upward h)
relay_stays down (e ∷ es) r h =
    relay_stays down es (step e r) (ended_stays r.token (seen down e) r.downward h)

-- A task that is woken while the token is cancelled has ended after it.
wake_ends :
    (t : Bool) (a : Act) (p : Pipe)
    → t ≡ true
    → is_wake a ≡ true
    → is_live (pump t a p).ended ≡ false
unfolding pump is_live end_with is_wake
wake_ends t (wakes n) p h k = ground arith
wake_ends t (sends bs) p h k = absurd (cc)
wake_ends t closes p h k = absurd (cc)
wake_ends t (copies n) p h k = absurd (cc)
wake_ends t sees_end p h k = absurd (cc)
wake_ends t (fails n) p h k = absurd (cc)
wake_ends t idle p h k = absurd (cc)

pub woken_ends :
    (side : Side) (es : List Event) (r : Relay)
    → woken side r.token es ≡ true
    → is_live (direction side (relay es r)).ended ≡ false
unfolding relay step woken
woken_ends side [] r h = absurd (cc)
woken_ends up (e ∷ es) r h = elim (Bool-cases (r.token && is_wake (seen up e))) [
  | inl now ↦
      relay_stays up es (step e r)
        (wake_ends r.token (seen up e) r.upward (ground arith) (ground arith))
  | inr later ↦ woken_ends up es (step e r) (ground arith)
]
woken_ends down (e ∷ es) r h = elim (Bool-cases (r.token && is_wake (seen down e))) [
  | inl now ↦
      relay_stays down es (step e r)
        (wake_ends r.token (seen down e) r.downward (ground arith) (ground arith))
  | inr later ↦ woken_ends down es (step e r) (ground arith)
]

-- Whatever else happens, once the token is cancelled and each of the two tasks is woken after that, in either order,
-- the handler returns.
pub cancelled-returns :
    (early : Bytes) (es : List Event)
    → woken up false es ≡ true
    → woken down false es ≡ true
    → has_returned (relay es (start_relay early)) ≡ true
unfolding has_returned start_relay
cancelled-returns early es u d =
    rw (woken_ends up es (start_relay early) u, woken_ends down es (start_relay early) d) refl
