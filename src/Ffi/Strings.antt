-- ===== src/Ffi/Strings.antt =====
-- The strings that rust/core/src/ffi.rs hands out: each is a `CString` of the heap, which the platform owns until it
-- passes the pointer to `ff_vpn_free_string`. A pointer that is not null is its address.
use fictional_octo_spork.Prelude.{
  ℕ, zero, suc, ◌==◌, ◌≡◌, inl, inr, refl, sym, ap, subst, ◌∙◌, false, Bool-cases, Option, none,
  some, List, [], ◌∷◌, All, All-map, ==_iff, ==_refl, if◌then◌else◌, arith,
}
use fictional_octo_spork.Text.{Bytes}
use fictional_octo_spork.World.{Outside}
use fictional_octo_spork.Ffi.{Codec, Caller, ff_vpn_status_json, ff_vpn_ipc_auth_token}

-- The strings of the heap with their addresses.
abbrev pub Heap : Type 0
Heap = List (ℕ × Bytes)

unfoldable pub string_at : ℕ → Heap → Option Bytes
string_at p [] = none
string_at p ((q, s) ∷ h) = if p == q then some s else string_at p h

drop_at : ℕ → Heap → Heap
drop_at p [] = []
drop_at p ((q, s) ∷ h) = if p == q then h else (q, s) ∷ drop_at p h

-- The allocator gives an address where no string is.
pub record Malloc : Type 0 where
  pub address : Heap → ℕ
  pub address-new : (h : Heap) → string_at (address h) h ≡ none

-- `CString::into_raw`, or a null pointer
into_raw : Malloc → Option Bytes → Heap → Option ℕ × Heap
into_raw malloc none h = (none, h)
into_raw malloc (some s) h = let p = malloc.address h in (some p, (p, s) ∷ h)

-- `ff_vpn_free_string`, at a pointer that was handed out and not freed yet, or null
ff_vpn_free_string : Option ℕ → Heap → Heap
unfolding drop_at
ff_vpn_free_string none h = h
ff_vpn_free_string (some p) h = drop_at p h

-- What the platform does with strings. It frees one of those that it owns, or null.
pub data Use : Type 0 where
  asks_status : Use
  asks_token : Use
  frees : (place : ℕ) → Use
  frees_null : Use

-- The pointer at a place of those that are owned, and the others.
pull : ℕ → List (ℕ × Bytes) → Option ℕ × List (ℕ × Bytes)
pull i [] = (none, [])
pull zero ((p, s) ∷ l) = (some p, l)
pull (suc i) ((p, s) ∷ l) = let (o, rest) = pull i l in (o, (p, s) ∷ rest)

own : Option ℕ → Option Bytes → List (ℕ × Bytes) → List (ℕ × Bytes)
own (some p) (some s) l = (p, s) ∷ l
own _ _ l = l

module _ (os : Outside) (codec : Codec) (malloc : Malloc) where
  -- The caller, the heap, and the pointers that the platform owns, each with what it read there when it got it.
  pub record Session : Type 0 where
    pub caller : Caller os codec
    pub heap : Heap
    pub owned : List (ℕ × Bytes)

  -- A string that a call of the library returns
  returned : Option Bytes → Caller os codec → Session → Session
  unfolding into_raw own
  returned s c x =
      let (p, h) = into_raw malloc s x.heap in
      record { caller = c; heap = h; owned = own p s x.owned }

  pub use_strings : Use → Session → Session
  unfolding returned pull ff_vpn_free_string
  use_strings asks_status x = returned (ff_vpn_status_json os codec x.caller) x.caller x
  use_strings asks_token x = let (s, c) = ff_vpn_ipc_auth_token os codec x.caller in returned s c x
  use_strings (frees place) x =
      let (p, rest) = pull place x.owned in
      record x { heap = ff_vpn_free_string p x.heap; owned = rest }
  use_strings frees_null x = record x { heap = ff_vpn_free_string none x.heap }

  pub uses : List Use → Session → Session
  unfolding use_strings
  uses [] x = x
  uses (u ∷ us) x = uses us (use_strings u x)

-- No two strings have the same address.
Unique : Heap → Type 0
Unique [] = Unit
Unique ((p, s) ∷ h) = (string_at p h ≡ none) × Unique h

distinct :
    (p q : ℕ) (h : Heap) {s : Bytes}
    → string_at p h ≡ some s
    → string_at q h ≡ none
    → (p == q) ≡ false
distinct p q h found none_there = elim (Bool-cases (p == q)) [
  | inl same ↦ let e : p ≡ q = (==_iff p q).0 same in absurd (cc)
  | inr other ↦ other
]

pull-found :
    (i : ℕ) (l : Heap) {p : ℕ} → (pull i l).0 ≡ some p → (s : Bytes) × (string_at p l ≡ some s)
unfolding pull string_at
pull-found i [] e = absurd (cc)
pull-found zero ((q, s) ∷ l) {p} e = (s, ground (arith, e, ==_refl q))
pull-found (suc i) ((q, s) ∷ l) {p} e = elim (Bool-cases (p == q)) [
  | inl same ↦ (s, rw same refl)
  | inr other ↦ let (t, found) = pull-found i l e in (t, rw other found)
]

pull-absent : (i p : ℕ) (l : Heap) → string_at p l ≡ none → string_at p (pull i l).1 ≡ none
unfolding pull string_at
pull-absent i p [] e = refl
pull-absent zero p ((q, s) ∷ l) e = ground (arith, e)
pull-absent (suc i) p ((q, s) ∷ l) e = ground (arith, e, pull-absent i p l)

pull-Unique : (i : ℕ) (l : Heap) → Unique l → Unique (pull i l).1
unfolding pull Unique
pull-Unique i [] u = tt
pull-Unique zero ((q, s) ∷ l) u = u.1
pull-Unique (suc i) ((q, s) ∷ l) u = (pull-absent i q l u.0, pull-Unique i l u.1)

-- Freeing an owned pointer takes exactly its string from the heap.
free-pull : (i : ℕ) (l : Heap) → Unique l → ff_vpn_free_string (pull i l).0 l ≡ (pull i l).1
unfolding pull Unique ff_vpn_free_string drop_at
free-pull i [] u = refl
free-pull zero ((q, s) ∷ l) u = rw (==_refl q) refl
free-pull (suc i) ((q, s) ∷ l) u = go (pull i l).0 refl (free-pull i l u.1)
  where
    go :
        (o : Option ℕ)
        → (pull i l).0 ≡ o
        → ff_vpn_free_string o l ≡ (pull i l).1
        → ff_vpn_free_string o ((q, s) ∷ l) ≡ (q, s) ∷ (pull i l).1
    go none e h = ap (λ l. (q, s) ∷ l) h
    go (some p) e h =
        let (t, found) = pull-found i l e in
        let other : (p == q) ≡ false = distinct p q l found u.0 in rw other (ap (λ l. (q, s) ∷ l) h)

-- Every string of the heap is read at its own address.
Unique-reads : (h : Heap) → Unique h → All (λ e. string_at e.0 h ≡ some e.1) h
unfolding Unique string_at
Unique-reads [] u = tt
Unique-reads ((p, s) ∷ h) u = (
  rw (==_refl p) refl,
  All-map _ _ h
      (λ e found. let other : (e.0 == p) ≡ false = distinct e.0 p h found u.0 in rw other found)
      (Unique-reads h u.1),
)

module _ (os : Outside) (codec : Codec) (malloc : Malloc) where
  -- The platform owns exactly the strings of the heap.
  record Balanced (x : Session os codec malloc) : Type 0 where
    same : x.heap ≡ x.owned
    unique : Unique x.heap

  returned-Balanced :
      (s : Option Bytes) (c : Caller os codec) (x : Session os codec malloc)
      → Balanced x
      → Balanced (returned os codec malloc s c x)
  unfolding returned into_raw own Unique
  returned-Balanced none c x b = record { same = b.same; unique = b.unique }
  returned-Balanced (some s) c x b = record {
    same = ap (λ l. (malloc.address x.heap, s) ∷ l) b.same;
    unique = (malloc.address-new x.heap, b.unique);
  }

  use-Balanced :
      (u : Use) (x : Session os codec malloc)
      → Balanced x
      → Balanced (use_strings os codec malloc u x)
  unfolding use_strings
  use-Balanced asks_status x b = returned-Balanced _ x.caller x b
  use-Balanced asks_token x b = returned-Balanced _ _ x b
  use-Balanced (frees place) x b =
      let u : Unique x.owned = subst Unique b.same b.unique in
      let e : ff_vpn_free_string (pull place x.owned).0 x.heap ≡ (pull place x.owned).1 =
        ap (ff_vpn_free_string (pull place x.owned).0) b.same ∙ free-pull place x.owned u in
      record { same = e; unique = subst Unique (sym e) (pull-Unique place x.owned u) }
  use-Balanced frees_null x b = record { same = b.same; unique = b.unique }

  uses-Balanced :
      (us : List Use) (x : Session os codec malloc)
      → Balanced x
      → Balanced (uses os codec malloc us x)
  unfolding uses
  uses-Balanced [] x b = b
  uses-Balanced (u ∷ us) x b =
      uses-Balanced us (use_strings os codec malloc u x) (use-Balanced u x b)

  -- From a heap with no strings, whatever strings a platform asks for and frees, in any order, as long as it frees
  -- what it owns: the heap has exactly the strings that the platform owns, so that none is leaked and none is freed
  -- twice, and each is still read as it was when the platform got it.
  pub strings_owned :
      (us : List Use) (c : Caller os codec)
      → let y = uses os codec malloc us (record { caller = c; heap = []; owned = [] }) in
        (y.heap ≡ y.owned) × All (λ e. string_at e.0 y.heap ≡ some e.1) y.owned
  unfolding Unique
  strings_owned us c =
      let x : Session os codec malloc = record { caller = c; heap = []; owned = [] } in
      let b = uses-Balanced us x (record { same = refl; unique = tt }) in
      let y = uses os codec malloc us x in
      (
        b.same,
        subst (All (λ e. string_at e.0 y.heap ≡ some e.1)) b.same (Unique-reads y.heap b.unique),
      )
