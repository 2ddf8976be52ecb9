-- ===== src/Net.antt =====
-- `std::net`: addresses and how they print. `Display` of IPv6 follows RFC 5952 as the standard
-- library does: the longest run of at least two zero groups, the first of equals, becomes `::`.
pub mod Parse
use fictional_octo_spork.Prelude.{
  ℕ, zero, suc, ◌+◌, ◌-◌, ◌*◌, ◌/◌, ◌%◌, ◌≡◌, refl, Bool, true, false, ◌&&◌, List, [], ◌∷◌, ◌++◌,
  ltb, leb, ◌==◌, if◌then◌else◌, take, drop,
}
use fictional_octo_spork.Text.{Text, text}
use fictional_octo_spork.Text.Decimal.{decimal}

-- `IpAddr`: four octets, or eight 16-bit groups.
pub data IpAddr : Type 0 where
  v4 : (a b c d : ℕ) → IpAddr
  v6 : List ℕ → IpAddr

pub record SocketAddr : Type 0 where
  pub ip : IpAddr
  pub port : ℕ

unfoldable pub show_v4 : ℕ → ℕ → ℕ → ℕ → Text
unfolding decimal
show_v4 a b c d = decimal a ++ b'.' ∷ (decimal b ++ b'.' ∷ (decimal c ++ b'.' ∷ decimal d))

hex_digit : ℕ → ℕ
hex_digit n = if ltb n 10 then b'0' + n else b'a' + (n - 10)

hex_of : ℕ → ℕ → Text → Text
unfolding hex_digit
hex_of zero n acc = acc
hex_of (suc fuel) n acc =
    let digit = hex_digit (n % 16) ∷ acc in
    let more = hex_of fuel (n / 16) digit in if n / 16 == 0 then digit else more

-- `{:x}` of a 16-bit group
hex : ℕ → Text
unfolding hex_of
hex n = hex_of 4 n []

-- Groups with `:` between them.
groups : List ℕ → Text
unfolding hex
groups [] = []
groups (g ∷ []) = hex g
groups (g ∷ h ∷ r) = hex g ++ b':' ∷ groups (h ∷ r)

-- The longest run of zeros so far, as its start and its length; the run that ends here; the index.
record Runs : Type 0 where
  best_start : ℕ
  best : ℕ
  start : ℕ
  len : ℕ
  at : ℕ

scan_zeros : Runs → List ℕ → Runs
scan_zeros r [] = r
scan_zeros r (g ∷ gs) =
    scan_zeros
      (if g == 0
        then (let start = if r.len == 0 then r.at else r.start in
            let len = r.len + 1 in
            let longer = ltb r.best len in
            record {
              best_start = if longer then start else r.best_start;
              best = if longer then len else r.best;
              start = start;
              len = len;
              at = r.at + 1;
            })
        else record r { len = 0; at = r.at + 1 })
      gs

show_groups : List ℕ → Text
unfolding groups scan_zeros
show_groups gs =
    let r = scan_zeros (record { best_start = 0; best = 0; start = 0; len = 0; at = 0 }) gs in
    if ltb 1 r.best
    then groups (take r.best_start gs) ++ b':' ∷ b':' ∷ groups (drop (r.best_start + r.best) gs)
    else groups gs

-- An IPv4-mapped address prints its last two groups as an IPv4 address.
unfoldable pub show_v6 : List ℕ → Text
unfolding show_groups show_v4 text
show_v6 (a ∷ b ∷ c ∷ d ∷ e ∷ f ∷ g ∷ h ∷ []) =
    if a + b + c + d + e == 0 && f == 0xffff
    then text "::ffff:" ++ show_v4 (g / 256) (g % 256) (h / 256) (h % 256)
    else show_groups (a ∷ b ∷ c ∷ d ∷ e ∷ f ∷ g ∷ h ∷ [])
show_v6 gs = show_groups gs

-- `IpAddr::to_string`
unfoldable pub show_ip : IpAddr → Text
unfolding show_v4 show_v6
show_ip (v4 a b c d) = show_v4 a b c d
show_ip (v6 gs) = show_v6 gs

-- `SocketAddr::to_string`
unfoldable pub show_addr : SocketAddr → Text
unfolding show_ip
show_addr s = elim s.ip [
  | v4 a b c d ↦ show_v4 a b c d ++ b':' ∷ decimal s.port
  | v6 gs ↦ b'[' ∷ (show_v6 gs ++ b']' ∷ b':' ∷ decimal s.port)
]

show_v4_example : show_v4 217 177 47 30 ≡ text "217.177.47.30"
unfolding show_v4 text
show_v4_example = refl

show_v6_example : show_v6 (0x2001 ∷ 0xdb8 ∷ 0 ∷ 0 ∷ 1 ∷ 0 ∷ 0 ∷ 1 ∷ []) ≡ text "2001:db8::1:0:0:1"
unfolding show_v6
show_v6_example = refl

show_mapped_example :
    show_v6 (0 ∷ 0 ∷ 0 ∷ 0 ∷ 0 ∷ 0xffff ∷ 0x0808 ∷ 0x0808 ∷ []) ≡ text "::ffff:8.8.8.8"
unfolding show_v6
show_mapped_example = refl

show_loopback_example : show_v6 (0 ∷ 0 ∷ 0 ∷ 0 ∷ 0 ∷ 0 ∷ 0 ∷ 1 ∷ []) ≡ text "::1"
unfolding show_v6
show_loopback_example = refl
