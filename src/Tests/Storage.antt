-- ===== src/Tests/Storage.antt =====
-- Fetching, saving and loading a configuration, and a future of a token.
use fictional_octo_spork.Prelude.{
  ℕ, zero, suc, ◌≡◌, ◌≢◌, ◌⊎◌, ◌↔◌, refl, sym, arith, ap, Bool, true, false, Option, none, some, [],
  ◌∷◌,
}
use fictional_octo_spork.Text.{Text, text}
use fictional_octo_spork.Failure.{Reported, good, failed, Error, ok, err}
use fictional_octo_spork.Config.{RawRoot, AppConfig}
use fictional_octo_spork.Config.Store.{
  Http, Store, fetch, save, Saved, Published, Refused, IsErrorStatus, load-save,
}
use fictional_octo_spork.Runtime.{Watch, Channels, new_cancel, is_cancelled}
use fictional_octo_spork.Runtime.Wakeup.{
  Notify, creates, cancels, polled, is_asked, happen, entered, resolved, no_lost_wakeup,
}
use fictional_octo_spork.Tests.Samples.{some_raw}

all_good :
    {r r' : Text} → ◌≡◌ {A = Reported Text} (good r) (good r') → (r' ≡ r) × ¬ IsErrorStatus 200
all_good h = (cc, λ k. omega arith)

none_failed : {r m : Text} → ◌≡◌ {A = Reported Text} (good r) (failed m) → IsErrorStatus 200
none_failed h = absurd (cc)

-- A server that answers every request with the status 200.
abbrev web : Http
web = record {
  Client = Text;
  Response = Text;
  status = λ r. 200;
  build = λ user_agent timeout. good user_agent;
  get = λ client url. good url;
  error_for_status = good;
  body = good;
  error_for_status-good = λ r h. all_good h;
  error_for_status-failed = λ r h. none_failed h;
}

-- A disk with room for one file.
abbrev read_disk : Option AppConfig → Reported AppConfig
read_disk none = failed (text "no such file")
read_disk (some d) = good d

abbrev disk : Store
disk = record {
  Document = AppConfig;
  Files = Option AppConfig;
  to_vec_pretty = good;
  from_slice = good;
  write = λ path d fs. (good tt, some d);
  read = λ path fs. read_disk fs;
  from_slice-to_vec_pretty = λ cfg h. sym h;
  read-write =
      λ path d fs fs' h. ap (λ (w : Reported (Unit {0}) × Option AppConfig). read_disk w.1) (sym h);
}

abbrev known : Text → Reported RawRoot
known t = good some_raw

load-save_example :
    ((e : Error) × (fetch web (text "1.0") known (text "https://vpn.example") ≡ err e)
      × Refused web (text "1.0") known (text "https://vpn.example") e)
    ⊎ ((cfg : AppConfig) × (fetch web (text "1.0") known (text "https://vpn.example") ≡ ok cfg)
        × Published web (text "1.0") known (text "https://vpn.example") cfg
        × Saved disk cfg (text "/data/config") none (save disk cfg (text "/data/config") none))
load-save_example =
    load-save web (text "1.0") known (text "https://vpn.example") disk (text "/data/config") none

-- A watch channel that counts what is sent.
abbrev counting : Watch
counting = record {
  Channel = ℕ × Bool;
  channel = λ b. (0, b);
  send = λ b c. (suc c.0, b);
  borrow = λ c. c.1;
  borrow-channel = λ b. refl;
  borrow-send = λ b c. refl;
}

abbrev is_positive : ℕ → Bool
is_positive zero = false
is_positive (suc n) = true

abbrev counted : Notify counting
counted = record {
  has_changed = λ c. is_positive c.0;
  has_changed-channel = λ b. refl;
  has_changed-send = λ b c. refl;
}

abbrev no_channels : Channels counting
no_channels = record { at = λ i. (0, false); next = 0 }

-- The token is cancelled between the future's test and its wait.
no_lost_wakeup_example :
    let as' = polled ∷ creates ∷ cancels 1 ∷ cancels 0 ∷ [] in
    let i = (new_cancel counting no_channels).0 in
    let s = happen counting counted i as' ((new_cancel counting no_channels).1, entered) in
    (is_cancelled counting s.0 i ≡ is_asked i as')
    × ((s.1 ≢ resolved) ⊎ (is_asked i as' ≡ true))
    × (((happen counting counted i (polled ∷ polled ∷ []) s).1 ≡ resolved)
        ↔ (is_asked i as' ≡ true))
no_lost_wakeup_example =
    no_lost_wakeup counting counted no_channels (polled ∷ creates ∷ cancels 1 ∷ cancels 0 ∷ [])
