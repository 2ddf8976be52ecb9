-- ===== src/Tests/Process.antt =====
-- Tokens, the engine, and the platforms' calls, on a fresh process.
use fictional_octo_spork.Prelude.{
  ◌==◌, ◌≡◌, inl, refl, none, some, false, [], ◌++◌, pos, ℕ, ◌+◌, ◌≤◌, List, ◌∷◌, All, arith,
}
use fictional_octo_spork.Text.{Text, text}
use fictional_octo_spork.Failure.{Reported, failed, good, ok, err, already_running, Error}
use fictional_octo_spork.Util.{random_local_port}
use fictional_octo_spork.Leaf.{main_engine_config}
use fictional_octo_spork.Dns.{spawn_dns_proxy, build_doh_client}
use fictional_octo_spork.Runtime
use fictional_octo_spork.Runtime.{Channels}
use fictional_octo_spork.World.{World, Engine}
use fictional_octo_spork.Engine
use fictional_octo_spork.Engine.BringUp.{Abandoned, start_failure}
use fictional_octo_spork.Engine.Started.{Started, start_success}
use fictional_octo_spork.Shutdown.Spawned.{Begins, start-Begins}
use fictional_octo_spork.Engine.Teardown.{Stopped, stop_lem}
use fictional_octo_spork.Core
use fictional_octo_spork.Core.{EngineHandle, handle, handle_stop, status}
use fictional_octo_spork.Core.Ownership.{Owned, start_lem, Ended, start-stop}
use fictional_octo_spork.Core.Cancelled.{Stuck, given, performs, any_stop, stays_taken}
use fictional_octo_spork.Core.History.{Event, start_call, handle_call, task_end, perform}
use fictional_octo_spork.Ffi.{Codec, Caller, as_u16, ff_vpn_start, jni_start}
use fictional_octo_spork.Text.Utf8.{is_utf8}
use fictional_octo_spork.Ffi.Android.Starts.{readable, SameStart, starts-Agree}
use fictional_octo_spork.Ffi.Android.{Agree, platforms-Agree}
use fictional_octo_spork.Ffi.Strings.{
  Heap, string_at, Malloc, Use, asks_status, asks_token, frees, frees_null, uses, strings_owned,
}
use fictional_octo_spork.Ffi.Descriptors.{closed_with, ff_vpn_start-closes}
use fictional_octo_spork.Tests.Samples.{
  willing, port_taken, fresh, last_value, some_config, some_context,
}

abbrev channels : Channels last_value
channels = record { at = λ i. false; next = 0 }

abbrev pub before : World willing
before = fresh willing false

abbrev stuck : World port_taken
stuck = fresh port_taken false

-- The DNS port is taken.
failure :
    (e : Error) × (Engine.start port_taken some_config some_context stuck
      ≡ (err e, (Engine.start port_taken some_config some_context stuck).1))
unfolding Engine.start Runtime.new_random random_local_port main_engine_config spawn_dns_proxy
failure = (_, refl)

start_failure_example :
    Abandoned port_taken stuck (Engine.start port_taken some_config some_context stuck).1
start_failure_example = start_failure port_taken some_config some_context stuck failure.1

pub success :
    (e : Engine) × (Engine.start willing some_config some_context before
      ≡ (ok e, (Engine.start willing some_config some_context before).1))
unfolding Engine.start Runtime.new_random random_local_port main_engine_config spawn_dns_proxy
    build_doh_client
success = (_, refl)

start_success_example :
    Started willing some_context before success.0
      (Engine.start willing some_config some_context before).1
start_success_example = start_success willing some_config some_context before success.1

start-Begins_example :
    Begins willing before success.0 (Engine.start willing some_config some_context before).1
start-Begins_example = start-Begins willing some_config some_context before success.1

stop_lem_example :
    Stopped willing success.0
      (Engine.start willing some_config some_context before).1
      (Engine.stop willing success.0 (Engine.start willing some_config some_context before).1)
stop_lem_example =
    stop_lem willing success.0 (Engine.start willing some_config some_context before).1

start_lem_example :
    Owned port_taken some_context stuck
      (Core.start port_taken some_config some_context stuck).0
      (Core.start port_taken some_config some_context stuck).1
start_lem_example = start_lem port_taken some_config some_context stuck

core_success :
    (h : EngineHandle) × (Core.start willing some_config some_context before
      ≡ (ok h, (Core.start willing some_config some_context before).1))
unfolding Core.start Engine.start Runtime.new_random random_local_port main_engine_config
    spawn_dns_proxy build_doh_client
core_success = (_, refl)

start-stop_example :
    Ended willing before
      (Core.stop willing (Core.start willing some_config some_context before).1).1
start-stop_example = start-stop willing some_config some_context before core_success.1

abbrev running : World willing
running = record before { slot = some success.0 }

-- The handle stops the engine, a start fails, and a task of the engine ends.
abbrev no_stop : List Event
no_stop = start_call some_config some_context ∷ task_end success.0.token ∷ []

stays_taken_example :
    let w' = performs willing no_stop (perform willing (handle_call (handle success.0)) running) in
    Stuck willing success.0 running w' (given no_stop)
    × (status willing w' ≡ success.0.status)
    × ((Core.start willing some_config some_context w').0 ≡ err already_running)
unfolding any_stop
stays_taken_example =
    stays_taken willing running success.0 (handle_call (handle success.0)) no_stop some_config
      some_context refl (inl refl) refl

abbrev codec : Codec
codec = record { read_config = λ t. good some_config; write_status = λ s. good (text "{}") }

abbrev caller : Caller willing codec
caller = record { world = before; last_err = none }

ff_vpn_start-closes_example :
    let (result, c') =
      ff_vpn_start willing codec
        (some (text "{}"))
        none
        (pos 7)
        (some (text "10.0.0.2"))
        1500
        caller in
    c'.world.closed ≡ [] ++ closed_with (pos 7) result
ff_vpn_start-closes_example =
    ff_vpn_start-closes willing codec (some (text "{}")) none (pos 7) (some (text "10.0.0.2")) 1500
      caller

-- A Java MTU of more than 16 bits.
starts-Agree_example :
    SameStart willing codec caller
      (ff_vpn_start willing codec
        (some (text "{}"))
        (some (text "/data"))
        (pos 7)
        (some (text "10.0.0.2"))
        (as_u16 (pos 67036))
        caller)
      (jni_start willing codec
        (good (text "{}"))
        (good (text "/data"))
        (pos 7)
        (good (text "10.0.0.2"))
        (pos 67036)
        before)
unfolding text is_utf8
starts-Agree_example =
    starts-Agree willing codec (pos 7) (pos 67036) caller (readable refl) (readable refl)
      (readable refl)

as_u16_wraps : as_u16 (pos 67036) ≡ 1500
unfolding as_u16
as_u16_wraps = refl

abbrev no_strings : Text → Reported Text
no_strings t = failed (text "out of memory")

-- The environment refuses to make a string.
platforms-Agree_example : Agree willing codec no_strings caller
platforms-Agree_example = platforms-Agree willing codec no_strings caller tt

-- An allocator that never looks for a gap.
above : Heap → ℕ
above [] = 1
above ((p, s) ∷ h) = 1 + (p + above h)

above-free : (h : Heap) (p : ℕ) → above h ≤ p → string_at p h ≡ none
unfolding above string_at
above-free [] p le = refl
above-free ((q, s) ∷ h) p le =
    let rest = above-free h p (omega arith) in
    let other : (p == q) ≡ false = ground arith in rw other rest

abbrev bump : Malloc
bump = record { address = above; address-new = λ h. above-free h (above h) (omega arith) }

abbrev wishes : List Use
wishes = asks_status ∷ asks_token ∷ frees 1 ∷ frees_null ∷ asks_token ∷ frees 7 ∷ []

strings_owned_example :
    let y = uses willing codec bump wishes (record { caller = caller; heap = []; owned = [] }) in
    (y.heap ≡ y.owned) × All (λ e. string_at e.0 y.heap ≡ some e.1) y.owned
strings_owned_example = strings_owned willing codec bump wishes caller
