-- ===== src/Lib.antt =====
-- The VPN core of fictional-octo-spork: rust/core and rust/jni.
--
-- The program brings up a chain: the platform opens a tunnel and passes its file descriptor to `start` (lib.rs),
-- which starts an engine (engine.rs). The engine spawns a pluggable transport (a first instance of Leaf with a
-- SOCKS inbound), Arti with a local SOCKS5 server in front of Tor, a second instance of Leaf from the tunnel to a
-- VLESS server over Arti, a DNS proxy on the tunnel's address, and an IPC server for the user interface. All of them
-- share one cancellation token; a failure on the way drops what was started, and `stop` tears it down.
--
-- Files, each with the source that it models:
--   Prelude, Text, Action      shared names; bytes, UTF-8 and decimal numbers; actions that change a state and may fail
--   Failure                    rust/core/src/error.rs: `Error`, `Result`
--   Util                       rust/core/src/util.rs: `ct_eq`, `random_password`, `FdGuard` (`arm` is `new`, `drop_guard`
--                              is `drop`)
--   Runtime                    rust/core/src/runtime.rs: `SocksEndpoint`, `Cancel` as the number of a watch channel;
--                              Runtime.Wakeup is the future of `cancelled`, Runtime.Endpoints what an endpoint is drawn as
--   Net                        `IpAddr` and `SocketAddr` of the standard library: parsing and printing; Net.Parse.Range is
--                              what parsing can give
--   Config                     rust/core/src/config.rs: `AppConfig::from_json` (`from_raw` follows the decoding); Config.Store
--                              is `fetch`, `save` and `load`, Config.Types the ranges of what is accepted
--   Leaf                       rust/core/src/engine/leaf_config.rs: the documents; Leaf.Route reads the main one back as
--                              the hops that traffic takes, Leaf.Route.Endpoints where they listen and dial
--   Socks                      rust/core/src/engine/arti_runtime.rs: `socks5_handshake`, `socks5_read_request` and, in
--                              Socks.Serve, `handle_socks_conn` up to its two copies, which Socks.Pumps has;
--                              Socks.Clients is the loop of `run` with all its connections
--   Arti                       rust/core/src/engine/arti_runtime.rs: `build_arti_config` and `run` up to its loop (`bring_up`);
--                              Arti.Listener is the loop and `spawn_arti`; Arti.Reaches and Arti.Unable
--                              are how `bring_up` ends
--   Dns                        rust/core/src/dns.rs: the client builder; Dns.Forward is `forward_doh`, Dns.Loop `run`,
--                              Dns.Loop.Tasks `run` with the tasks that it spawns, Dns.Servfail `build_servfail`; Dns.Resolver
--                              reads what the tasks send
--   Ipc                        rust/core/src/ipc.rs: Ipc.Token is `AUTH_TOKEN`, Ipc.Server `spawn_ipc_server`, Ipc.Client
--                              `handle_client`, Ipc.Framing the bytes of its lines and of `send`, Ipc.Sessions the loop
--                              with all its clients, and other starts at the same socket path;
--                              Ipc.Sessions.Lifecycle follows that socket
--   World, Pt, Engine          rust/core/src/engine.rs and rust/core/src/pt: the state that the parts share, the
--                              transport, `Engine::start` and `Engine::stop`; Engine.Wiring is what each task is given
--   Core                       rust/core/src/lib.rs: `start`, `stop`, `status` over the process-wide engine;
--                              Core.History is a call or the end of a task as an event,
--                              Core.Cancelled a cancelled engine under these,
--                              Core.Threads sequences of these from several threads, Core.Orderly what they keep, and
--                              Core.Contract what a platform is promised of them
--   Shutdown                   how the tasks of a running engine end: `run_leaf_with_config` of
--                              rust/core/src/engine/leaf_config.rs, the Arti task, and the loops of rust/core/src/dns.rs and
--                              rust/core/src/ipc.rs, in any interleaving; Shutdown.Stopping is `Engine::stop` beside
--                              them, Shutdown.Spawned compares them with what `Engine::start` spawns
--   Ffi                        rust/core/src/ffi.rs and rust/jni/src/lib.rs: the calls of the platforms;
--                              Ffi.Android is those of JNI beside its `start`, Ffi.Android.Starts compares the two
--                              `start`s, Ffi.Strings the
--                              strings that the C ones hand out
--   Traffic                    what a start brings up, read together: the documents of Leaf, the SOCKS server and the
--                              configuration of Arti at the addresses that the tasks were given
--   Tests                      sample data, and the theorems at concrete inputs
--
-- Numbers are natural numbers; bytes, ports and texts are lists and numbers that the code bounds by their types,
-- and texts are their UTF-8 bytes. The random generator, the operating system and the crates (serde_json, tokio's
-- watch channels and `read_line`, arti_client and its kin, hickory_proto, url, reqwest) are parameters, with what their
-- documentation promises as fields of the parameter. What they answer may differ from call to call. Loops recur on
-- what arrives: the lines of a peer, the datagrams, the wakes of an accept loop. Printing a number takes as many
-- digits as the number needs up to 20, trimming a text as many steps as it has bytes, and reading a document back
-- as many hops as a chain in it has, at most three.
--
-- A call is one sequence of steps: the tasks that it spawns do not run in between, so that an instance of Leaf
-- that ends early, and cancels the token that it shares, acts after the call. Calls from several threads take the
-- lock of the slot one after the other; in Core.Threads other calls may come in where `stop` lets go of it. In
-- Ipc.Sessions, Dns.Loop.Tasks, Socks.Pumps and Socks.Clients what a loop spawns runs beside it, in any order. In
-- Shutdown the tasks interleave, from the moment when all of them are spawned: a move is what one of them does
-- between two awaits. There `leaf::shutdown` makes `leaf::start` return if the runtime was registered before, and does
-- nothing otherwise; which moves are made, and when, is the scheduler's choice. What the loops spawn for their
-- peers (clients of the IPC server, SOCKS connections, replies of the DNS proxy) is not part of Shutdown.
--
-- Not modelled: the bodies of Leaf, of the Tor client and of the HTTP client, log lines, how long a wait is, panics,
-- and pointers that point to nothing; the Tokio runtime that `rt` makes once, and the stand-ins for systems that are
-- not Unix, which do nothing; the user interface and the platforms' own code.
pub mod Prelude
pub mod Text
pub mod Failure
pub mod Action
pub mod Util
pub mod Net
pub mod Socks
pub mod Ipc
pub mod Config
pub mod Runtime
pub mod Leaf
pub mod Dns
pub mod World
pub mod Arti
pub mod Pt
pub mod Engine
pub mod Traffic
pub mod Core
pub mod Shutdown
pub mod Ffi
pub mod Tests
