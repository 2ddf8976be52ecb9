-- ===== src/Dns/Loop/Tasks/Met.antt =====
-- `run` of dns.rs: the requests of the tasks that have ended are answered as the run says.
use mathlib.Core.List.{Mem, mem-cons_of_mem, mem-cons_self}
use fictional_octo_spork.Prelude.{
  Option, none, some, Bool, true, false, if◌then◌else◌, pull, List, [], ◌∷◌, All, All-append,
}
use fictional_octo_spork.Text.{Bytes, Text}
use fictional_octo_spork.Failure.{Reported}
use fictional_octo_spork.Net.{SocketAddr}
use fictional_octo_spork.Dns.Forward.{Post, Reqwest}
use fictional_octo_spork.Dns.Loop.Tasks.{
  Query, Step, cancelled, recv_error, datagram, finishes, Proxy, spawn_reply, reply_task, step,
  steps, networks,
}

module _ (reqwest : Reqwest) (servfail : Bytes → Option Bytes) (doh_url : Text) where
  module _ (outcomes : List (Post → Reported reqwest.Response)) where
    abbrev pub AllMet : Proxy reqwest → Type 0
    AllMet p = All (λ a. Mem a.send outcomes) p.answered

    reply_task-AllMet :
        (o : Option Query) (send : Post → Reported reqwest.Response) (p : Proxy reqwest)
        → Mem send outcomes
        → AllMet p
        → AllMet (reply_task reqwest servfail doh_url o send p)
    unfolding reply_task
    reply_task-AllMet none send p met k = k
    reply_task-AllMet (some q) send p met k =
        All-append (λ a. Mem a.send outcomes) p.answered _ k (met, tt)

    datagram-AllMet :
        (b : Bool) (payload : Bytes) (peer : SocketAddr) (p : Proxy reqwest)
        → AllMet p
        → AllMet (if b then p else spawn_reply reqwest servfail doh_url payload peer p)
    unfolding spawn_reply
    datagram-AllMet true payload peer p k = k
    datagram-AllMet false payload peer p k = k

    pub steps-AllMet :
        (ss : List (Step reqwest)) (p : Proxy reqwest)
        → ((send : Post → Reported reqwest.Response)
            → Mem send (networks reqwest ss)
            → Mem send outcomes)
        → AllMet p
        → AllMet (steps reqwest servfail doh_url ss p)
    unfolding steps step networks
    steps-AllMet [] p f k = k
    steps-AllMet (cancelled ∷ ss) p f k = steps-AllMet ss (record p { ended = true }) f k
    steps-AllMet (recv_error m ∷ ss) p f k = steps-AllMet ss p f k
    steps-AllMet (datagram payload peer ∷ ss) p f k =
        steps-AllMet ss _ f (datagram-AllMet p.ended payload peer p k)
    steps-AllMet (finishes place send ∷ ss) p f k =
        let (q, rest) = pull place p.pending in
        steps-AllMet ss _ (λ s m. f s (mem-cons_of_mem _ m))
          (reply_task-AllMet q send (record p { pending = rest }) (f send mem-cons_self) k)
