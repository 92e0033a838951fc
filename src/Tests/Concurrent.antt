-- ===== src/Tests/Concurrent.antt =====
-- Runs of the kernel module side by side, at concrete inputs.
use hut_karish.Prelude.{ℕ, ◌≡◌, refl, List, [], ◌∷◌, ◌++◌, All}
use hut_karish.Kernel.State.{loaded}
use hut_karish.Kernel.Clients.{Client}
use hut_karish.Kernel.Hook.{Report}
use hut_karish.Kernel.Concurrent.{
  idle, subscribing, posted, unsent, Told, order, client_of, System, moves, subscribes, arrives,
  Reach, begins, next,
}
use hut_karish.Prelude.{text_eq, some}
use hut_karish.Kernel.State.{init}
use hut_karish.Kernel.Commands.{nl_recv_msg}
use hut_karish.Kernel.Run.{command}
use hut_karish.Kernel.Concurrent.Alone as Alone
use hut_karish.Kernel.Concurrent.Sequential.{Agrees, step-Agrees}
use hut_karish.Tests.Kernel.{working, subscribed, subscription}
use hut_karish.Kernel.Concurrent.Addressed.{Reach-Known}
use hut_karish.Kernel.Concurrent.Known.{Known}
use hut_karish.Kernel.Concurrent.Deaf.{IsDeaf, PassesBy}
use hut_karish.Kernel.Concurrent.Lost.{Since, now, later, Since-IsDeaf}

abbrev seen : Report
seen = record { src_ip = 1; dst_ip = 2; src_port = 3; dst_port = 8080; proto = 0; size = 40 }

-- The process 42 subscribes as the daemon while the hook works on a packet: the flag is tested after
-- it was set, and the pid before it is.
abbrev told : (s : System) × Reach s
told =
    let marked =
      next (next (next begins (subscribes 0 Client.daemon 42 refl)) (moves 0 posted))
        (moves 0 posted) in
    let looked =
      next (next (next marked (arrives 1 seen refl)) (moves 1 posted)) (moves 0 posted) in
    (_, next (next looked (moves 1 posted)) (moves 1 posted))

Reach-Known_example : All (λ m. Known told.0.asked (client_of m.1) m.0) told.0.sent
Reach-Known_example = Reach-Known told.1

-- The daemon counts as subscribed, and its pid was reset.
abbrev unclaimed : System
unclaimed = record {
  statics = record loaded { daemon_subscribed = 1 };
  pc = λ i. idle;
  sent = (0, order Client.daemon) ∷ [];
  asked = (Client.daemon, 42) ∷ [];
}

unclaimed-IsDeaf : IsDeaf Client.daemon unclaimed
unclaimed-IsDeaf = record { flag = refl; pid = refl; harmless = λ i. refl }

-- It subscribes again, and a packet comes.
abbrev again : (t : System) × Since Client.daemon unclaimed t
again =
    let asked = later (later now (subscribes 2 Client.daemon 42 refl) tt) (moves 2 posted) tt in
    (
      _,
      later (later (later asked (arrives 3 seen refl) tt) (moves 3 posted) tt) (moves 3 unsent) tt,
    )

Since-IsDeaf_example :
    IsDeaf Client.daemon again.0
    × ((new : List (ℕ × Told)) × (again.0.sent ≡ new ++ unclaimed.sent)
        × All (PassesBy Client.daemon) new)
Since-IsDeaf_example = Since-IsDeaf unclaimed-IsDeaf again.1

-- The daemon's subscription, as a run of steps by itself.
asks_to_subscribe : nl_recv_msg working (some subscription) init ≡ some subscribed
unfolding nl_recv_msg text_eq
asks_to_subscribe = refl

step-Agrees_example : Agrees (subscribing Client.daemon 42) init subscribed
step-Agrees_example =
    step-Agrees working (command (some subscription)) (subscribing Client.daemon 42) init subscribed
      (Alone.subscription Client.daemon 42) asks_to_subscribe
