-- ===== src/Flow/Joining.antt =====
-- daemon/src/main.cpp and packet_hunter/src/main.cpp: how `main` ends its receiver thread. It leaves
-- its loop, sends the unsubscription of its client, and joins the thread, which reads what the kernel
-- module sends; the module goes on with the packets and with the commands of others.

pub mod Waiting
pub mod Invariant
pub mod Steps
pub mod Returning
pub mod Settling
pub mod Blocked
use hut_karish.Prelude.{
  ℕ, suc, ◌≡◌, Bool, true, false, List, [], ◌∷◌, ◌++◌, Option, none, some, ◌>>=◌, drop,
  if◌then◌else◌,
}
use hut_karish.Packet.{PcktInfo, is_stop}
use hut_karish.Kernel.State.{Env, Kernel}
use hut_karish.Kernel.Clients.{Client, unsubscribe_of}
use hut_karish.Kernel.Commands.{nl_recv_msg}
use hut_karish.Kernel.Stop.{says}
use hut_karish.Kernel.Run
use hut_karish.Kernel.Run.{Event}
use hut_karish.Flow.Watch.{inbox, IsQuiet, Watching}

-- Where recvPacketInfoThread stands: at its loop's test, in `recv`, and at its end.
pub data ListenerPc : Type 0 where
  testing receiving ended : ListenerPc

-- Where `main` stands: in its loop, at the sending of the unsubscription, in `join`, after it, or
-- terminated, as the thread goes out of scope unjoined.
pub data MainPc : Type 0 where
  looping unsubscribing joining joined terminated : MainPc

-- The socket has what the module sent to the process, of which `taken` messages were received;
-- `pushed` went to the queue.
pub record System : Type 0 where
  pub running : Bool
  pub kernel : Kernel
  pub taken : ℕ
  pub pushed : List PcktInfo
  pub listener : ListenerPc
  pub main : MainPc

-- What waits in the socket of the process `d`.
abbrev pub waiting : ℕ → System → List PcktInfo
waiting d s = drop s.taken (inbox d s.kernel.sent)

-- A message is received: the thread breaks at an order to stop, and pushes any other.
abbrev pub takes : (stop : Bool) → PcktInfo → System → System
takes true m s = record s { taken = suc s.taken; listener = ListenerPc.ended }
takes false m s = record s {
  taken = suc s.taken;
  pushed = s.pushed ++ m ∷ [];
  listener = ListenerPc.testing;
}

-- `recv` gives the first message that waits; none while it blocks.
abbrev pub receive : List PcktInfo → System → Option System
receive [] s = none
receive (m ∷ ms) s = some (takes (is_stop m) m s)

-- What the receiver thread does by itself; none where it waits or has ended.
unfoldable pub listener_move : ℕ → ListenerPc → System → Option System
listener_move d ListenerPc.testing s =
    some (record s { listener = if s.running then ListenerPc.receiving else ListenerPc.ended })
listener_move d ListenerPc.receiving s = receive (waiting d s) s
listener_move d ListenerPc.ended s = none

-- What `main` does by itself. The kernel works on a message before `sendMessage` returns.
unfoldable pub main_move : Env → Client → ℕ → MainPc → System → Option System
main_move e c d MainPc.looping s =
    some (record s { main = if s.running then MainPc.looping else MainPc.unsubscribing })
main_move e c d MainPc.unsubscribing s = nl_recv_msg e (says d (unsubscribe_of c)) s.kernel >>= λ k.
    some (record s { kernel = k; main = MainPc.joining })
main_move e c d MainPc.joining s = elim s.listener [
  | ListenerPc.ended ↦ some (record s { main = MainPc.joined })
  | _ ↦ none
]
main_move e c d MainPc.joined s = none
main_move e c d MainPc.terminated s = none

-- Until `main` has sent its unsubscription, nobody else sends it, and the other commands come from
-- other processes.
abbrev pub IsAllowed : Client → ℕ → MainPc → Event → Type 0
IsAllowed c d MainPc.looping ev = IsQuiet c d ev
IsAllowed c d MainPc.unsubscribing ev = IsQuiet c d ev
IsAllowed c d _ ev = Unit {0}

-- handleSignal; the packet hunter does the same where the daemon is gone.
abbrev pub handle_signal : System → System
handle_signal s = record s { running = false }

-- A step of one of the two, or of the rest of the world: a signal or, in the packet hunter, a daemon
-- that is gone; in the packet hunter, a query that fails; a message that cannot be sent; a `recv` that
-- fails; a command or a packet that the module works on.
pub data Step (e : Env) (c : Client) (d : ℕ) (s : System) : System → Type 0 where
  listens : {t : System} → listener_move d s.listener s ≡ some t → Step e c d s t
  mains : {t : System} → main_move e c d s.main s ≡ some t → Step e c d s t
  stops : Step e c d s (handle_signal s)
  breaks :
      c ≡ Client.packet_hunter
      → s.main ≡ MainPc.looping
      → Step e c d s (record s { main = MainPc.unsubscribing })
  unsent : s.main ≡ MainPc.unsubscribing → Step e c d s (record s { main = MainPc.terminated })
  fails :
      s.listener ≡ ListenerPc.receiving → Step e c d s (record s { listener = ListenerPc.testing })
  happens :
      (ev : Event) {k : Kernel}
      → IsAllowed c d s.main ev
      → Run.step e ev s.kernel ≡ some k
      → Step e c d s (record s { kernel = k })

-- As the thread is started, after the subscription.
abbrev pub begun : Bool → Kernel → System
begun running k = record {
  running = running;
  kernel = k;
  taken = 0;
  pushed = [];
  listener = ListenerPc.testing;
  main = MainPc.looping;
}

pub data Reach (e : Env) (c : Client) (d : ℕ) : System → Type 0 where
  start : (running : Bool) (k : Kernel) → Watching c d [] k → Reach e c d (begun running k)
  next : {s t : System} → Reach e c d s → Step e c d s t → Reach e c d t
