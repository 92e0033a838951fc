-- ===== src/Flow/Recording.antt =====
-- From the packets that the kernel sees to the map of the daemon.
use hut_karish.Prelude.{ℕ, ◌≡◌, List, [], ◌∷◌, ◌++◌, map, some}
use hut_karish.Packet.{PcktInfo}
use hut_karish.Kernel.State.{Kernel}
use hut_karish.Kernel.Hook.{Report}
use hut_karish.Kernel.Reporting.{info}
use hut_karish.Kernel.Run.{Event as Happening}
use hut_karish.Receiver.{Round}
use hut_karish.Receiver.Delivery.{infos}
use hut_karish.Scan.Ports.{PortMap, Proc}
use hut_karish.Daemon.Calls.{map_after}
use hut_karish.Daemon.Loop.{Daemon, Event, receives, pops, handles}
use hut_karish.Daemon.Memory.{IsReadable}
use hut_karish.Daemon.Arrivals.{in_hand, call_of}
use hut_karish.Prelude.{suc, take}
use hut_karish.Flow.Session.{unpaid}

-- Whose turn it is in the daemon: the receiver's, with its next datagram, or the main loop's.
pub data Turn : Type 0 where
  receiver : Turn
  pops_next : Turn
  handles_with : Proc → Turn

-- The events of the daemon. Without a datagram the receiver waits.
abbrev pub woven : List Turn → List Round → List Event
woven [] rs = []
woven (receiver ∷ ts) [] = woven ts []
woven (receiver ∷ ts) (r ∷ rs) = receives r ∷ woven ts rs
woven (pops_next ∷ ts) rs = pops ∷ woven ts rs
woven (handles_with proc ∷ ts) rs = handles proc ∷ woven ts rs

-- No scan of /proc throws.
abbrev pub IsSmooth : Turn → Type 0
IsSmooth receiver = Unit {0}
IsSmooth pops_next = Unit {0}
IsSmooth (handles_with proc) = IsReadable proc

-- How many turns the receiver has had.
abbrev pub receivers : List Turn → ℕ
receivers [] = 0
receivers (receiver ∷ ts) = suc (receivers ts)
receivers (pops_next ∷ ts) = receivers ts
receivers (handles_with proc ∷ ts) = receivers ts

-- The map is what the calls for `done` make of `m`; and the packets of `done`, the one in hand and
-- those of the queue are those of the first `n` of the reports `rs`.
pub record Recorded (m : PortMap) (n : ℕ) (rs : List Report) (t : Daemon) : Type 0 where
  pub done : List (PcktInfo × Proc)
  pub called : map_after (map call_of done) m ≡ some t.map
  pub in_order :
      map unpaid (map (λ c. c.0) done ++ (in_hand t ++ infos t.shared)) ≡ take n (map info rs)
