-- ===== src/Daemon/Loop.antt =====
-- daemon/src/main.cpp: the main loop, interleaved with the receiver thread.
-- A fault, or an exception that nobody catches, is `none`.
use hut_karish.Prelude.{
  Bool, true, false, ◌&&◌, List, [], ◌∷◌, Option, none, some, ◌>>=◌, if◌then◌else◌,
}
use hut_karish.Heap.{Pckt, no_heap, free_packet_info}
use hut_karish.Queue.{new, pop}
use hut_karish.NetLink.Wire.{receive_packet_info}
use hut_karish.Receiver.{Shared, Round, receive_round}
use hut_karish.Scan.Ports.{PortMap, Proc}
use hut_karish.Daemon.PortToPidMap.{add_pid_mapping}

-- What the threads share, the map, the packet that the main loop works on, and whether the receiver
-- is still in its loop.
pub record Daemon : Type 0 where
  pub shared : Shared
  pub map : PortMap
  pub pckt : Option Pckt
  pub listening : Bool

-- What the threads do, in the order in which it happens: a round of the receiver, a `pop` of the main
-- loop, and the rest of its round, with /proc as it stands then.
pub data Event : Type 0 where
  receives : Round → Event
  pops : Event
  handles : Proc → Event

unfoldable pub receiver_step : Round → Daemon → Daemon
unfolding receive_round
receiver_step r d =
    if d.listening && r.running
    then (let (continues, shared) =
          receive_round (receive_packet_info r.datagram r.buffer) d.shared in
        record d { shared = shared; listening = continues })
    else record d { listening = false }

-- In the middle of a round there is nothing to pop.
unfoldable pub take_packet : Daemon → Daemon
take_packet d = elim d.pckt [
  | some p ↦ d
  | none ↦ record d {
    pckt = (pop d.shared.message_queue).0;
    shared = record d.shared { message_queue = (pop d.shared.message_queue).1 };
  }
]

unfoldable pub handle_pckt : Proc → Daemon → Option Daemon
handle_pckt proc d = elim d.pckt [
  | none ↦ some d
  | some p ↦ do
    (_, map) ← add_pid_mapping proc p.info.dst_port p.info.proto d.map
    heap ← free_packet_info p d.shared.heap
    some (record d { map = map; pckt = none; shared = record d.shared { heap = heap } })
]

abbrev pub step : Event → Daemon → Option Daemon
step (receives r) d = some (receiver_step r d)
step pops d = some (take_packet d)
step (handles proc) d = handle_pckt proc d

unfoldable pub run_threads : List Event → Daemon → Option Daemon
run_threads [] d = some d
run_threads (ev ∷ evs) d = step ev d >>= run_threads evs

abbrev pub started : PortMap → Daemon
started map = record {
  shared = record { message_queue = new; heap = no_heap };
  map = map;
  pckt = none;
  listening = true;
}
