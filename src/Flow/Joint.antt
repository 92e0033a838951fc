-- ===== src/Flow/Joint.antt =====
-- The packet hunter with the daemon that answers it.
use hut_karish.Prelude.{ℕ, ◌^◌, ◌<◌, ◌≡◌, true, List, [], ◌∷◌, map, Option, none, some}
use hut_karish.Prelude.Int.{ℤ}
use hut_karish.Packet.{PcktInfo}
use hut_karish.Heap.{Pckt}
use hut_karish.NetLink.Wire.{receive_packet_info}
use hut_karish.Receiver.{Round as Reception}
use hut_karish.Scan.Ports.{PortMap, Proc}
use hut_karish.Daemon.Calls.{Call, map_since}
use hut_karish.Daemon.PortToPidMap.{get_pid}
use hut_karish.Daemon.Pids.{pid_bytes}
use hut_karish.Daemon.Clients.{reply, answer_rounds}
use hut_karish.Hunter.Client.{UnixSocketClient, wrote}
use hut_karish.Hunter.Loop.{Round}
use hut_karish.Hunter.Threads.{Hunt, Event, receives, loops, run_threads}
use hut_karish.Flow.Query.{reads, IsReply}

abbrev pub bytes_of_answer : List ℤ → Option (List ℕ)
bytes_of_answer [] = none
bytes_of_answer (pid ∷ pids) = some (pid_bytes pid)

-- A round of the main loop while the daemon runs and has the map `m`: the daemon reads what the packet
-- hunter sent, and the packet hunter reads what the daemon sends for it.
unfoldable pub served : PortMap → Round
unfolding answer_rounds
served m = record {
  running = true;
  answers = true;
  sent = wrote 2;
  bytes = λ sent. bytes_of_answer (answer_rounds (reads sent m ∷ []));
}

-- A round of the receiver, or one of the main loop with the map that the daemon has then.
pub data Joint : Type 0 where
  receiving : Reception → Joint
  looping_with : PortMap → Joint

abbrev pub event_of : Joint → Event
event_of (receiving r) = receives r
event_of (looping_with m) = loops (served m)

unfoldable pub run_joint : UnixSocketClient → List Joint → Hunt → Hunt
run_joint c js t = run_threads c (map event_of js) t

-- The map of a daemon that has run for some time.
abbrev pub IsDaemonMap : PortMap → Type 0
IsDaemonMap m = (first : Proc) × (calls : List Call) × (map_since first calls ≡ some m)

-- Ports that are received have 16 bits.
abbrev pub PortFits : Option PcktInfo → Type 0
PortFits none = Unit {0}
PortFits (some info) = info.dst_port < 2 ^ 16

abbrev pub IsJoint : Joint → Type 0
IsJoint (receiving r) = PortFits (receive_packet_info r.datagram r.buffer)
IsJoint (looping_with m) = IsDaemonMap m

-- Each packet that was printed, in order, was printed in a round of its own, with what the map that the
-- daemon had in this round gives for the destination port.
pub data AnsweredBy : List Joint → List (ℤ × Pckt) → Type 0 where
  nothing : AnsweredBy [] []
  silent :
      {j : Joint} {js : List Joint} {ps : List (ℤ × Pckt)}
      → AnsweredBy js ps
      → AnsweredBy (j ∷ js) ps
  printed_with :
      {m : PortMap} {js : List Joint} {pid : ℤ} {p : Pckt} {ps : List (ℤ × Pckt)}
      → pid ≡ reply (get_pid p.info.dst_port m)
      → IsReply pid
      → AnsweredBy js ps
      → AnsweredBy (looping_with m ∷ js) ((pid, p) ∷ ps)
