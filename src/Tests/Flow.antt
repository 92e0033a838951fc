-- ===== src/Tests/Flow.antt =====
-- From the packets that the kernel sees to the queue of the daemon, at concrete inputs.
use hut_karish.Prelude.{false, ◌++◌, ◌≡◌, refl, false, map, List, [], ◌∷◌, some, arith, Returns}
use hut_karish.Heap.{no_heap}
use hut_karish.Queue.{new}
use hut_karish.Packet.{is_stop}
use hut_karish.Kernel.State.{init}
use hut_karish.Kernel.Commands.{packet_hunter_subscribe}
use hut_karish.Kernel.Hook.{parse_packet}
use hut_karish.Kernel.Run.{Event, command, packet, run}
use hut_karish.Kernel.Reporting.{info}
use hut_karish.Kernel.Stop.{says}
use hut_karish.Kernel.Widths.{IsBytes, EventFits}
use hut_karish.Prelude.{All, text_eq}
use hut_karish.Receiver.{Shared, recv_packet_info_thread}
use hut_karish.Receiver.Delivery.{infos}
use hut_karish.Kernel.Clients.{Client}
use hut_karish.Flow.Watch.{inbox, reports, IsQuiet}
use hut_karish.Flow.Reception.{Noise, received_from}
use hut_karish.Flow.Session.{unpaid, session}
use hut_karish.Flow.Arrival.{packets_arrive}
use hut_karish.Prelude.{true}
use hut_karish.Prelude.Int.{pos}
use hut_karish.Prelude.Assoc.{assign}
use hut_karish.Packet.{proto_tcp}
use hut_karish.Scan.Regex.{regex_search, submatch}
use hut_karish.Scan.Numbers.{stoul_16, stoi, hex_number, hex_digit, hex_value}
use hut_karish.Scan.Lines.{parse_listening_sockets}
use hut_karish.Scan.Links.{link_names}
use hut_karish.Scan.Processes.{find_pid_by_sock_inode}
use hut_karish.Scan.Ports.{Proc, initialize_port_pid_map, scan_for_pid_by_port}
use hut_karish.Daemon.PortToPidMap.{port_to_pid_map, add_pid_mapping, get_pid}
use hut_karish.Daemon.Calls.{Call, map_after, map_since}
use hut_karish.Daemon.Pids.{pid_bytes}
use hut_karish.Daemon.Clients.{reply, answer_rounds}
use hut_karish.Hunter.Client.{UnixSocketClient, receive_pid}
use hut_karish.Flow.Query.{asks, IsReply, query_answered}
use hut_karish.Tests.Scan.{proc, mapped}
use hut_karish.Flow.Recording.{Turn, receiver, pops_next, handles_with}
use hut_karish.Tests.Daemon.{quiet}
use hut_karish.Tests.NetLink.{noise}
use hut_karish.Tests.Kernel.{working, working-IsWorking, datagram, report}

pub working-IsBytes : IsBytes working
working-IsBytes = record { memory_fits = λ n m h. ground arith; port_fits = λ p. omega arith }

-- The packet hunter subscribes between two packets.
abbrev pub traffic : List Event
traffic =
    packet (some datagram) ∷ command (says 43 packet_hunter_subscribe) ∷ packet (some datagram) ∷ []

traffic-IsQuiet : All (IsQuiet Client.daemon 42) traffic
unfolding text_eq
traffic-IsQuiet = (tt, ((refl, omega arith), (tt, tt)))

traffic_fits : All EventFits traffic
traffic_fits = ((omega arith, omega arith), (tt, ((omega arith, omega arith), tt)))

reports-traffic : reports working traffic ≡ report ∷ report ∷ []
unfolding parse_packet
reports-traffic = refl

traffic_plain : All (λ r. is_stop (info r) ≡ false) (reports working traffic)
unfolding parse_packet is_stop
traffic_plain = (refl, (refl, tt))

abbrev pub silence : Noise
silence = record { padding = λ n. noise; buffer = λ n. n ∷ [] }

abbrev fresh : Shared
fresh = record { message_queue = new; heap = no_heap }

packets_arrive_example : Returns (run working (session Client.daemon 42 7 traffic) init) (λ k.
    map unpaid
      (infos (recv_packet_info_thread (received_from silence 0 (inbox 42 k.sent) ++ []) fresh))
    ≡ map unpaid (infos fresh) ++ map info (reports working traffic))
packets_arrive_example =
    packets_arrive working working-IsWorking Client.daemon 42 (omega arith) working-IsBytes 7
      traffic silence [] fresh traffic-IsQuiet traffic_fits traffic_plain

-- The receiver takes a packet, the main loop works on it, and the receiver takes the next.
abbrev turns : List Turn
turns = receiver ∷ pops_next ∷ receiver ∷ handles_with quiet ∷ []

-- The daemon starts with an empty map, and finds the process of a packet's port later.
abbrev pub later_found : List Call
later_found = record { proc = proc; port = 8080; protocol = proto_tcp } ∷ []

abbrev pub empty : Proc
empty = record { tcp = []; udp = []; entries = λ n. [] }

pub since_start : map_since empty later_found ≡ some mapped
unfolding map_since map_after port_to_pid_map initialize_port_pid_map add_pid_mapping
    scan_for_pid_by_port parse_listening_sockets regex_search stoul_16 submatch hex_number hex_digit
    hex_value text_eq find_pid_by_sock_inode link_names stoi assign
since_start = refl

abbrev client : UnixSocketClient
client = record { sock_fd = pos 4; is_connected = true; open_fds = 4 ∷ 3 ∷ [] }

query_answered_example :
    let p = reply (get_pid 8080 mapped) in
    (answer_rounds (asks client 8080 mapped ∷ []) ≡ p ∷ [])
    × (receive_pid client (some (pid_bytes p)) ≡ some p)
    × IsReply p
query_answered_example =
    query_answered empty later_found mapped client 8080 since_start refl (omega arith)
