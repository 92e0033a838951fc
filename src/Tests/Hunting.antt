-- ===== src/Tests/Hunting.antt =====
-- From the packets that the kernel sees to the map of the packet hunter, at concrete inputs.
use mathlib.Core.List.{Permᴰ, reverse}
use mathlib.Core.List.Permᴰ
use hut_karish.Prelude.{
  ◌++◌, ◌≡◌, refl, sym, subst, true, false, map, List, [], ◌∷◌, some, arith, Returns, All, text_eq,
}
use hut_karish.Packet.{InRange, PcktInfo, is_stop}
use hut_karish.NetLink.Wire.{receive_packet_info-message_of}
use hut_karish.Kernel.State.{init}
use hut_karish.Kernel.Clients.{Client}
use hut_karish.Kernel.Commands.{daemon_subscribe}
use hut_karish.Kernel.Hook.{parse_packet}
use hut_karish.Kernel.Run.{Event, command, packet, run}
use hut_karish.Kernel.Reporting.{info}
use hut_karish.Kernel.Stop.{says}
use hut_karish.Kernel.Widths.{EventFits}
use hut_karish.Receiver.Delivery.{round_of, infos}
use hut_karish.Hunter.Hunted.{arrived, is_covered}
use hut_karish.Hunter.PacketMap.{contains_packet}
use hut_karish.Hunter.Save.{entries}
use hut_karish.Hunter.Threads.{receives, loops, run_threads, started, shared_of}
use hut_karish.Hunter.Reordered.{
  Act, happens, rehashes, events_of, run_acts, IsRehash, Reordered, run_acts-Reordered,
}
use hut_karish.Flow.Watch.{inbox, reports, IsQuiet}
use hut_karish.Flow.Reception.{received_from}
use hut_karish.Flow.Session.{session}
use hut_karish.Flow.Hunting.{Turn, receiver, loops_with, woven, receivers, Traced, run-Traced}
use hut_karish.Flow.Joint.{
  Joint, receiving, looping_with, run_joint, PortFits, IsJoint, AnsweredBy, event_of,
}
use hut_karish.Flow.Pids.{run_joint-Answered}
use hut_karish.Tests.Kernel.{working, working-IsWorking, datagram}
use hut_karish.Tests.NetLink.{segment, noise}
use hut_karish.Tests.Scan.{mapped}
use hut_karish.Tests.Flow.{working-IsBytes, silence, empty, later_found, since_start}
use hut_karish.Tests.Endings.{client, round}

-- The daemon subscribes between two packets.
abbrev traffic : List Event
traffic = packet (some datagram) ∷ command (says 43 daemon_subscribe) ∷ packet (some datagram) ∷ []

traffic-IsQuiet : All (IsQuiet Client.packet_hunter 42) traffic
unfolding text_eq
traffic-IsQuiet = (tt, ((refl, omega arith), (tt, tt)))

traffic_fits : All EventFits traffic
traffic_fits = ((omega arith, omega arith), (tt, ((omega arith, omega arith), tt)))

traffic_plain : All (λ r. is_stop (info r) ≡ false) (reports working traffic)
unfolding parse_packet is_stop
traffic_plain = (refl, (refl, tt))

abbrev turns : List Turn
turns = receiver ∷ loops_with round ∷ receiver ∷ loops_with round ∷ []

run-Traced_example : Returns (run working (session Client.packet_hunter 42 7 traffic) init) (λ k.
    Traced
      (receivers turns)
      (reports working traffic)
      (run_threads client (woven turns (received_from silence 0 (inbox 42 k.sent) ++ [])) started))
run-Traced_example =
    run-Traced working working-IsWorking 42 (omega arith) working-IsBytes 7 traffic silence client
      turns [] traffic-IsQuiet traffic_fits traffic_plain

abbrev web : PcktInfo
web = record segment { dst_port = 8080 }

web-InRange : InRange web
web-InRange = omega arith

-- A packet comes, and the packet hunter asks for its port.
abbrev hunt : List Joint
hunt = receiving (round_of web noise []) ∷ looping_with mapped ∷ []

hunt-IsJoint : All IsJoint hunt
hunt-IsJoint = (
  subst PortFits (sym (receive_packet_info-message_of web noise [] web-InRange)) (omega arith),
  ((empty, later_found, since_start), tt),
)

run_joint-Answered_example :
    let t = run_joint client hunt started in
    (t.looping ≡ true)
    × AnsweredBy hunt t.hunter.printed
    × ((popped : List PcktInfo) × (popped ++ infos (shared_of t) ≡ arrived true (map event_of hunt))
        × All (λ i. is_covered t.hunter.printed i ≡ true) popped)
run_joint-Answered_example = run_joint-Answered client hunt refl hunt-IsJoint

-- The map is turned around.
abbrev turned : List Act
turned =
    happens (receives (round_of web noise []))
    ∷ happens (loops round)
    ∷ rehashes (λ m. reverse m)
    ∷ happens (receives (round_of segment noise []))
    ∷ happens (loops round)
    ∷ []

turned-IsRehash : All IsRehash turned
turned-IsRehash = (tt, (tt, ((λ m. Permᴰ.symm (Permᴰ.reverse m)), (tt, (tt, tt)))))

run_acts-Reordered_example :
    let t = run_threads client (events_of turned) started in
    let t' = run_acts client turned started in
    Reordered t t'
    × ((new : PcktInfo) → contains_packet new t.hunter.map ≡ contains_packet new t'.hunter.map)
    × Permᴰ (entries t.hunter.map) (entries t'.hunter.map)
run_acts-Reordered_example = run_acts-Reordered client turned turned-IsRehash
