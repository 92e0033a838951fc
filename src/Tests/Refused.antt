-- ===== src/Tests/Refused.antt =====
-- A second packet hunter, at concrete inputs.
use hut_karish.Prelude.{refl, List, [], ◌∷◌, ◌++◌, some, inl, arith, Returns, All, text_eq}
use hut_karish.Kernel.State.{Kernel, init, loaded}
use hut_karish.Kernel.Clients.{Client, subscribe_of, unsubscribe_of}
use hut_karish.Kernel.Commands.{daemon_subscribe}
use hut_karish.Kernel.Reporting.{told}
use hut_karish.Kernel.Run.{Event, command, packet, run}
use hut_karish.Kernel.Stop.{says}
use hut_karish.Flow.Watch.{inbox}
use hut_karish.Flow.Refused.{IsPatient, HasEnded, run-Refused}
use hut_karish.Tests.Kernel.{working, working-IsWorking, datagram}

-- The process 42 is the packet hunter.
abbrev pub held : Kernel
held = record init {
  statics = record loaded { packet_hunter_subscribed = 1; packet_hunter_pid = 42 };
}

-- The process 50 waits for packets.
abbrev waits : List Event
waits = packet (some datagram) ∷ command (says 43 daemon_subscribe) ∷ packet (some datagram) ∷ []

waits-IsPatient : All (IsPatient Client.packet_hunter 50) waits
unfolding text_eq
waits-IsPatient = (tt, ((refl, inl (omega arith)), (tt, tt)))

run-Refused_example :
    Returns
      (run working
        (command (says 50 (subscribe_of Client.packet_hunter)) ∷ waits
          ++ command (says 50 (unsubscribe_of Client.packet_hunter)) ∷ [])
        held)
      (HasEnded Client.packet_hunter 42 50 (inbox 50 (told held)))
run-Refused_example =
    run-Refused working working-IsWorking Client.packet_hunter 42 50 (omega arith) (omega arith)
      waits held waits-IsPatient refl refl (omega arith)
