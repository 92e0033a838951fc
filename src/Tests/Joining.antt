-- ===== src/Tests/Joining.antt =====
-- The end of the packet hunter's receiver thread, at concrete inputs.
use hut_karish.Prelude.{◌+◌, ◌≤◌, ◌≡◌, ◌⊎◌, refl, true, false, [], ◌∷◌, none, some, arith, text_eq}
use hut_karish.Packet.{proto_udp}
use hut_karish.Kernel.State.{Env, loaded}
use hut_karish.Kernel.Clients.{Client}
use hut_karish.Kernel.Commands.{nl_recv_msg}
use hut_karish.Kernel.Messages.{create_message, send_packet_info_to_user, send_stop_msg, filled}
use hut_karish.Kernel.Hook.{
  parse_packet, notify, notify_hunter, notify_clients, packet_sniffer_hook, line_of,
}
use hut_karish.Kernel.Run.{packet}
use hut_karish.Flow.Watch.{Watching}
use hut_karish.Flow.Joining.{
  ListenerPc, MainPc, System, listener_move, main_move, listens, mains, breaks, fails, happens,
  Reach, start, next,
}
use hut_karish.Flow.Joining.Waiting.{to_come}
use hut_karish.Flow.Joining.Returning.{Progresses, listener_run, steps_left, listener_joins}
use hut_karish.Flow.Joining.Settling.{Later, now, later, listener_settles}
use hut_karish.Flow.Joining.Blocked.{IsUndelivered, break_blocks}
use hut_karish.Tests.Kernel.{garbage, working, working-IsWorking, datagram, report}
use hut_karish.Tests.Refused.{held}

held-Watching : Watching Client.packet_hunter 42 [] held
held-Watching = record { subscribed = refl; pid = refl; apart = omega arith; heard = refl }

-- A packet came, and a query of the daemon failed; the thread is in `recv`.
abbrev waits : System
waits = record {
  running = true;
  kernel = record {
    statics = loaded;
    calls = 8;
    messages = 0;
    skbs = 0;
    sent = (42, filled garbage 100 200 53 4660 proto_udp) ∷ (42, filled garbage 0 0 0 0 0) ∷ [];
    logged = line_of report ∷ [];
  };
  taken = 0;
  pushed = [];
  listener = ListenerPc.receiving;
  main = MainPc.joining;
}

waits-Reach : Reach working Client.packet_hunter 42 waits
unfolding listener_move main_move nl_recv_msg text_eq send_stop_msg create_message
    send_packet_info_to_user packet_sniffer_hook parse_packet notify_clients notify_hunter notify
    line_of
waits-Reach =
    let came = next (start true held held-Watching) (happens (packet (some datagram)) tt refl) in
    let broken = next (next came (listens refl)) (breaks refl refl) in next broken (mains refl)

listener_joins_example :
    Progresses 42 waits
    × ((listener_run 42 (to_come 42 0 waits.kernel + to_come 42 0 waits.kernel + 1) waits).listener
        ≡ ListenerPc.ended)
listener_joins_example =
    listener_joins working working-IsWorking Client.packet_hunter 42 (omega arith) waits-Reach refl

-- `recv` fails once.
abbrev failed : System
failed = record waits { listener = ListenerPc.testing }

fails_once : Later working Client.packet_hunter 42 waits 0 1 failed
fails_once = later now (fails refl)

listener_settles_example :
    (0 + steps_left 42 failed ≤ steps_left 42 waits + 1)
    × ((failed.main ≡ MainPc.joining)
        ⊎ ((failed.main ≡ MainPc.joined) × (failed.listener ≡ ListenerPc.ended)))
listener_settles_example =
    listener_settles working working-IsWorking Client.packet_hunter 42 (omega arith) waits-Reach
      refl fails_once

-- The netlink buffer of the packet hunter is full.
abbrev full : Env
full = record working { netlink_unicast = λ n. false }

full-IsUndelivered : IsUndelivered full held
full-IsUndelivered = record { memory = garbage; allocates = refl; refuses = refl }

break_blocks_example :
    (s : System) × Reach full Client.packet_hunter 42 s
    × (s.main ≡ MainPc.joining)
    × (listener_move 42 s.listener s ≡ none)
    × (main_move full Client.packet_hunter 42 s.main s ≡ none)
    × (s.kernel.packet_hunter_subscribed ≡ 0)
break_blocks_example = break_blocks full 42 held held-Watching full-IsUndelivered
