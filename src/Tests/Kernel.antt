-- ===== src/Tests/Kernel.antt =====
-- kernel_module/sniffer.c at concrete inputs.
use hut_karish.Prelude.{
  arith, ◌+◌, ◌*◌, ◌/◌, ◌%◌, ◌≡◌, ◌↔◌, refl, true, List, [], ◌∷◌, none, some, Returns, text_eq,
}
use hut_karish.Packet.{PcktInfo, proto_udp}
use hut_karish.Kernel.State.{Env, Statics, Kernel, init}
use hut_karish.Kernel.Messages.{create_message, send_packet_info_to_user, send_stop_msg}
use hut_karish.Kernel.Commands.{UserMsg, command_of, nl_recv_msg, daemon_subscribe}
use hut_karish.Kernel.Hook.{
  IpHdr, SkBuff, Verdict, Report, parse_packet, notify, notify_hunter, notify_clients,
  packet_sniffer_hook, line_of,
}
use hut_karish.Kernel.Sending.{send_stop_msg_fault_iff}
use hut_karish.Kernel.Reporting.{Reported, told, addressed, packet_sniffer_hook-Reported}
use hut_karish.Kernel.Delivery.{IsWorking, packet_sniffer_hook-TellsAll}
use hut_karish.Kernel.Registry.{registry, obey, nl_recv_msg-obey}
use hut_karish.Kernel.Run.{Event, command, packet, run, Inv, Inv-init, run-Inv}
use hut_karish.Kernel.Total.{Allocates, run-Returns}
use hut_karish.Kernel.Parsing.{IsSized, Describes, parse_packet_iff}

-- Memory with something in it.
abbrev pub garbage : PcktInfo
garbage = record {
  src_ip = 1;
  dst_ip = 2;
  src_port = 3;
  dst_port = 4;
  payload_size = 77;
  proto = 5;
}

-- A little-endian machine on which every service works, and one without free memory.
abbrev pub working : Env
working = record {
  kmalloc = λ n. some garbage;
  nlmsg_new = λ n. true;
  nlmsg_put = λ n. true;
  netlink_unicast = λ n. true;
  ntohs = λ p. p % 256 * 256 + p / 256 % 256;
}

abbrev exhausted : Env
exhausted = record working { kmalloc = λ n. none }

pub working-IsWorking : IsWorking working
working-IsWorking = record {
  memory = λ n. garbage;
  allocates = λ n. refl;
  makes_skb = λ n. refl;
  puts_header = λ n. refl;
  delivers = λ n. refl;
}

-- A UDP packet from port 53 to port 4660, with 12 bytes of payload.
abbrev pub datagram : SkBuff
datagram = record {
  len = 40;
  ip_hdr = some (record { saddr = 100; daddr = 200; protocol = 17 });
  transport_offset = 20;
  source = 13568;
  dest = 13330;
  doff = 0;
}

abbrev pub report : Report
report = record {
  src_ip = 100;
  dst_ip = 200;
  src_port = 53;
  dst_port = 4660;
  proto = proto_udp;
  size = 12;
}

abbrev pub subscription : UserMsg
subscription = record { nlmsg_pid = 42; text = daemon_subscribe }

abbrev pub watched : Statics
watched = record {
  packet_hunter_subscribed = 0;
  daemon_subscribed = 1;
  packet_hunter_pid = 0;
  daemon_pid = 42;
}

abbrev pub subscribed : Kernel
subscribed = record init { statics = watched }

parse_datagram : parse_packet working (some datagram) ≡ some report
unfolding parse_packet
parse_datagram = refl

datagram-IsSized : IsSized datagram
datagram-IsSized = omega arith

parse_packet_iff_example :
    (parse_packet working (some datagram) ≡ some report)
    ↔ ((iph : IpHdr) × Describes working datagram iph report)
parse_packet_iff_example = parse_packet_iff working datagram report datagram-IsSized

packet_sniffer_hook-Reported_example :
    Returns (packet_sniffer_hook working (some datagram) subscribed) (λ p.
      (p.0 ≡ Verdict.nf_accept) × Reported (parse_packet working (some datagram)) subscribed p.1)
packet_sniffer_hook-Reported_example =
    packet_sniffer_hook-Reported working (some datagram) subscribed

packet_sniffer_hook-TellsAll_example :
    Returns
      (packet_sniffer_hook working (some datagram) subscribed)
      (λ p. told p.1 ≡ addressed report (42 ∷ []))
packet_sniffer_hook-TellsAll_example =
    packet_sniffer_hook-TellsAll working working-IsWorking report (some datagram) subscribed
      parse_datagram

recv_subscription : nl_recv_msg working (some subscription) init ≡ some subscribed
unfolding nl_recv_msg text_eq
recv_subscription = refl

nl_recv_msg-obey_example :
    registry watched ≡ obey (command_of daemon_subscribe) 42 (registry init.statics)
nl_recv_msg-obey_example = nl_recv_msg-obey working subscription init subscribed recv_subscription

-- The daemon subscribes, and one packet arrives.
abbrev pub history : List Event
history = command (some subscription) ∷ packet (some datagram) ∷ []

abbrev pub reported : Kernel
reported = record {
  statics = watched;
  calls = 4;
  messages = 0;
  skbs = 0;
  sent =
      (
        42,
        record {
          src_ip = 100;
          dst_ip = 200;
          src_port = 53;
          dst_port = 4660;
          payload_size = 77;
          proto = proto_udp;
        },
      )
      ∷ [];
  logged = line_of report ∷ [];
}

pub reaches_reported : run working history init ≡ some reported
unfolding run nl_recv_msg packet_sniffer_hook text_eq parse_packet notify_clients notify
    notify_hunter create_message send_packet_info_to_user
reaches_reported = refl

run-Inv_example : Inv reported
run-Inv_example = run-Inv working history init reported reaches_reported Inv-init

working-Allocates : Allocates working
working-Allocates n h = cc

run-Returns_example : Returns (run working history init) Inv
run-Returns_example = run-Returns working history init working-Allocates Inv-init

send_stop_msg_fault_iff_example : (send_stop_msg exhausted 42 init ≡ none) ↔ (
    (exhausted.kmalloc 0 ≡ none) × (exhausted.nlmsg_new 1 ≡ true) × (exhausted.nlmsg_put 2 ≡ true))
send_stop_msg_fault_iff_example = send_stop_msg_fault_iff exhausted 42 init
