-- ===== src/Kernel/Hook.antt =====
-- kernel_module/sniffer.c: packet_sniffer_hook, sniffer_init and sniffer_exit.
use hut_karish.Prelude.{
  ℕ, ◌+◌, ◌-◌, ◌*◌, ◌%◌, ◌^◌, Bool, true, false, ◌&&◌, not, [], ◌∷◌, ◌++◌, Option, none, some,
  ◌>>=◌, ltb, ◌==◌, if◌then◌else◌,
}
use hut_karish.Packet.{PcktInfo, proto_tcp, proto_udp}
use hut_karish.Kernel.State.{Env, PacketLine, Kernel}
use hut_karish.Kernel.Messages.{create_message, send_packet_info_to_user, kfree}

abbrev pub ipproto_tcp : ℕ
ipproto_tcp = 6

abbrev pub ipproto_udp : ℕ
ipproto_udp = 17

abbrev pub sizeof_iphdr : ℕ
sizeof_iphdr = 20

abbrev pub sizeof_udphdr : ℕ
sizeof_udphdr = 8

pub record IpHdr : Type 0 where
  pub saddr : ℕ
  pub daddr : ℕ
  pub protocol : ℕ

-- A packet: its length, what `ip_hdr` finds, and the fields of its transport header, the ports in
-- network order. `doff` counts only in TCP.
pub record SkBuff : Type 0 where
  pub len : ℕ
  pub ip_hdr : Option IpHdr
  pub transport_offset : ℕ
  pub source : ℕ
  pub dest : ℕ
  pub doff : ℕ

pub data Verdict : Type 0 where
  nf_accept nf_drop : Verdict

-- skb->len - skb_transport_offset(skb) - header, in 32 bits.
unfoldable pub payload_size : SkBuff → ℕ → ℕ
payload_size skb header = (skb.len + (2 ^ 32 - skb.transport_offset) + (2 ^ 32 - header)) % 2 ^ 32

-- What the hook read of a packet that it reports.
pub record Report : Type 0 where
  pub src_ip : ℕ
  pub dst_ip : ℕ
  pub src_port : ℕ
  pub dst_port : ℕ
  pub proto : ℕ
  pub size : ℕ

-- The guards and the reading of the headers: `none` is an early return.
unfoldable pub read_headers : Env → SkBuff → IpHdr → Option Report
unfolding payload_size
read_headers e skb iph =
    if iph.protocol == ipproto_tcp
    then some (record {
      src_ip = iph.saddr;
      dst_ip = iph.daddr;
      src_port = e.ntohs skb.source;
      dst_port = e.ntohs skb.dest;
      proto = proto_tcp;
      size = payload_size skb (skb.doff * 4);
    })
    else if iph.protocol == ipproto_udp
    then some (record {
      src_ip = iph.saddr;
      dst_ip = iph.daddr;
      src_port = e.ntohs skb.source;
      dst_port = e.ntohs skb.dest;
      proto = proto_udp;
      size = payload_size skb sizeof_udphdr;
    })
    else none

unfoldable pub parse_packet : Env → Option SkBuff → Option Report
unfolding read_headers
parse_packet e none = none
parse_packet e (some skb) =
    if ltb skb.len sizeof_iphdr then none else skb.ip_hdr >>= read_headers e skb

-- Sends what `create_message` made and frees it: false means that there is no message, and the hook
-- returns.
unfoldable pub send_created : Env → ℕ → Option PcktInfo × Kernel → Option (Bool × Kernel)
send_created e pid (none, k) = some (false, k)
send_created e pid (some m, k) = do
  k' ← send_packet_info_to_user e pid (some m) k
  some (true, kfree (some m) k')

-- Tells one client of a packet.
unfoldable pub notify : Env → ℕ → Report → Kernel → Option (Bool × Kernel)
unfolding send_created
notify e pid r k =
    send_created e pid (create_message e r.src_ip r.dst_ip r.src_port r.dst_port r.proto k)

unfoldable pub notify_hunter : Env → Report → Kernel → Option Kernel
notify_hunter e r k =
    if not (k.packet_hunter_subscribed == 0) && not (k.packet_hunter_pid == 0)
    then (do (_, k') ← notify e k.packet_hunter_pid r k; some k')
    else some k

unfoldable pub notify_clients : Env → Report → Kernel → Option Kernel
notify_clients e r k =
    if not (k.daemon_subscribed == 0) && not (k.daemon_pid == 0)
    then (do
      (created, k') ← notify e k.daemon_pid r k
      if created then notify_hunter e r k' else some k')
    else notify_hunter e r k

abbrev pub line_of : Report → PacketLine
line_of r = record {
  proto = r.proto;
  src_ip = r.src_ip;
  dst_ip = r.dst_ip;
  src_port = r.src_port;
  dst_port = r.dst_port;
  payload_size = r.size;
}

unfoldable pub packet_sniffer_hook : Env → Option SkBuff → Kernel → Option (Verdict × Kernel)
packet_sniffer_hook e skb k = elim (parse_packet e skb) [
  | none ↦ some (Verdict.nf_accept, k)
  | some r ↦ do
    k' ← notify_clients e r (record k { logged = k.logged ++ line_of r ∷ [] })
    some (Verdict.nf_accept, k')
]
