-- ===== src/Packet.antt =====
-- shared/config/NetLinkConfig.h: the packet information that the kernel module sends to its
-- clients, and the constants of the protocol.
use hut_karish.Prelude.{ℕ, ◌^◌, ◌<◌, Bool, ◌&&◌, ◌==◌}

pub record PcktInfo : Type 0 where
  pub src_ip : ℕ
  pub dst_ip : ℕ
  pub src_port : ℕ
  pub dst_port : ℕ
  pub payload_size : ℕ
  pub proto : ℕ

abbrev pub proto_tcp : ℕ
proto_tcp = b'T'

abbrev pub proto_udp : ℕ
proto_udp = b'U'

abbrev pub max_payload : ℕ
max_payload = 1024

-- sizeof(struct pckt_info): 17 bytes, and three of padding.
abbrev pub sizeof_pckt_info : ℕ
sizeof_pckt_info = 20

-- Each field fits the C type that it has.
pub record InRange (p : PcktInfo) : Type 0 where
  pub src_ip_fits : p.src_ip < 2 ^ 32
  pub dst_ip_fits : p.dst_ip < 2 ^ 32
  pub src_port_fits : p.src_port < 2 ^ 16
  pub dst_port_fits : p.dst_port < 2 ^ 16
  pub payload_size_fits : p.payload_size < 2 ^ 32
  pub proto_fits : p.proto < 2 ^ 8

-- The test of the receiver thread for the message that tells it to stop.
unfoldable pub is_stop : PcktInfo → Bool
is_stop p = p.dst_ip == 0 && (p.src_ip == 0 && (p.src_port == 0 && p.dst_port == 0))
