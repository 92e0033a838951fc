-- ===== src/NetLink/Wire.antt =====
-- The messages of the kernel module as bytes, and NetLinkClient.cpp: receivePacketInfo.
use hut_karish.Prelude.{
  ℕ, ◌+◌, ◌-◌, ◌%◌, ◌^◌, ◌≡◌, List, [], ◌∷◌, ◌++◌, Option, none, some, ◌==◌, if◌then◌else◌, length,
  take, drop, get_or,
}
use hut_karish.Prelude.Bytes.{word_16, word_32, read_16, read_32, digits_16, digits_32}
use hut_karish.Packet.{PcktInfo, InRange, max_payload, sizeof_pckt_info}
use hut_karish.NetLink.Send.{nlmsg_hdrlen}

-- Three bytes of padding, whose values nobody sets.
pub record Padding : Type 0 where
  pub first : ℕ
  pub second : ℕ
  pub third : ℕ

-- The bytes of a struct pckt_info.
unfoldable pub bytes_of : PcktInfo → Padding → List ℕ
unfolding word_16 word_32
bytes_of p pad =
    word_32 p.src_ip
    ++ word_32 p.dst_ip
    ++ word_16 p.src_port
    ++ word_16 p.dst_port
    ++ word_32 p.payload_size
    ++ p.proto ∷ pad.first ∷ pad.second ∷ pad.third ∷ []

-- The header of nlmsg_put(skb, 0, 0, NLMSG_DONE, size, 0): length, type, flags, sequence, sender.
unfoldable pub header_of : ℕ → List ℕ
unfolding word_16 word_32
header_of size = word_32 (nlmsg_hdrlen + size) ++ word_16 3 ++ word_16 0 ++ word_32 0 ++ word_32 0

unfoldable pub message_of : PcktInfo → Padding → List ℕ
unfolding bytes_of header_of
message_of p pad = header_of sizeof_pckt_info ++ bytes_of p pad

-- The struct that stands at an offset of a buffer.
unfoldable pub read_pckt_info : List ℕ → ℕ → PcktInfo
unfolding read_16 read_32
read_pckt_info b i = record {
  src_ip = read_32 b i;
  dst_ip = read_32 b (i + 4);
  src_port = read_16 b (i + 8);
  dst_port = read_16 b (i + 10);
  payload_size = read_32 b (i + 12);
  proto = get_or b (i + 16) 0;
}

-- The buffer after recv wrote a datagram over what it held, cut to the buffer's size.
unfoldable pub received : List ℕ → List ℕ → List ℕ
received datagram buffer = let got = take max_payload datagram in got ++ drop (length got) buffer

-- nlmsg_len - NLMSG_HDRLEN, in 32 bits.
unfoldable pub payload_len : List ℕ → ℕ
unfolding read_32
payload_len b = (read_32 b 0 + (2 ^ 32 - nlmsg_hdrlen)) % 2 ^ 32

-- `none` for the datagram is an error of recv; `none` for the packet is nullptr.
unfoldable pub receive_packet_info : Option (List ℕ) → List ℕ → Option PcktInfo
unfolding received payload_len read_pckt_info
receive_packet_info none buffer = none
receive_packet_info (some datagram) buffer =
    let b = received datagram buffer in
    if payload_len b == sizeof_pckt_info then some (read_pckt_info b nlmsg_hdrlen) else none

-- A message of the kernel module whose fields are in range is received as the packet information
-- that was sent, whatever the buffer held and whatever stands in the padding.
pub receive_packet_info-message_of :
    (p : PcktInfo) (pad : Padding) (buffer : List ℕ)
    → InRange p
    → receive_packet_info (some (message_of p pad)) buffer ≡ some p
unfolding receive_packet_info message_of
receive_packet_info-message_of p pad buffer r = λ i. some (record {
  src_ip = digits_32 p.src_ip r.src_ip_fits i;
  dst_ip = digits_32 p.dst_ip r.dst_ip_fits i;
  src_port = digits_16 p.src_port r.src_port_fits i;
  dst_port = digits_16 p.dst_port r.dst_port_fits i;
  payload_size = digits_32 p.payload_size r.payload_size_fits i;
  proto = p.proto;
})

-- The length of what `recv` gave is not looked at: an empty datagram, received over a buffer that
-- still holds a message whose fields are in range, is taken for that message.
pub receive_packet_info_stale :
    (p : PcktInfo) (pad : Padding) (rest : List ℕ)
    → InRange p
    → receive_packet_info (some []) (message_of p pad ++ rest) ≡ some p
unfolding receive_packet_info message_of
receive_packet_info_stale p pad rest r = receive_packet_info-message_of p pad rest r
