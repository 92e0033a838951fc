-- ===== src/Kernel/Parsing.antt =====
-- Which packets packet_sniffer_hook reports, and with which length of payload.
use hut_karish.Prelude.{
  ℕ, ◌+◌, ◌*◌, ◌%◌, ◌^◌, ◌≤◌, ◌<◌, ◌≡◌, ◌⊎◌, ◌↔◌, ◌∙◌, ap, sym, >>=-eq-some, some, ◌>>=◌, arith,
  ◌==◌, if◌then◌else◌,
}
use hut_karish.Packet.{proto_tcp, proto_udp}
use hut_karish.Kernel.State.{Env}
use hut_karish.Kernel.Hook.{
  IpHdr, SkBuff, Report, ipproto_tcp, ipproto_udp, sizeof_iphdr, sizeof_udphdr, read_headers,
  parse_packet,
}

-- The length of the transport header.
abbrev pub header_length : SkBuff → ℕ → ℕ
header_length skb protocol = if protocol == ipproto_tcp then skb.doff * 4 else sizeof_udphdr

-- What a report says of a packet with an IP header.
pub record Describes (e : Env) (skb : SkBuff) (iph : IpHdr) (r : Report) : Type 0 where
  pub long_enough : sizeof_iphdr ≤ skb.len
  pub found : skb.ip_hdr ≡ some iph
  pub source : r.src_ip ≡ iph.saddr
  pub destination : r.dst_ip ≡ iph.daddr
  pub source_port : r.src_port ≡ e.ntohs skb.source
  pub destination_port : r.dst_port ≡ e.ntohs skb.dest
  pub protocol :
      ((iph.protocol ≡ ipproto_tcp) × (r.proto ≡ proto_tcp))
      ⊎ ((iph.protocol ≡ ipproto_udp) × (r.proto ≡ proto_udp))
  pub size : (skb.transport_offset + header_length skb iph.protocol + r.size) % 2 ^ 32 ≡ skb.len
  pub size_fits : r.size < 2 ^ 32

-- The fields of a packet that have a width.
pub record IsSized (skb : SkBuff) : Type 0 where
  pub len_fits : skb.len < 2 ^ 32
  pub offset_fits : skb.transport_offset < 2 ^ 32
  pub doff_fits : skb.doff < 16

read_headers-Describes :
    (e : Env) (skb : SkBuff) (iph : IpHdr) (r : Report)
    → IsSized skb
    → sizeof_iphdr ≤ skb.len
    → skb.ip_hdr ≡ some iph
    → read_headers e skb iph ≡ some r
    → Describes e skb iph r
unfolding read_headers
read_headers-Describes e skb iph r sized long found h = ground arith

Describes-read_headers :
    (e : Env) (skb : SkBuff) (iph : IpHdr) (r : Report)
    → IsSized skb
    → Describes e skb iph r
    → read_headers e skb iph ≡ some r
unfolding read_headers
Describes-read_headers e skb iph r sized d = ground arith

long_packet :
    (e : Env) (skb : SkBuff) (r : Report)
    → parse_packet e (some skb) ≡ some r
    → sizeof_iphdr ≤ skb.len
unfolding parse_packet
long_packet e skb r h = ground arith

parse_packet-read_headers :
    (e : Env) (skb : SkBuff)
    → sizeof_iphdr ≤ skb.len
    → parse_packet e (some skb) ≡ (skb.ip_hdr >>= read_headers e skb)
unfolding parse_packet
parse_packet-read_headers e skb long = ground arith

-- For a packet whose fields have their widths, the hook makes a report exactly of a packet of at least
-- 20 bytes with an IP header whose protocol is TCP or UDP. The report has the header's addresses, the
-- ports in host order, and the letter of the protocol; and its size, a number of 32 bits, is the
-- packet's length less the transport header's offset and length, with wrap-around.
pub parse_packet_iff :
    (e : Env) (skb : SkBuff) (r : Report)
    → IsSized skb
    → (parse_packet e (some skb) ≡ some r) ↔ ((iph : IpHdr) × Describes e skb iph r)
parse_packet_iff e skb r sized = (
  λ h.
      let long = long_packet e skb r h in
      let (iph, found, read) =
        >>=-eq-some skb.ip_hdr (read_headers e skb) r
          (sym (parse_packet-read_headers e skb long) ∙ h) in
      (iph, read_headers-Describes e skb iph r sized long found read),
  λ (iph, d).
      parse_packet-read_headers e skb d.long_enough
      ∙ ap (λ o. o >>= read_headers e skb) d.found
      ∙ Describes-read_headers e skb iph r sized d,
)
