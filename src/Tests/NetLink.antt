-- ===== src/Tests/NetLink.antt =====
-- shared/netlink_client at concrete inputs.
use hut_karish.Prelude.{◌-◌, ◌≡◌, [], ◌∷◌, some, arith, take}
use hut_karish.Prelude.Int.{pos}
use hut_karish.Packet.{PcktInfo, InRange, proto_tcp, max_payload}
use hut_karish.NetLink.Socket.{NetLinkClient}
use hut_karish.NetLink.Text.{c_string}
use hut_karish.NetLink.Send.{datagram_of, user_msg, user_msg-datagram_of}
use hut_karish.NetLink.Wire.{
  Padding, message_of, receive_packet_info, receive_packet_info-message_of,
}

abbrev pub segment : PcktInfo
segment = record {
  src_ip = 4294967295;
  dst_ip = 16777343;
  src_port = 443;
  dst_port = 65535;
  payload_size = 1000;
  proto = proto_tcp;
}

pub segment-InRange : InRange segment
segment-InRange = omega arith

abbrev pub noise : Padding
noise = record { first = 9; second = 8; third = 7 }

receive_packet_info-message_of_example :
    receive_packet_info (some (message_of segment noise)) (1 ∷ 2 ∷ []) ≡ some segment
receive_packet_info-message_of_example =
    receive_packet_info-message_of segment noise (1 ∷ 2 ∷ []) segment-InRange

-- A text that goes on behind a NUL.
user_msg-datagram_of_example :
    (user_msg (datagram_of 42 (65 ∷ 66 ∷ 0 ∷ 67 ∷ []))).text
    ≡ take (max_payload - 1) (c_string (65 ∷ 66 ∷ 0 ∷ 67 ∷ []))
user_msg-datagram_of_example = user_msg-datagram_of 42 (65 ∷ 66 ∷ 0 ∷ 67 ∷ [])

abbrev pub client : NetLinkClient
client = record { sock_fd = pos 3; open_fds = 3 ∷ 2 ∷ 1 ∷ 0 ∷ [] }
