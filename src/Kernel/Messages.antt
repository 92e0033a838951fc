-- ===== src/Kernel/Messages.antt =====
-- kernel_module/sniffer.c: create_message, send_packet_info_to_user and send_stop_msg. `none` is a
-- fault: the module reads through a NULL pointer.
use hut_karish.Prelude.{ℕ, ◌+◌, ◌-◌, [], ◌∷◌, Option, none, some, ◌>>=◌, if◌then◌else◌}
use hut_karish.Packet.{PcktInfo}
use hut_karish.Kernel.State.{Env, Kernel, tick, delivers}

-- The five fields that `create_message` writes into fresh memory.
abbrev pub filled : PcktInfo → ℕ → ℕ → ℕ → ℕ → ℕ → PcktInfo
filled memory src_ip dst_ip src_port dst_port proto = record memory {
  src_ip = src_ip;
  dst_ip = dst_ip;
  src_port = src_port;
  dst_port = dst_port;
  proto = proto;
}

unfoldable pub create_message : Env → ℕ → ℕ → ℕ → ℕ → ℕ → Kernel → Option PcktInfo × Kernel
create_message e src_ip dst_ip src_port dst_port proto k = elim (e.kmalloc k.calls) [
  | none ↦ (none, tick k)
  | some memory ↦ (
    some (filled memory src_ip dst_ip src_port dst_port proto),
    record (tick k) { messages = k.messages + 1 },
  )
]

-- kfree(msg): NULL is left alone.
abbrev pub kfree : Option PcktInfo → Kernel → Kernel
kfree none k = k
kfree (some msg) k = record k { messages = k.messages - 1 }

-- memcpy(nlmsg_data(nlh), msg, sizeof(*msg)) and netlink_unicast, which takes the buffer over.
unfoldable pub copy_and_send : Env → ℕ → Option PcktInfo → Kernel → Option Kernel
copy_and_send e pid none k = none
copy_and_send e pid (some msg) k =
    let k' = record (tick k) { skbs = k.skbs - 1 } in
    some (if e.netlink_unicast k.calls then delivers k' ((pid, msg) ∷ []) else k')

unfoldable pub send_packet_info_to_user : Env → ℕ → Option PcktInfo → Kernel → Option Kernel
unfolding copy_and_send
send_packet_info_to_user e pid msg k =
    if e.nlmsg_new k.calls
    then (let k' = record (tick k) { skbs = k.skbs + 1 } in
        if e.nlmsg_put k'.calls
        then copy_and_send e pid msg (tick k')
        else some (record (tick k') { skbs = k'.skbs - 1 }))
    else some (tick k)

unfoldable pub send_stop_msg : Env → ℕ → Kernel → Option Kernel
unfolding create_message send_packet_info_to_user
send_stop_msg e pid k = do
  let (msg, k') = create_message e 0 0 0 0 0 k
  k'' ← send_packet_info_to_user e pid msg k'
  some (kfree msg k'')
