-- ===== src/Receiver.antt =====
-- shared/config/UserSpaceConfig.h: the receiver thread and the cleaning of the queue, which the
-- daemon and the packet hunter share.
pub mod Delivery
pub mod Memory
pub mod Taking
use hut_karish.Prelude.{
  ℕ, zero, suc, Bool, true, false, List, [], ◌∷◌, Option, none, some, ◌>>=◌, if◌then◌else◌,
}
use hut_karish.Packet.{PcktInfo, is_stop}
use hut_karish.Heap.{Pckt, Heap, allocate, free_packet_info}
use hut_karish.Queue.{MessageQueue, push, pop, empty}
use hut_karish.NetLink.Wire.{receive_packet_info}

-- What the threads of a client share.
pub record Shared : Type 0 where
  pub message_queue : MessageQueue Pckt
  pub heap : Heap

-- One round of the receiver: the flag `running` as it is read, the datagram that recv gives, none
-- for an error, and what the buffer on the stack holds before.
pub record Round : Type 0 where
  pub running : Bool
  pub datagram : Option (List ℕ)
  pub buffer : List ℕ

-- The body of the loop: false means that it breaks.
unfoldable pub receive_round : Option PcktInfo → Shared → Bool × Shared
receive_round none s = (true, s)
receive_round (some info) s =
    let (pckt, heap) = allocate info s.heap in
    if is_stop info
    then (false, record s { heap = heap })
    else (true, record { message_queue = push pckt s.message_queue; heap = heap })

-- The thread over the rounds that it has. It blocks in recv when there is no next one.
unfoldable pub recv_packet_info_thread : List Round → Shared → Shared
unfolding receive_round
recv_packet_info_thread [] s = s
recv_packet_info_thread (r ∷ rs) s =
    let (continues, s') = receive_round (receive_packet_info r.datagram r.buffer) s in
    let rest = recv_packet_info_thread rs s' in
    if r.running then (if continues then rest else s') else s

-- client->freePacketInfo(pckt), if there is one.
unfoldable pub free_popped : Option Pckt → Heap → Option Heap
free_popped none h = some h
free_popped (some p) h = free_packet_info p h

-- The loop over the queue. `none` is a fault, or the fuel has run out.
unfoldable pub clean_message_queue : ℕ → Shared → Option Shared
clean_message_queue zero s = none
clean_message_queue (suc fuel) s = elim (empty s.message_queue) [
  | true ↦ some s
  | false ↦ free_popped (pop s.message_queue).0 s.heap >>= λ heap.
      clean_message_queue fuel (record { message_queue = (pop s.message_queue).1; heap = heap })
]
