-- ===== src/Receiver/Taking.antt =====
-- What a round of the receiver adds to the queue.
use hut_karish.Prelude.{
  ◌≡◌, refl, sym, Bool, true, false, ◌&&◌, List, [], ◌∷◌, ◌++◌, append-nil, map-append, Option,
  none, some, Bool-cases, inl, inr, if◌then◌else◌,
}
use hut_karish.Packet.{PcktInfo, is_stop}
use hut_karish.Heap.{allocate}
use hut_karish.Queue.{push}
use hut_karish.NetLink.Wire.{receive_packet_info}
use hut_karish.Receiver.{Shared, Round, receive_round}
use hut_karish.Receiver.Delivery.{infos}

-- What a datagram adds to the queue, and whether the receiver goes on.
abbrev pub taken : Option PcktInfo → Bool × List PcktInfo
taken none = (true, [])
taken (some info) = if is_stop info then (false, []) else (true, info ∷ [])

-- A round of a receiver that is still in its loop, or is not.
abbrev pub reception : Bool → Round → Bool × List PcktInfo
reception listening r =
    if listening && r.running then taken (receive_packet_info r.datagram r.buffer) else (false, [])

pub received_infos :
    (o : Option PcktInfo) (s : Shared)
    → (infos (receive_round o s).1 ≡ infos s ++ (taken o).1) × ((receive_round o s).0 ≡ (taken o).0)
unfolding receive_round push allocate
received_infos none s = (sym (append-nil (infos s)), refl)
received_infos (some info) s = elim (Bool-cases (is_stop info)) [
  | inl h ↦ rw h (sym (append-nil (infos s)), refl)
  | inr h ↦ rw h (map-append (λ p. p.info) s.message_queue.queue _, refl)
]
