-- ===== src/Receiver/Memory.antt =====
-- The memory of received packets: who frees what the receiver allocates.
use hut_karish.Prelude.{
  ℕ, zero, suc, ◌<◌, ◌≡◌, refl, sym, subst, Bool, true, false, List, [], ◌∷◌, ◌++◌, append_assoc,
  Option, none, some, Bool-cases, inl, inr, arith, Returns, Returns-bind, length, if◌then◌else◌,
}
use hut_karish.Packet.{PcktInfo, is_stop}
use hut_karish.Heap.{Pckt, Heap, Holds, allocate, allocate-Holds, free_packet_info-Holds}
use hut_karish.Queue.{push, pop, empty}
use hut_karish.NetLink.Wire.{receive_packet_info}
use hut_karish.Receiver.{
  Shared, Round, receive_round, recv_packet_info_thread, free_popped, clean_message_queue,
}

-- The queue holds all live memory but that of `others`.
abbrev pub Owns : List Pckt → Shared → Type 0
Owns others s = Holds s.heap (s.message_queue.queue ++ others)

abbrev Cleaned : List Pckt → Shared → Type 0
Cleaned others s = (s.message_queue.queue ≡ []) × Holds s.heap others

clean_items :
    (fuel : ℕ) (others ps : List Pckt) (h : Heap)
    → length ps < fuel
    → Holds h (ps ++ others)
    → Returns
        (clean_message_queue fuel (record { message_queue = record { queue = ps }; heap = h }))
        (Cleaned others)
unfolding clean_message_queue free_popped empty pop
clean_items zero others ps h f v = absurd (omega arith)
clean_items (suc fuel) others [] h f v = (refl, v)
clean_items (suc fuel) others (p ∷ ps) h f v =
    Returns-bind (λ h'. Holds h' (ps ++ others) × (h'.next ≡ h.next)) (Cleaned others) _ _
      (free_packet_info-Holds p h (ps ++ others) v)
      λ h' t. clean_items fuel others ps h' (omega arith) t.0

-- With fuel above the length of the queue, if the live memory is that of the queue and of some
-- other packets, the cleaning ends without a fault: the queue is empty, and the memory of the other
-- packets, and no other, is live.
pub clean_message_queue-Owns :
    (fuel : ℕ) (others : List Pckt) (s : Shared)
    → length s.message_queue.queue < fuel
    → Owns others s
    → Returns
        (clean_message_queue fuel s)
        (λ s'. (s'.message_queue.queue ≡ []) × Holds s'.heap others)
clean_message_queue-Owns fuel others s f v =
    clean_items fuel others s.message_queue.queue s.heap f v

-- What the receiver leaves: the queue owns the memory that it owned, or the thread has broken off
-- and one order to stop is left, which nobody points to any more.
pub data Left (others : List Pckt) (s : Shared) : Type 0 where
  queued : Owns others s → Left others s
  stopped : (stop : Pckt) → is_stop stop.info ≡ true → Owns (stop ∷ others) s → Left others s

abbrev pub Next : List Pckt → Bool × Shared → Type 0
Next others (true, s) = Owns others s
Next others (false, s) = Left others s

pub receive_round-Owns :
    (others : List Pckt) (o : Option PcktInfo) (s : Shared)
    → Owns others s
    → Next others (receive_round o s)
unfolding receive_round push allocate
receive_round-Owns others none s v = v
receive_round-Owns others (some info) s v = elim (Bool-cases (is_stop info)) [
  | inl h ↦ rw h (
      stopped (allocate info s.heap).0 h
        (allocate-Holds info s.heap s.message_queue.queue others v))
  | inr h ↦ rw h (
      subst (Holds (allocate info s.heap).1) (sym (append_assoc s.message_queue.queue _ others))
        (allocate-Holds info s.heap s.message_queue.queue others v))
]

after_round :
    (others : List Pckt) (p : Bool × Shared) (rest : Shared)
    → Next others p
    → (Owns others p.1 → Left others rest)
    → Left others (if p.0 then rest else p.1)
after_round others (true, s) rest v go = go v
after_round others (false, s) rest v go = v

-- If the live memory is that of the queue and of some other packets, the receiver ends in such a
-- state, or in one where the memory of one order to stop is live beside them, to which nothing
-- points any more.
pub thread-Left :
    (others : List Pckt) (rs : List Round) (s : Shared)
    → Owns others s
    → Left others (recv_packet_info_thread rs s)
unfolding recv_packet_info_thread
thread-Left others [] s v = queued v
thread-Left others (r ∷ rs) s v = elim (Bool-cases r.running) [
  | inl h ↦ rw h (
      after_round others (receive_round (receive_packet_info r.datagram r.buffer) s) _
        (receive_round-Owns others (receive_packet_info r.datagram r.buffer) s v)
        (thread-Left others rs _))
  | inr h ↦ rw h (queued v)
]
