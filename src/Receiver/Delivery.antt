-- ===== src/Receiver/Delivery.antt =====
-- What the receiver thread puts into the queue.
use hut_karish.Prelude.{
  ℕ, ◌≡◌, sym, ◌∙◌, ap, true, false, List, [], ◌∷◌, ◌++◌, map, map-append, append-nil, append_assoc,
  some, All,
}
use hut_karish.Packet.{PcktInfo, InRange, is_stop}
use hut_karish.Heap.{Heap, allocate}
use hut_karish.Queue.{push}
use hut_karish.NetLink.Wire.{Padding, message_of, receive_packet_info-message_of}
use hut_karish.Receiver.{Shared, Round, recv_packet_info_thread}

-- What the main loop will find.
abbrev pub infos : Shared → List PcktInfo
infos s = map (λ p. p.info) s.message_queue.queue

-- A round that receives a message of the kernel module while the program runs.
abbrev pub round_of : PcktInfo → Padding → List ℕ → Round
round_of p pad buffer = record {
  running = true;
  datagram = some (message_of p pad);
  buffer = buffer;
}

-- A message with its padding and the buffer that receives it.
pub record Message : Type 0 where
  pub info : PcktInfo
  pub padding : Padding
  pub buffer : List ℕ

abbrev pub rounds : List Message → List Round
rounds = map λ m. round_of m.info m.padding m.buffer

-- A packet that no receiver takes for the order to stop.
abbrev pub IsReport : Message → Type 0
IsReport m = InRange m.info × (is_stop m.info ≡ false)

thread_report :
    (m : Message) (rs : List Round) (s : Shared)
    → IsReport m
    → recv_packet_info_thread (round_of m.info m.padding m.buffer ∷ rs) s
      ≡ recv_packet_info_thread rs (record {
        message_queue = push (allocate m.info s.heap).0 s.message_queue;
        heap = (allocate m.info s.heap).1;
      })
unfolding recv_packet_info_thread
thread_report m rs s (range, report) =
    rw (receive_packet_info-message_of m.info m.padding m.buffer range, report)

thread_stop :
    (m : Message) (rs : List Round) (s : Shared)
    → InRange m.info
    → is_stop m.info ≡ true
    → recv_packet_info_thread (round_of m.info m.padding m.buffer ∷ rs) s
      ≡ record s { heap = (allocate m.info s.heap).1 }
unfolding recv_packet_info_thread
thread_stop m rs s range stops =
    rw (receive_packet_info-message_of m.info m.padding m.buffer range, stops)

infos-push :
    (info : PcktInfo) (s : Shared) (h : Heap)
    → infos (record { message_queue = push (allocate info s.heap).0 s.message_queue; heap = h })
      ≡ infos s ++ info ∷ []
unfolding push allocate
infos-push info s h = map-append _ s.message_queue.queue _

-- If the receiver gets messages of the kernel module in range that are no orders to stop, and then
-- an order to stop, the queue has at the end what it had before and then the packet of each
-- message, in order and once each, whatever comes after the order.
pub thread_delivers :
    (ms : List Message) (stop : Message) (rs : List Round) (s : Shared)
    → All IsReport ms
    → InRange stop.info
    → is_stop stop.info ≡ true
    → infos
        (recv_packet_info_thread (rounds ms ++ round_of stop.info stop.padding stop.buffer ∷ rs) s)
      ≡ infos s ++ map (λ m. m.info) ms
thread_delivers [] stop rs s reports range stops =
    ap infos (thread_stop stop rs s range stops) ∙ sym (append-nil (infos s))
thread_delivers (m ∷ ms) stop rs s reports range stops =
    ap infos (thread_report m _ s reports.0)
    ∙ thread_delivers ms stop rs _ reports.1 range stops
    ∙ ap (λ l. l ++ map (λ m'. m'.info) ms) (infos-push m.info s (allocate m.info s.heap).1)
    ∙ append_assoc (infos s) (m.info ∷ []) _
