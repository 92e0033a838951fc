-- ===== src/Flow/Pids.antt =====
-- What the packet hunter prints while the daemon answers it.
use hut_karish.Prelude.{
  ◌^◌, ◌<◌, ◌≡◌, refl, ap, sym, subst, ◌∙◌, true, not, ◌&&◌, List, [], ◌∷◌, ◌++◌, map, append_assoc,
  append-nil, Option, none, some, Bool-cases, inl, inr, arith, All, All-append,
}
use hut_karish.Prelude.Int.{ℤ}
use hut_karish.Packet.{PcktInfo, is_stop}
use hut_karish.Heap.{Pckt, allocate}
use hut_karish.Queue.{MessageQueue, pop, push}
use hut_karish.NetLink.Wire.{receive_packet_info}
use hut_karish.Receiver.{Round as Reception, receive_round}
use hut_karish.Receiver.Delivery.{infos}
use hut_karish.Scan.Ports.{PortMap}
use hut_karish.Hunter.Client.{UnixSocketClient}
use hut_karish.Hunter.Loop.{Hunter, End, ends, handle_packet, main_round}
use hut_karish.Hunter.Threads.{
  Hunt, shared_of, receiver_step, loop_step, step, run_threads, started,
}
use hut_karish.Hunter.Hunted.{arrived, is_covered}
use hut_karish.Hunter.Arrived.{run_threads-Hunted}
use hut_karish.Flow.Joint.{
  served, Joint, receiving, looping_with, event_of, run_joint, IsDaemonMap, PortFits, IsJoint,
  AnsweredBy, nothing, silent,
}
use hut_karish.Flow.Answering.{Served, handled-Served, idle-Served}

abbrev PortsFit : MessageQueue Pckt → Type 0
PortsFit q = All (λ p. p.info.dst_port < 2 ^ 16) q.queue

-- What a step makes of the packet hunter.
record Advanced (j : Joint) (t t' : Hunt) : Type 0 where
  looping : t'.looping ≡ true
  fit : PortsFit t'.hunter.message_queue
  new : List (ℤ × Pckt)
  printed : t'.hunter.printed ≡ t.hunter.printed ++ new
  by_daemon :
      (js : List Joint) (ps : List (ℤ × Pckt)) → AnsweredBy js ps → AnsweredBy (j ∷ js) (new ++ ps)

nothing_printed :
    (j : Joint) (t t' : Hunt)
    → t'.looping ≡ true
    → PortsFit t'.hunter.message_queue
    → t'.hunter.printed ≡ t.hunter.printed
    → Advanced j t t'
nothing_printed j t t' on f same = record {
  looping = on;
  fit = f;
  new = [];
  printed = same ∙ sym (append-nil t.hunter.printed);
  by_daemon = λ js ps a. silent a;
}

received_fit :
    (o : Option PcktInfo) (t : Hunt)
    → PortFits o
    → PortsFit t.hunter.message_queue
    → PortsFit (receive_round o (shared_of t)).1.message_queue
unfolding receive_round push allocate
received_fit none t f v = v
received_fit (some info) t f v = elim (Bool-cases (is_stop info)) [
  | inl e ↦ rw e v
  | inr e ↦
      rw e (All-append (λ p. p.info.dst_port < 2 ^ 16) t.hunter.message_queue.queue _ v (f, tt))
]

receiver_step-Advanced :
    (r : Reception) (t : Hunt)
    → t.looping ≡ true
    → PortFits (receive_packet_info r.datagram r.buffer)
    → PortsFit t.hunter.message_queue
    → Advanced (receiving r) t (receiver_step r t)
unfolding receiver_step
receiver_step-Advanced r t on f v = elim (Bool-cases (t.listening && r.running)) [
  | inl e ↦ rw e (
      nothing_printed (receiving r) t _ on
        (received_fit (receive_packet_info r.datagram r.buffer) t f v) refl)
  | inr e ↦ rw e (nothing_printed (receiving r) t _ on v refl)
]

Served-Advanced :
    (m : PortMap) (t : Hunt) (q : MessageQueue Pckt) (s : End × Hunter)
    → PortsFit q
    → Served m (record t.hunter { message_queue = q }) s
    → Advanced (looping_with m) t (record t { hunter = s.1; looping = not (ends s.0) })
Served-Advanced m t q s f v = record {
  looping = ap (λ end. not (ends end)) v.on;
  fit = subst PortsFit (sym v.queue_kept) f;
  new = v.new;
  printed = v.printed;
  by_daemon = v.by_daemon;
}

loop_step-Advanced :
    (c : UnixSocketClient) (m : PortMap) (t : Hunt)
    → c.is_connected ≡ true
    → IsDaemonMap m
    → t.looping ≡ true
    → PortsFit t.hunter.message_queue
    → Advanced (looping_with m) t (loop_step c (served m) t)
unfolding loop_step main_round pop served
loop_step-Advanced c m t connected real on v = elim (Bool-cases (t.looping && true)) [
  | inl e ↦ rw e (go t.hunter.message_queue.queue refl)
  | inr e ↦ absurd (ground (arith, e, on))
]
  where
    go :
        (q : List Pckt)
        → t.hunter.message_queue.queue ≡ q
        → (let s =
              handle_packet c
                (served m)
                (pop (record { queue = q })).0
                (record t.hunter { message_queue = (pop (record { queue = q })).1 }) in
            Advanced (looping_with m) t (record t { hunter = s.1; looping = not (ends s.0) }))
    go [] e = Served-Advanced m t (record { queue = [] }) _ tt (idle-Served c connected m real _)
    go (p ∷ q) e =
        let fits = subst (λ l. All (λ x. x.info.dst_port < 2 ^ 16) l) e v in
        Served-Advanced m t (record { queue = q }) _ fits.1
          (handled-Served c connected m real p _ fits.0)

step-Advanced :
    (c : UnixSocketClient) (j : Joint) (t : Hunt)
    → c.is_connected ≡ true
    → IsJoint j
    → t.looping ≡ true
    → PortsFit t.hunter.message_queue
    → Advanced j t (step c (event_of j) t)
step-Advanced c (receiving r) t connected f on v = receiver_step-Advanced r t on f v
step-Advanced c (looping_with m) t connected f on v = loop_step-Advanced c m t connected f on v

run_joint-AnsweredBy :
    (c : UnixSocketClient) (js : List Joint) (t : Hunt)
    → c.is_connected ≡ true
    → All IsJoint js
    → t.looping ≡ true
    → PortsFit t.hunter.message_queue
    → ((run_joint c js t).looping ≡ true)
      × (new : List (ℤ × Pckt)) × ((run_joint c js t).hunter.printed ≡ t.hunter.printed ++ new)
      × AnsweredBy js new
unfolding run_joint run_threads
run_joint-AnsweredBy c [] t connected fs on v = (on, [], sym (append-nil t.hunter.printed), nothing)
run_joint-AnsweredBy c (j ∷ js) t connected fs on v =
    let a = step-Advanced c j t connected fs.0 on v in
    let (on', new, printed, by) = run_joint-AnsweredBy c js _ connected fs.1 a.looping a.fit in
    (
      on',
      a.new ++ new,
      printed ∙ ap (λ l. l ++ new) a.printed ∙ append_assoc t.hunter.printed a.new new,
      a.by_daemon js new by,
    )

-- The packet hunter is connected, and the daemon runs, with whatever map it has built by then: at its
-- start from /proc, and since then from packets that it took. The receiver and the main loop of the
-- packet hunter interleave in any way, ports that are received have 16 bits, and what the two programs
-- send each other comes whole. Then the main loop goes on; the packets that are printed are printed, in
-- order, in rounds of their own, each with what the map that the daemon has in this round gives for its
-- destination port, -1 or a positive pid of 31 bits; and the packets that were received are, in order,
-- those that were taken out of the queue, each of which compares equal to one that is printed, and
-- those that wait in it.
pub run_joint-Answered :
    (c : UnixSocketClient) (js : List Joint)
    → c.is_connected ≡ true
    → All IsJoint js
    → let t = run_joint c js started in
      (t.looping ≡ true)
      × AnsweredBy js t.hunter.printed
      × ((popped : List PcktInfo) × (popped ++ infos (shared_of t) ≡ arrived true (map event_of js))
          × All (λ i. is_covered t.hunter.printed i ≡ true) popped)
unfolding run_joint
run_joint-Answered c js connected fs =
    let (on, new, printed, by) = run_joint-AnsweredBy c js started connected fs refl tt in
    let v = run_threads-Hunted c (map event_of js) in
    (on, subst (AnsweredBy js) (sym printed) by, (v.popped, v.in_order, v.covered on))
