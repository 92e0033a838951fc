-- ===== src/Hunter/Arrived.antt =====
-- packet_hunter/src/main.cpp: what becomes of the packets that are received, over whole runs.
use mathlib.Core.List.{Sublistᴰ}
use hut_karish.Prelude.{
  ◌≡◌, refl, ap, sym, subst, ◌∙◌, Bool, true, false, not, ◌&&◌, List, [], ◌∷◌, ◌++◌, map,
  append-nil, append_assoc, Bool-cases, inl, inr, arith, All,
}
use hut_karish.Packet.{PcktInfo}
use hut_karish.Heap.{Pckt}
use hut_karish.Queue.{MessageQueue, pop}
use hut_karish.Receiver.{Round as Reception}
use hut_karish.Receiver.Delivery.{infos}
use hut_karish.Receiver.Taking.{taken, received_infos}
use hut_karish.NetLink.Wire.{receive_packet_info}
use hut_karish.Hunter.Client.{UnixSocketClient}
use hut_karish.Hunter.Filing.{nothing-IsFiled, IsFiled}
use hut_karish.Hunter.Loop.{Hunter, Round, End, handle_packet, main_round, ends}
use hut_karish.Hunter.Threads.{
  Hunt, Event, receives, loops, shared_of, receiver_step, loop_step, step, run_threads, started,
}
use hut_karish.Hunter.Hunted.{arrival, arrived, is_covered, printed_infos, Hunted, Handled, handled}

abbrev Stepped : List PcktInfo → Hunt → Event → Hunt → Type 0
Stepped came t ev t' =
    Hunted (came ++ (arrival t.listening ev).1) t' × (t'.listening ≡ (arrival t.listening ev).0)

receiver_step-Hunted :
    (r : Reception) (came : List PcktInfo) (t : Hunt)
    → Hunted came t
    → Stepped came t (receives r) (receiver_step r t)
unfolding receiver_step
receiver_step-Hunted r came t v = elim (Bool-cases (t.listening && r.running)) [
  | inl h ↦
      let u = received_infos (receive_packet_info r.datagram r.buffer) (shared_of t) in
      rw h (
        record {
          popped = v.popped;
          in_order =
              ap (λ l. v.popped ++ l) u.0
              ∙ sym (append_assoc v.popped (infos (shared_of t)) _)
              ∙ ap (λ l. l ++ (taken (receive_packet_info r.datagram r.buffer)).1) v.in_order;
          filed = v.filed;
          ordered = v.ordered;
          covered = v.covered;
        },
        u.1,
      )
  | inr h ↦ rw h (
    record {
      popped = v.popped;
      in_order = v.in_order ∙ sym (append-nil came);
      filed = v.filed;
      ordered = v.ordered;
      covered = v.covered;
    },
    refl,
  )
]

-- The packet is taken, and the rest of the round comes.
took :
    (c : UnixSocketClient) (r : Round) (came : List PcktInfo) (t : Hunt) (p : Pckt) (q : List Pckt)
    (v : Hunted came t)
    → t.looping ≡ true
    → t.hunter.message_queue.queue ≡ p ∷ q
    → (s : End × Hunter)
    → Handled p v.popped (record t.hunter { message_queue = record { queue = q } }) s
    → Hunted came (record t { hunter = s.1; looping = not (ends s.0) })
took c r came t p q v on e s w = record {
  popped = v.popped ++ p.info ∷ [];
  in_order =
      ap (λ (m : MessageQueue Pckt). (v.popped ++ p.info ∷ []) ++ map (λ x. x.info) m.queue)
        w.same_queue
      ∙ append_assoc v.popped (p.info ∷ []) _
      ∙ ap (λ l. v.popped ++ map (λ x. x.info) l) (sym e)
      ∙ v.in_order;
  filed = w.still_filed;
  ordered = w.still_ordered;
  covered = λ f. w.now_covered (ground (arith, f));
}

stays :
    (came : List PcktInfo) (t : Hunt) (h : Hunter) (looping : Bool)
    → h.message_queue ≡ t.hunter.message_queue
    → h.map ≡ t.hunter.map
    → h.printed ≡ t.hunter.printed
    → (looping ≡ true → t.looping ≡ true)
    → Hunted came t
    → Hunted came (record t { hunter = h; looping = looping })
stays came t h looping q m p on v = record {
  popped = v.popped;
  in_order = ap (λ (mq : MessageQueue Pckt). v.popped ++ map (λ x. x.info) mq.queue) q ∙ v.in_order;
  filed =
      subst (λ l. IsFiled h.map l) (sym p)
        (subst (λ n. IsFiled n t.hunter.printed) (sym m) v.filed);
  ordered = subst (λ l. Sublistᴰ (printed_infos l) v.popped) (sym p) v.ordered;
  covered = λ e. subst (λ l. All (λ i. is_covered l i ≡ true) v.popped) (sym p) (v.covered (on e));
}

loop_step-Hunted :
    (c : UnixSocketClient) (r : Round) (came : List PcktInfo) (t : Hunt)
    → Hunted came t
    → Hunted came (loop_step c r t)
unfolding loop_step main_round pop
loop_step-Hunted c r came t v = elim (Bool-cases (t.looping && r.running)) [
  | inl h ↦ rw h (go t.hunter.message_queue.queue refl (ground (arith, h)))
  | inr h ↦ rw h (stays came t t.hunter false refl refl refl (λ e. cc) v)
]
  where
    go :
        (q : List Pckt)
        → t.hunter.message_queue.queue ≡ q
        → t.looping ≡ true
        → (let s =
              handle_packet c r
                (pop (record { queue = q })).0
                (record t.hunter { message_queue = (pop (record { queue = q })).1 }) in
            Hunted came (record t { hunter = s.1; looping = not (ends s.0) }))
    go [] e on =
        unfold handle_packet in
        stays came t (record t.hunter { message_queue = record { queue = [] } }) _
          (ap (λ l. record { queue = l }) (sym e)) refl refl (λ _. on) v
    go (p ∷ q) e on = took c r came t p q v on e _ (
        handled p v.popped (record t.hunter { message_queue = record { queue = q } }) v.filed
          v.ordered (v.covered on) c r)

step-Hunted :
    (c : UnixSocketClient) (ev : Event) (came : List PcktInfo) (t : Hunt)
    → Hunted came t
    → Stepped came t ev (step c ev t)
unfolding loop_step
step-Hunted c (receives r) came t v = receiver_step-Hunted r came t v
step-Hunted c (loops r) came t v = (
  subst (λ l. Hunted l (loop_step c r t)) (sym (append-nil came)) (loop_step-Hunted c r came t v),
  ground arith,
)

threads-Hunted :
    (c : UnixSocketClient) (evs : List Event) (came : List PcktInfo) (t : Hunt)
    → Hunted came t
    → Hunted (came ++ arrived t.listening evs) (run_threads c evs t)
unfolding run_threads
threads-Hunted c [] came t v = subst (λ l. Hunted l t) (sym (append-nil came)) v
threads-Hunted c (ev ∷ evs) came t v =
    let (w, listens) = step-Hunted c ev came t v in
    subst (λ l. Hunted l (run_threads c evs (step c ev t)))
      (ap (λ b. (came ++ (arrival t.listening ev).1) ++ arrived b evs) listens
        ∙ append_assoc came (arrival t.listening ev).1 _)
      (threads-Hunted c evs (came ++ (arrival t.listening ev).1) (step c ev t) w)

-- However the receiver and the main loop of the packet hunter interleave, whatever is received and
-- whatever the daemon answers, every packet that was put into the queue was taken out, in order, or
-- waits in it; what was printed is a part of what was taken out, in order; and the map holds, by pid
-- and in order, just the packets that were printed with a pid other than -1. As long as the loop goes
-- on, every packet that was taken out compares equal to one that was printed.
pub run_threads-Hunted :
    (c : UnixSocketClient) (evs : List Event)
    → Hunted (arrived true evs) (run_threads c evs started)
run_threads-Hunted c evs = threads-Hunted c evs [] started (record {
  popped = [];
  in_order = refl;
  filed = nothing-IsFiled;
  ordered = Sublistᴰ.slnil;
  covered = λ e. tt;
})
