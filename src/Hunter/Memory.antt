-- ===== src/Hunter/Memory.antt =====
-- packet_hunter/src/main.cpp: the memory of packets, whatever the order of the threads.
use hut_karish.Prelude.{
  ◌+◌, ◌≡◌, refl, sym, subst, ap, ◌∙◌, ◌&&◌, not, List, [], ◌∷◌, ◌++◌, append_assoc, Option, none,
  some, Bool-cases, inl, inr, arith, length, length-append,
}
use hut_karish.Prelude.Int.{ℤ, minus_one, eq_ℤ}
use hut_karish.Prelude.Assoc.{find, assign, int_eq}
use hut_karish.Packet.{PcktInfo, is_stop}
use hut_karish.Heap.{Pckt, Heap, Holds, Holds-move, allocate, allocate-Holds}
use hut_karish.Queue.{MessageQueue, push, pop}
use hut_karish.NetLink.Wire.{receive_packet_info}
use hut_karish.Receiver.{Round as Reception, receive_round}
use hut_karish.Hunter.PacketMap.{PacketMap, contains_packet, vector_or_empty, insert_packet_info}
use hut_karish.Hunter.Client.{UnixSocketClient, send_port, receive_pid}
use hut_karish.Hunter.Loop.{Hunter, Round, keep_packet, handle_packet, main_round}
use hut_karish.Hunter.Freeing.{kept}
use hut_karish.Hunter.Threads.{Hunt, shared_of, receiver_step}

-- An insertion puts its pointer somewhere among those of the map.
record Inserted (p : Pckt) (m m' : PacketMap) : Type 0 where
  front : List Pckt
  back : List Pckt
  before : kept m ≡ front ++ back
  after : kept m' ≡ front ++ p ∷ back

assign-Inserted :
    (pid : ℤ) (p : Pckt) (ps : List Pckt) (m : PacketMap)
    → vector_or_empty (find pid m) ≡ ps
    → Inserted p m (assign pid (ps ++ p ∷ []) m)
unfolding find assign
assign-Inserted pid p ps [] h = record {
  front = [];
  back = [];
  before = refl;
  after = ap (λ l. (l ++ p ∷ []) ++ []) (sym h);
}
assign-Inserted pid p ps ((j, qs) ∷ m) h = elim (Bool-cases (eq_ℤ j pid)) [
  | inl e ↦ rw e (record {
    front = qs;
    back = kept m;
    before = refl;
    after = append_assoc ps _ _ ∙ ap (λ l. l ++ p ∷ kept m) (sym (rw e at h));
  })
  | inr e ↦
      let t = assign-Inserted pid p ps m (rw e at h) in
      rw e (record {
        front = qs ++ t.front;
        back = t.back;
        before = ap (λ l. qs ++ l) t.before ∙ sym (append_assoc qs t.front t.back);
        after = ap (λ l. qs ++ l) t.after ∙ sym (append_assoc qs t.front (p ∷ t.back));
      })
]

-- The live memory is that of the queue, of the map, and of packets that the program has lost; and all
-- that was allocated is among them.
pub record Owns (heap : Heap) (h : Hunter) : Type 0 where
  pub lost : List Pckt
  pub holds : Holds heap (h.message_queue.queue ++ (lost ++ kept h.map))
  pub counted : heap.next ≡ length h.message_queue.queue + length lost + length (kept h.map)

received-Owns :
    (o : Option PcktInfo) (t : Hunt)
    → Owns t.heap t.hunter
    → Owns
        (receive_round o (shared_of t)).1.heap
        (record t.hunter { message_queue = (receive_round o (shared_of t)).1.message_queue })
unfolding receive_round push allocate
received-Owns none t v = record { lost = v.lost; holds = v.holds; counted = v.counted }
received-Owns (some info) t v = elim (Bool-cases (is_stop info)) [
  | inl h ↦ rw h (record {
    lost = (allocate info t.heap).0 ∷ v.lost;
    holds = more;
    counted = omega (arith, v.counted);
  })
  | inr h ↦ rw h (record {
    lost = v.lost;
    holds = subst (Holds _) (sym (append_assoc t.hunter.message_queue.queue _ _)) more;
    counted = omega (arith, v.counted, length-append {0});
  })
]
  where
    more :
        Holds
          (allocate info t.heap).1
          (t.hunter.message_queue.queue ++ (allocate info t.heap).0 ∷ (v.lost ++ kept t.hunter.map))
    more =
        allocate-Holds info t.heap t.hunter.message_queue.queue (v.lost ++ kept t.hunter.map)
          v.holds

pub receiver_step-Owns :
    (r : Reception) (t : Hunt)
    → Owns t.heap t.hunter
    → Owns (receiver_step r t).heap (receiver_step r t).hunter
unfolding receiver_step
receiver_step-Owns r t v = elim (Bool-cases (t.listening && r.running)) [
  | inl h ↦ rw h (received-Owns (receive_packet_info r.datagram r.buffer) t v)
  | inr h ↦ rw h v
]

-- A packet that was popped, and that is neither filed nor lost yet.
record Popped (p : Pckt) (heap : Heap) (h : Hunter) : Type 0 where
  lost : List Pckt
  holds : Holds heap (p ∷ (h.message_queue.queue ++ (lost ++ kept h.map)))
  counted : heap.next ≡ length h.message_queue.queue + length lost + length (kept h.map) + 1

lose : (p : Pckt) (heap : Heap) (h : Hunter) → Popped p heap h → Owns heap h
lose p heap h v = record {
  lost = p ∷ v.lost;
  holds = Holds-move p h.message_queue.queue (v.lost ++ kept h.map) heap v.holds;
  counted = omega (arith, v.counted);
}

regroup : (qs ls fs xs : List Pckt) → qs ++ (ls ++ (fs ++ xs)) ≡ ((qs ++ ls) ++ fs) ++ xs
regroup qs ls fs xs = sym (append_assoc (qs ++ ls) fs xs ∙ append_assoc qs ls (fs ++ xs))

file :
    (p : Pckt) (heap : Heap) (h h' : Hunter)
    → h'.message_queue ≡ h.message_queue
    → Inserted p h.map h'.map
    → Popped p heap h
    → Owns heap h'
file p heap h h' same t v = record {
  lost = v.lost;
  holds =
      subst (Holds heap)
        (sym (regroup h.message_queue.queue v.lost t.front (p ∷ t.back))
          ∙ ap (λ l. h.message_queue.queue ++ (v.lost ++ l)) (sym t.after)
          ∙ ap (λ (q : MessageQueue Pckt). q.queue ++ (v.lost ++ kept h'.map)) (sym same))
        (Holds-move p ((h.message_queue.queue ++ v.lost) ++ t.front) t.back heap (
          subst (λ l. Holds heap (p ∷ l))
            (ap (λ l. h.message_queue.queue ++ (v.lost ++ l)) t.before
              ∙ regroup h.message_queue.queue v.lost t.front t.back)
            v.holds));
  counted = omega (
    arith,
    v.counted,
    ap length t.before,
    ap length t.after,
    length-append {0},
    ap (λ (q : MessageQueue Pckt). length q.queue) same,
  );
}

keep_packet-Owns :
    (p : Pckt) (o : Option ℤ) (heap : Heap) (h : Hunter)
    → Popped p heap h
    → Owns heap (keep_packet p o h).1
unfolding keep_packet insert_packet_info
keep_packet-Owns p none heap h v = lose p heap h v
keep_packet-Owns p (some pid) heap h v = elim (Bool-cases (eq_ℤ pid minus_one)) [
  | inl e ↦
      let u = lose p heap h v in
      rw e (record { lost = u.lost; holds = u.holds; counted = u.counted })
  | inr e ↦
      rw e (
        file p heap h _ refl (assign-Inserted pid p (vector_or_empty (find pid h.map)) h.map refl)
          v)
]

handle_packet-Owns :
    (c : UnixSocketClient) (r : Round) (p : Pckt) (heap : Heap) (h : Hunter)
    → Popped p heap h
    → Owns heap (handle_packet c r (some p) h).1
unfolding handle_packet
handle_packet-Owns c r p heap h v = elim (Bool-cases (contains_packet p.info h.map)) [
  | inl e ↦ rw e (lose p heap h v)
  | inr e ↦ elim (Bool-cases (not (send_port c r.sent p.info.dst_port).0)) [
    | inl f ↦ rw (e, f) (lose p heap h v)
    | inr f ↦
        rw (e, f)
          (keep_packet-Owns p (receive_pid c (r.bytes (send_port c r.sent p.info.dst_port).1)) heap
            h v)
  ]
]

pub main_round-Owns :
    (c : UnixSocketClient) (r : Round) (heap : Heap) (h : Hunter)
    → Owns heap h
    → Owns heap (main_round c r h).1
unfolding main_round pop
main_round-Owns c r heap h v = go h.message_queue.queue refl
  where
    go :
        (q : List Pckt)
        → h.message_queue.queue ≡ q
        → Owns heap
            (handle_packet c r
              (pop (record { queue = q })).0
              (record h { message_queue = (pop (record { queue = q })).1 })).1
    go [] e =
        unfold handle_packet in
        record {
          lost = v.lost;
          holds = subst (λ q. Holds heap (q ++ (v.lost ++ kept h.map))) e v.holds;
          counted = omega (arith, v.counted, ap length e);
        }
    go (p ∷ q) e = handle_packet-Owns c r p heap _ (record {
      lost = v.lost;
      holds = subst (λ q. Holds heap (q ++ (v.lost ++ kept h.map))) e v.holds;
      counted = omega (arith, v.counted, ap length e);
    })
