-- ===== src/Daemon/Memory.antt =====
-- daemon/src/main.cpp: the memory of packets, whatever the order of the threads.
use hut_karish.Prelude.{
  ℕ, ◌≤◌, ◌≡◌, refl, sym, subst, ap, ◌∙◌, true, ◌&&◌, List, [], ◌∷◌, ◌++◌, Option, none, some,
  arith, append-nil, append_assoc, Bool-cases, Option-cases, inl, inr, Returns, Returns-bind,
  Returns-mono, All, length,
}
use hut_karish.Packet.{PcktInfo, is_stop}
use hut_karish.Heap.{
  Pckt, Heap, Holds, Holds-no_heap, allocate, allocate-Holds, free_packet_info-Holds,
}
use hut_karish.Queue.{push, pop}
use hut_karish.NetLink.Wire.{receive_packet_info}
use hut_karish.Receiver.{Round, receive_round}
use hut_karish.Scan.Ports.{PortMap, Proc}
use hut_karish.Daemon.PortToPidMap.{add_pid_mapping}
use hut_karish.Daemon.Loop.{
  Daemon, Event, receives, pops, handles, receiver_step, take_packet, handle_pckt, step,
  run_threads, started,
}

abbrev held : Option Pckt → List Pckt
held none = []
held (some p) = p ∷ []

-- The live memory is that of the main loop's packet, of the queue, and, once the receiver has ended,
-- of at most one order to stop.
pub record Owned (d : Daemon) : Type 0 where
  pub extra : List Pckt
  pub few : length extra ≤ 1
  pub stops : All (λ p. is_stop p.info ≡ true) extra
  pub none_yet : d.listening ≡ true → extra ≡ []
  pub holds : Holds d.shared.heap (held d.pckt ++ (d.shared.message_queue.queue ++ extra))

received_Owned :
    (o : Option PcktInfo) (d : Daemon)
    → Holds d.shared.heap (held d.pckt ++ (d.shared.message_queue.queue ++ []))
    → Owned (record d {
      shared = (receive_round o d.shared).1;
      listening = (receive_round o d.shared).0;
    })
unfolding receive_round push allocate
received_Owned none d v = record {
  extra = [];
  few = omega arith;
  stops = tt;
  none_yet = λ h. refl;
  holds = v;
}
received_Owned (some info) d v = elim (Bool-cases (is_stop info)) [
  | inl h ↦ rw h (record {
    extra = (allocate info d.shared.heap).0 ∷ [];
    few = omega arith;
    stops = (h, tt);
    none_yet = λ e. cc;
    holds = subst (Holds _) (append_assoc (held d.pckt) d.shared.message_queue.queue _) more;
  })
  | inr h ↦ rw h (record {
    extra = [];
    few = omega arith;
    stops = tt;
    none_yet = λ e. refl;
    holds =
        subst (Holds _)
          (append_assoc (held d.pckt) d.shared.message_queue.queue _
            ∙ ap (λ l. held d.pckt ++ l) (sym (append-nil _)))
          more;
  })
]
  where
    more :
        Holds
          (allocate info d.shared.heap).1
          ((held d.pckt ++ d.shared.message_queue.queue) ++ (allocate info d.shared.heap).0 ∷ [])
    more = allocate-Holds info d.shared.heap (held d.pckt ++ d.shared.message_queue.queue) [] (
        subst (Holds d.shared.heap)
          (sym (append_assoc (held d.pckt) d.shared.message_queue.queue [])) v)

pub receiver_step-Owned : (r : Round) (d : Daemon) → Owned d → Owned (receiver_step r d)
unfolding receiver_step
receiver_step-Owned r d v = elim (Bool-cases (d.listening && r.running)) [
  | inl h ↦ rw h (
      received_Owned (receive_packet_info r.datagram r.buffer) d (
        subst (λ l. Holds d.shared.heap (held d.pckt ++ (d.shared.message_queue.queue ++ l)))
          (v.none_yet (ground arith)) v.holds))
  | inr h ↦ rw h (record {
    extra = v.extra;
    few = v.few;
    stops = v.stops;
    none_yet = λ e. cc;
    holds = v.holds;
  })
]

take_first :
    (q : List Pckt) (h : Heap) (extra : List Pckt)
    → Holds h (q ++ extra)
    → Holds h
        (held (pop (record { queue = q })).0 ++ ((pop (record { queue = q })).1.queue ++ extra))
unfolding pop
take_first [] h extra v = v
take_first (p ∷ q) h extra v = v

take_packet-Owned : (d : Daemon) → Owned d → Owned (take_packet d)
unfolding take_packet
take_packet-Owned d v = elim (Option-cases d.pckt) [
  | inl e ↦ rw e (record {
    extra = v.extra;
    few = v.few;
    stops = v.stops;
    none_yet = v.none_yet;
    holds = take_first d.shared.message_queue.queue d.shared.heap v.extra (rw e at v.holds);
  })
  | inr (p, e) ↦ rw e (record {
    extra = v.extra;
    few = v.few;
    stops = v.stops;
    none_yet = v.none_yet;
    holds = rw e at v.holds;
  })
]

-- No exception ends the program: `addPidMapping` returns, whatever the port and the map.
abbrev pub IsReadable : Proc → Type 0
IsReadable proc =
    (port protocol : ℕ) (m : PortMap) → ¬ (add_pid_mapping proc port protocol m ≡ none)

abbrev pub Done : Daemon → Type 0
Done d = Owned d × (d.pckt ≡ none)

pub handle_pckt-Owned :
    (proc : Proc) (d : Daemon) → IsReadable proc → Owned d → Returns (handle_pckt proc d) Done
unfolding handle_pckt
handle_pckt-Owned proc d readable v = elim (Option-cases d.pckt) [
  | inl e ↦ rw e (
    record {
      extra = v.extra;
      few = v.few;
      stops = v.stops;
      none_yet = v.none_yet;
      holds = rw e at v.holds;
    },
    refl,
  )
  | inr (p, e) ↦ elim (Option-cases (add_pid_mapping proc p.info.dst_port p.info.proto d.map)) [
    | inl h ↦ absurd (readable p.info.dst_port p.info.proto d.map h)
    | inr ((added, map), h) ↦
        rw (e, h)
          (Returns-bind
            (λ heap.
              Holds heap (d.shared.message_queue.queue ++ v.extra)
              × (heap.next ≡ d.shared.heap.next))
            Done _ _ (free_packet_info-Holds p d.shared.heap _ (rw e at v.holds))
            λ heap t. (
              record {
                extra = v.extra;
                few = v.few;
                stops = v.stops;
                none_yet = v.none_yet;
                holds = t.0;
              },
              refl,
            ))
  ]
]

abbrev pub IsCalm : Event → Type 0
IsCalm (receives r) = Unit
IsCalm pops = Unit
IsCalm (handles proc) = IsReadable proc

step-Owned : (ev : Event) (d : Daemon) → IsCalm ev → Owned d → Returns (step ev d) Owned
step-Owned (receives r) d c v = receiver_step-Owned r d v
step-Owned pops d c v = take_packet-Owned d v
step-Owned (handles proc) d c v =
    Returns-mono Done Owned (handle_pckt proc d) (λ d' t. t.0) (handle_pckt-Owned proc d c v)

run_threads-Owned :
    (evs : List Event) (d : Daemon) → All IsCalm evs → Owned d → Returns (run_threads evs d) Owned
unfolding run_threads
run_threads-Owned [] d c v = v
run_threads-Owned (ev ∷ evs) d c v =
    Returns-bind Owned Owned (step ev d) (run_threads evs) (step-Owned ev d c.0 v)
      λ d' t. run_threads-Owned evs d' c.1 t

pub run_threads-Returns :
    (map : PortMap) (evs : List Event)
    → All IsCalm evs
    → Returns (run_threads evs (started map)) Owned
run_threads-Returns map evs calm = run_threads-Owned evs (started map) calm (record {
  extra = [];
  few = omega arith;
  stops = tt;
  none_yet = λ e. refl;
  holds = Holds-no_heap;
})
