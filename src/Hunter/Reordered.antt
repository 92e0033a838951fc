-- ===== src/Hunter/Reordered.antt =====
-- packet_hunter/src/main.cpp: the order of the entries of the map. An unordered_map may put them in
-- another order whenever it grows.
use mathlib.Core.List.{Permᴰ}
use hut_karish.Prelude.{
  ◌≡◌, refl, ap, sym, subst, not, ◌&&◌, List, [], ◌∷◌, Bool-cases, inl, inr, All,
}
use hut_karish.Prelude.Assoc.{int_eq}
use hut_karish.Prelude.Reorder.{IsDistinct}
use hut_karish.Packet.{PcktInfo}
use hut_karish.Queue.{pop}
use hut_karish.Hunter.PacketMap.{PacketMap, contains_packet}
use hut_karish.Hunter.Client.{UnixSocketClient}
use hut_karish.Hunter.Loop.{Hunter, Round, End, main_round, ends}
use hut_karish.Hunter.Threads.{
  Hunt, Event, receives, loops, receiver_step, loop_step, step, run_threads, started,
}
use hut_karish.Receiver.{Round as Reception}
use hut_karish.Hunter.Save.{entries}
use hut_karish.Hunter.Order.{contains_packet-Permᴰ, with_map, handle_packet-Alike, entries-Permᴰ}

-- The threads as they run, or an insertion that puts the entries of the map in another order.
pub data Act : Type 0 where
  happens : Event → Act
  rehashes : (PacketMap → PacketMap) → Act

abbrev pub events_of : List Act → List Event
events_of [] = []
events_of (happens ev ∷ acts) = ev ∷ events_of acts
events_of (rehashes f ∷ acts) = events_of acts

abbrev reorder : PacketMap → Hunt → Hunt
reorder m t = record t { hunter = with_map m t.hunter }

unfoldable pub run_acts : UnixSocketClient → List Act → Hunt → Hunt
run_acts c [] t = t
run_acts c (happens ev ∷ acts) t = run_acts c acts (step c ev t)
run_acts c (rehashes f ∷ acts) t = run_acts c acts (reorder (f t.hunter.map) t)

-- No entry gets lost or changed.
abbrev pub IsRehash : Act → Type 0
IsRehash (happens ev) = Unit {0}
IsRehash (rehashes f) = (m : PacketMap) → Permᴰ m (f m)

-- `t'` is `t` but for the order of the map.
pub record Reordered (t t' : Hunt) : Type 0 where
  pub map_now : PacketMap
  pub reorders : Permᴰ t.hunter.map map_now
  pub distinct : IsDistinct t.hunter.map
  pub same : t' ≡ reorder map_now t

receiver_step-Reordered :
    (r : Reception) (m : PacketMap) (t : Hunt)
    → Permᴰ t.hunter.map m
    → IsDistinct t.hunter.map
    → Reordered (receiver_step r t) (receiver_step r (reorder m t))
unfolding receiver_step
receiver_step-Reordered r m t q d = elim (Bool-cases (t.listening && r.running)) [
  | inl e ↦ rw e (record { map_now = m; reorders = q; distinct = d; same = refl })
  | inr e ↦ rw e (record { map_now = m; reorders = q; distinct = d; same = refl })
]

loop_step-Reordered :
    (c : UnixSocketClient) (r : Round) (m : PacketMap) (t : Hunt)
    → Permᴰ t.hunter.map m
    → IsDistinct t.hunter.map
    → Reordered (loop_step c r t) (loop_step c r (reorder m t))
unfolding loop_step main_round
loop_step-Reordered c r m t q d = elim (Bool-cases (t.looping && r.running)) [
  | inl e ↦
      let popped = record t.hunter { message_queue = (pop t.hunter.message_queue).1 } in
      let v = handle_packet-Alike popped m q d c r (pop t.hunter.message_queue).0 in
      rw e (record {
        map_now = v.map_after;
        reorders = v.reorders;
        distinct = v.distinct;
        same =
            ap
              (λ (s : End × Hunter). record {
                hunter = s.1;
                heap = t.heap;
                listening = t.listening;
                looping = not (ends s.0);
              })
              v.same;
      })
  | inr e ↦ rw e (record { map_now = m; reorders = q; distinct = d; same = refl })
]

step-Reordered :
    (c : UnixSocketClient) (ev : Event) (t t' : Hunt)
    → Reordered t t'
    → Reordered (step c ev t) (step c ev t')
step-Reordered c (receives r) t t' v =
    subst (λ x. Reordered (receiver_step r t) (receiver_step r x)) (sym v.same)
      (receiver_step-Reordered r v.map_now t v.reorders v.distinct)
step-Reordered c (loops r) t t' v =
    subst (λ x. Reordered (loop_step c r t) (loop_step c r x)) (sym v.same)
      (loop_step-Reordered c r v.map_now t v.reorders v.distinct)

rehash-Reordered :
    (f : PacketMap → PacketMap) (t t' : Hunt)
    → IsRehash (rehashes f)
    → Reordered t t'
    → Reordered t (reorder (f t'.hunter.map) t')
rehash-Reordered f t t' keeps v = record {
  map_now = f t'.hunter.map;
  reorders =
      Permᴰ.trans v.reorders
        (subst (λ (x : Hunt). Permᴰ v.map_now (f x.hunter.map)) (sym v.same) (keeps v.map_now));
  distinct = v.distinct;
  same = ap (reorder (f t'.hunter.map)) v.same;
}

threads-Reordered :
    (c : UnixSocketClient) (acts : List Act) (t t' : Hunt)
    → All IsRehash acts
    → Reordered t t'
    → Reordered (run_threads c (events_of acts) t) (run_acts c acts t')
unfolding run_threads run_acts
threads-Reordered c [] t t' fs v = v
threads-Reordered c (happens ev ∷ acts) t t' fs v =
    threads-Reordered c acts _ _ fs.1 (step-Reordered c ev t t' v)
threads-Reordered c (rehashes f ∷ acts) t t' fs v =
    threads-Reordered c acts t _ fs.1 (rehash-Reordered f t t' fs.0 v)

-- The order of the entries of the map matters only to the order in which they are saved. However the
-- two threads interleave, if at any times the entries of the map are put in another order, the packet
-- hunter prints the same packets with the same pids as if they never were, has the same queue and the
-- same live memory, goes on as long, and takes the same packets for known; and the packets of its map
-- are the same, with the same pids, in some order.
pub run_acts-Reordered :
    (c : UnixSocketClient) (acts : List Act)
    → All IsRehash acts
    → let t = run_threads c (events_of acts) started in
      let t' = run_acts c acts started in
      Reordered t t'
      × ((new : PcktInfo) → contains_packet new t.hunter.map ≡ contains_packet new t'.hunter.map)
      × Permᴰ (entries t.hunter.map) (entries t'.hunter.map)
run_acts-Reordered c acts keeps =
    let t = run_threads c (events_of acts) started in
    let v =
      threads-Reordered c acts started started keeps
        (record { map_now = []; reorders = Permᴰ.nil; distinct = tt; same = refl }) in
    let q = subst (λ (x : Hunt). Permᴰ t.hunter.map x.hunter.map) (sym v.same) v.reorders in
    (v, λ new. contains_packet-Permᴰ new q, entries-Permᴰ q)
