-- ===== src/Daemon/Arrivals.antt =====
-- daemon/src/main.cpp: the packets that are received, and the one that the main loop takes.
use hut_karish.Prelude.{
  ◌≡◌, refl, ap, sym, ◌∙◌, Bool, ◌&&◌, List, [], ◌∷◌, ◌++◌, map, append-nil, append_assoc, Option,
  none, some, Bool-cases, inl, inr,
}
use hut_karish.Packet.{PcktInfo}
use hut_karish.Heap.{Pckt}
use hut_karish.Queue.{pop}
use hut_karish.NetLink.Wire.{receive_packet_info}
use hut_karish.Receiver.{Round}
use hut_karish.Receiver.Delivery.{infos}
use hut_karish.Receiver.Taking.{reception, received_infos}
use hut_karish.Scan.Ports.{PortMap, Proc}
use hut_karish.Daemon.Calls.{Call, map_after}
use hut_karish.Daemon.Loop.{Daemon, Event, receives, pops, handles, receiver_step, take_packet}

abbrev pub arrival : Bool → Event → Bool × List PcktInfo
arrival listening (receives r) = reception listening r
arrival listening pops = (listening, [])
arrival listening (handles proc) = (listening, [])

-- The packets that the receiver puts into the queue.
abbrev pub arrived : Bool → List Event → List PcktInfo
arrived listening [] = []
arrived listening (ev ∷ evs) = (arrival listening ev).1 ++ arrived (arrival listening ev).0 evs

-- The packet that the main loop works on.
abbrev pub in_hand : Daemon → List PcktInfo
in_hand d = elim d.pckt [ none ↦ [] | some p ↦ p.info ∷ [] ]

-- The call for a packet, with what /proc holds at that time.
abbrev pub call_of : PcktInfo × Proc → Call
call_of (i, proc) = record { proc = proc; port = i.dst_port; protocol = i.proto }

-- The map is what the calls for `done` make of `m`, and the packets that came are those of `done`, the
-- one in hand, and those of the queue.
pub record Mapped (m : PortMap) (came : List PcktInfo) (d : Daemon) : Type 0 where
  pub done : List (PcktInfo × Proc)
  pub called : map_after (map call_of done) m ≡ some d.map
  pub in_order : map (λ c. c.0) done ++ (in_hand d ++ infos d.shared) ≡ came

abbrev pub Stepped : PortMap → List PcktInfo → Daemon → Event → Daemon → Type 0
Stepped m came d ev d' =
    Mapped m (came ++ (arrival d.listening ev).1) d' × (d'.listening ≡ (arrival d.listening ev).0)

grow :
    (xs ys zs came new : List PcktInfo)
    → xs ++ (ys ++ zs) ≡ came
    → xs ++ (ys ++ (zs ++ new)) ≡ came ++ new
grow xs ys zs came new h =
    ap (λ l. xs ++ l) (sym (append_assoc ys zs new))
    ∙ sym (append_assoc xs (ys ++ zs) new)
    ∙ ap (λ l. l ++ new) h

pub receiver_step-Mapped :
    (r : Round) (m : PortMap) (came : List PcktInfo) (d : Daemon)
    → Mapped m came d
    → Stepped m came d (receives r) (receiver_step r d)
unfolding receiver_step
receiver_step-Mapped r m came d v = elim (Bool-cases (d.listening && r.running)) [
  | inl h ↦
      let t = received_infos (receive_packet_info r.datagram r.buffer) d.shared in
      rw h (
        record {
          done = v.done;
          called = v.called;
          in_order =
              ap (λ l. map (λ c. c.0) v.done ++ (in_hand d ++ l)) t.0
              ∙ grow (map (λ c. c.0) v.done) (in_hand d) (infos d.shared) came _ v.in_order;
        },
        t.1,
      )
  | inr h ↦ rw h (
    record { done = v.done; called = v.called; in_order = v.in_order ∙ sym (append-nil came) },
    refl,
  )
]

-- Between two rounds the main loop takes the front of the queue.
pub take_packet-Mapped :
    (m : PortMap) (came : List PcktInfo) (d : Daemon)
    → Mapped m came d
    → Stepped m came d pops (take_packet d)
unfolding take_packet pop
take_packet-Mapped m came d v = go d.pckt d.shared.message_queue.queue refl refl
  where
    go :
        (o : Option Pckt) (q : List Pckt)
        → d.pckt ≡ o
        → d.shared.message_queue.queue ≡ q
        → Stepped m came d pops (take_packet d)
    go (some p) q e f = rw e (
      record {
        done = v.done;
        called = v.called;
        in_order = (rw e at v.in_order) ∙ sym (append-nil came);
      },
      refl,
    )
    go none [] e f =
        rw (e, f)
          (
            record {
              done = v.done;
              called = v.called;
              in_order = (rw (e, f) at v.in_order) ∙ sym (append-nil came);
            },
            refl,
          )
    go none (p ∷ q) e f =
        rw (e, f)
          (
            record {
              done = v.done;
              called = v.called;
              in_order = (rw (e, f) at v.in_order) ∙ sym (append-nil came);
            },
            refl,
          )
