-- ===== src/Flow/Hunting.antt =====
-- From the packets that the kernel sees to the map of the packet hunter.
use hut_karish.Prelude.{
  ℕ, suc, ◌≡◌, ◌≢◌, refl, ap, ◌∙◌, Bool, true, false, List, [], ◌∷◌, ◌++◌, map, All, Returns,
  Returns-mono, take,
}
use hut_karish.Packet.{PcktInfo, is_stop}
use hut_karish.Kernel.State.{Env, Kernel, init}
use hut_karish.Kernel.Hook.{Report}
use hut_karish.Kernel.Reporting.{info}
use hut_karish.Kernel.Delivery.{IsWorking}
use hut_karish.Kernel.Run.{run, Event as Happening}
use hut_karish.Kernel.Widths.{EventFits, IsBytes}
use hut_karish.Receiver.{Round as Reception}
use hut_karish.Receiver.Taking.{reception}
use hut_karish.Hunter.Client.{UnixSocketClient}
use hut_karish.Hunter.Loop.{Round}
use hut_karish.Hunter.Threads.{Hunt, Event, receives, loops, run_threads, started}
use hut_karish.Hunter.Hunted.{arrived, Hunted}
use hut_karish.Hunter.Arrived.{run_threads-Hunted}
use hut_karish.Kernel.Clients.{Client}
use hut_karish.Flow.Watch.{inbox, reports, IsQuiet}
use hut_karish.Flow.Reception.{Noise, received_from}
use hut_karish.Flow.Session.{unpaid, session, Delivered, session-Delivered}
use hut_karish.Flow.Prefix.{taken_all, inbox_taken}

-- Whose turn it is in the packet hunter: the receiver's, with its next datagram, or the main loop's.
pub data Turn : Type 0 where
  receiver : Turn
  loops_with : Round → Turn

-- The events of the packet hunter. Without a datagram the receiver waits.
abbrev pub woven : List Turn → List Reception → List Event
woven [] rs = []
woven (receiver ∷ ts) [] = woven ts []
woven (receiver ∷ ts) (r ∷ rs) = receives r ∷ woven ts rs
woven (loops_with r ∷ ts) rs = loops r ∷ woven ts rs

-- How many turns the receiver has had.
abbrev pub receivers : List Turn → ℕ
receivers [] = 0
receivers (receiver ∷ ts) = suc (receivers ts)
receivers (loops_with r ∷ ts) = receivers ts

woven-arrived :
    (listening : Bool) (ts : List Turn) (rs : List Reception)
    → arrived listening (woven ts rs) ≡ taken_all listening (take (receivers ts) rs)
woven-arrived l [] [] = refl
woven-arrived l [] (r ∷ rs) = refl
woven-arrived l (receiver ∷ ts) [] = woven-arrived l ts []
woven-arrived l (receiver ∷ ts) (r ∷ rs) =
    ap (λ is. (reception l r).1 ++ is) (woven-arrived (reception l r).0 ts rs)
woven-arrived l (loops_with r ∷ ts) rs = woven-arrived l ts rs

-- The packets that came to the packet hunter are those of the first `n` of the reports `rs`.
pub record Traced (n : ℕ) (rs : List Report) (t : Hunt) : Type 0 where
  pub came : List PcktInfo
  pub first_of : map unpaid came ≡ take n (map info rs)
  pub hunted : Hunted came t

Delivered-Traced :
    (d : ℕ) (z : Noise) (c : UnixSocketClient) (ts : List Turn) (later : List Reception)
    (rs : List Report) (k : Kernel)
    → Delivered d rs k
    → Traced
        (receivers ts)
        rs
        (run_threads c (woven ts (received_from z 0 (inbox d k.sent) ++ later)) started)
Delivered-Traced d z c ts later rs k v =
    let came = woven ts (received_from z 0 (inbox d k.sent) ++ later) in
    record {
      came = arrived true came;
      first_of =
          ap (map unpaid) (woven-arrived true ts _) ∙ inbox_taken d z (receivers ts) later rs k v;
      hunted = run_threads-Hunted c came;
    }

module _ (e : Env) (w : IsWorking e) (d : ℕ) (d_set : d ≢ 0) where
  -- From the network to the packet hunter's map. All services work, memory holds bytes, and the packet
  -- hunter, a process `d`, subscribes to the module as it is loaded; then commands of other processes,
  -- but for `packet_hunter_unsubscribe`, and packets come in any order, and at the end
  -- `packet_hunter_unsubscribe` from anybody. The module returns; and the packet hunter gets what was
  -- sent to it, with the turns of its receiver and its main loop in any order and any answers of the
  -- daemon. When its receiver has had `n` turns, the packets that its main loop took out of the queue
  -- and those of its queue are, in order and once each (leaving `payload_size` aside), those of the
  -- first `n` reports of the hook, or of all if there are fewer; what it printed is a part of what it
  -- took out, in order, and, as long as the loop goes on, covers all of it; and its map holds, by pid
  -- and in order, what it printed with a pid other than -1. No reported packet may have only zeros for
  -- addresses and ports.
  pub run-Traced :
      (b : IsBytes e) (sender : ℕ) (evs : List Happening) (z : Noise) (c : UnixSocketClient)
      (ts : List Turn) (later : List Reception)
      → All (IsQuiet Client.packet_hunter d) evs
      → All EventFits evs
      → All (λ r. is_stop (info r) ≡ false) (reports e evs)
      → Returns (run e (session Client.packet_hunter d sender evs) init) (λ k.
        Traced
          (receivers ts)
          (reports e evs)
          (run_threads c (woven ts (received_from z 0 (inbox d k.sent) ++ later)) started))
  run-Traced b sender evs z c ts later quiet fits reported =
      Returns-mono (Delivered d (reports e evs)) _ _
        (λ k v. Delivered-Traced d z c ts later (reports e evs) k v)
        (session-Delivered e w Client.packet_hunter d d_set b sender evs quiet fits reported)
