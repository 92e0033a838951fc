-- ===== src/Flow/Arrival.antt =====
-- From the packets that the kernel sees to the queue of a client.
use hut_karish.Prelude.{
  Returns-mono, ℕ, ◌≡◌, ◌≢◌, ap, ◌∙◌, false, List, ◌++◌, map, map-append, Returns, All,
}
use hut_karish.Packet.{is_stop}
use hut_karish.Kernel.State.{Env, Kernel, init}
use hut_karish.Kernel.Hook.{Report}
use hut_karish.Kernel.Reporting.{info}
use hut_karish.Kernel.Delivery.{IsWorking}
use hut_karish.Kernel.Run.{Event, run}
use hut_karish.Kernel.Widths.{EventFits, IsBytes}
use hut_karish.Receiver.{Shared, Round, recv_packet_info_thread}
use hut_karish.Receiver.Delivery.{infos}
use hut_karish.Kernel.Clients.{Client}
use hut_karish.Flow.Watch.{inbox, reports, IsQuiet}
use hut_karish.Flow.Reception.{Noise, received_from, receive_inbox}
use hut_karish.Flow.Session.{unpaid, session, Delivered, session-Delivered}

arrives :
    (d : ℕ) (z : Noise) (rs : List Report) (later : List Round) (s : Shared) (k : Kernel)
    → Delivered d rs k
    → map unpaid (infos (recv_packet_info_thread (received_from z 0 (inbox d k.sent) ++ later) s))
      ≡ map unpaid (infos s) ++ map info rs
arrives d z rs later s k v =
    ap (λ l. map unpaid (infos (recv_packet_info_thread (received_from z 0 l ++ later) s))) v.split
    ∙ ap (map unpaid) (receive_inbox z v.packets v.stop later s v.plain v.stop_fits v.stops)
    ∙ map-append unpaid (infos s) v.packets
    ∙ ap (λ l. map unpaid (infos s) ++ l) v.heard

module _ (e : Env) (w : IsWorking e) (c : Client) (d : ℕ) (d_set : d ≢ 0) where
  -- From the network to the queue of a client, the daemon or the packet hunter. All services work,
  -- memory holds bytes, and the client, a process `d`, subscribes to the module as it is loaded. Then
  -- commands of other processes, but for the client's own unsubscription, and packets come in any
  -- order, and at the end the client is unsubscribed, by anybody. The module returns; and if the
  -- receiver gets what was sent to `d`, whatever stands in the padding and in its buffers and whatever
  -- comes after, it adds to the queue exactly the packets that the hook reports, in order and once each
  -- (leaving `payload_size` aside), and ends. No reported packet may have only zeros for addresses and
  -- ports.
  pub packets_arrive :
      (b : IsBytes e) (sender : ℕ) (evs : List Event) (z : Noise) (later : List Round) (s : Shared)
      → All (IsQuiet c d) evs
      → All EventFits evs
      → All (λ r. is_stop (info r) ≡ false) (reports e evs)
      → Returns (run e (session c d sender evs) init) (λ k.
        map unpaid (infos (recv_packet_info_thread (received_from z 0 (inbox d k.sent) ++ later) s))
        ≡ map unpaid (infos s) ++ map info (reports e evs))
  packets_arrive b sender evs z later s quiet fits reported =
      Returns-mono (Delivered d (reports e evs)) _ _ (arrives d z (reports e evs) later s)
        (session-Delivered e w c d d_set b sender evs quiet fits reported)
