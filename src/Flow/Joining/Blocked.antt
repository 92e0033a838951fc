-- ===== src/Flow/Joining/Blocked.antt =====
-- A `join` that does not return by itself.
use hut_karish.Prelude.{
  ℕ, ◌+◌, ◌≡◌, refl, ap, sym, ◌∙◌, inl, inr, true, false, List, [], ◌∷◌, map, drop, none, some,
  ◌>>=◌, Option-cases, Returns, Returns-at, Returns-bind, text_eq, arith,
}
use hut_karish.Packet.{PcktInfo}
use hut_karish.Kernel.State.{Env, Kernel}
use hut_karish.Kernel.Messages.{send_stop_msg}
use hut_karish.Kernel.Clients.{Client, unsubscribe_of}
use hut_karish.Kernel.Commands.{nl_recv_msg}
use hut_karish.Kernel.Stop.{says}
use hut_karish.Flow.Watch.{inbox, Watching}
use hut_karish.Flow.Session.{unpaid, inbox-mask}
use hut_karish.Flow.Joining.{
  ListenerPc, MainPc, System, receive, listener_move, main_move, listens, mains, breaks, Reach,
  start, next, begun,
}

-- The order to stop is made, and netlink_unicast does not deliver it.
pub record IsUndelivered (e : Env) (k : Kernel) : Type 0 where
  pub memory : PcktInfo
  pub allocates : e.kmalloc k.calls ≡ some memory
  pub refuses : e.netlink_unicast (k.calls + 1 + 1 + 1) ≡ false

nothing_sent :
    (e : Env) (pid : ℕ) (k : Kernel)
    → IsUndelivered e k
    → Returns (send_stop_msg e pid k) (λ k'. k'.sent ≡ k.sent)
unfolding send_stop_msg
nothing_sent e pid k u = ground (arith, u.allocates, u.refuses)

unheard :
    (e : Env) (d : ℕ) (k : Kernel)
    → IsUndelivered e k
    → Returns
        (nl_recv_msg e (says d (unsubscribe_of Client.packet_hunter)) k)
        (λ k'. (k'.sent ≡ k.sent) × (k'.packet_hunter_subscribed ≡ 0))
unfolding nl_recv_msg text_eq
unheard e d k u =
    Returns-bind (λ k'. k'.sent ≡ k.sent)
      (λ k'. (k'.sent ≡ k.sent) × (k'.packet_hunter_subscribed ≡ 0)) _ _
      (nothing_sent e k.packet_hunter_pid k u) λ k' s. (s, refl)

no_message : (ms : List PcktInfo) → map unpaid ms ≡ [] → ms ≡ []
no_message [] h = refl
no_message (m ∷ ms) h = cc

-- `main` in `join`, and the thread in `recv`.
abbrev pub stuck : Kernel → System
stuck k = record {
  running = true;
  kernel = k;
  taken = 0;
  pushed = [];
  listener = ListenerPc.receiving;
  main = MainPc.joining;
}

stuck_lem :
    (e : Env) (c : Client) (d : ℕ) (k : Kernel)
    → inbox d k.sent ≡ []
    → (listener_move d ListenerPc.receiving (stuck k) ≡ none)
      × (main_move e c d MainPc.joining (stuck k) ≡ none)
unfolding listener_move main_move
stuck_lem e c d k h = (ap (λ l. receive (drop 0 l) (stuck k)) h, refl)

-- If the module cannot deliver the order to stop, then a packet hunter that leaves its loop because a
-- query of the daemon failed, so that `running` stays true, may come to wait in `join` while its
-- receiver thread waits in `recv`: neither can take a step, and the client is no longer subscribed.
pub break_blocks :
    (e : Env) (d : ℕ) (k : Kernel)
    → Watching Client.packet_hunter d [] k
    → IsUndelivered e k
    → (s : System) × Reach e Client.packet_hunter d s
      × (s.main ≡ MainPc.joining)
      × (listener_move d s.listener s ≡ none)
      × (main_move e Client.packet_hunter d s.main s ≡ none)
      × (s.kernel.packet_hunter_subscribed ≡ 0)
unfolding listener_move main_move
break_blocks e d k v u =
    elim (Option-cases (nl_recv_msg e (says d (unsubscribe_of Client.packet_hunter)) k)) [
      | inl h ↦ absurd (rw h at (unheard e d k u))
      | inr (k', h) ↦
          let (sent, gone) = Returns-at _ _ k' h (unheard e d k u) in
          let empty = no_message (inbox d k.sent) (sym (inbox-mask d k.sent) ∙ v.heard) in
          let (listener_waits, main_waits) =
            stuck_lem e Client.packet_hunter d k' (ap (inbox d) sent ∙ empty) in
          let broken = next (start true k v) (breaks refl refl) in
          let joins : Reach e Client.packet_hunter d
              (record (begun true k) { kernel = k'; main = MainPc.joining }) =
            next broken (
              mains (
                ap
                  (λ o.
                    o >>= λ x. some (record (begun true k) { kernel = x; main = MainPc.joining }))
                  h)) in
          (stuck k', next joins (listens refl), refl, listener_waits, main_waits, gone)
    ]
