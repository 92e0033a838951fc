-- ===== src/Kernel/Growing.antt =====
-- What was sent stays sent, while the kernel's services work.
use hut_karish.Prelude.{
  ℕ, ◌≡◌, ap, sym, ◌∙◌, ◌&&◌, List, [], ◌∷◌, ◌++◌, map, map-append, append-nil, Option, none, some,
  Bool-cases, inl, inr, ◌>>=◌, Returns, Returns-bind, text_eq, ◌==◌,
}
use hut_karish.Packet.{PcktInfo}
use hut_karish.Kernel.State.{Env, Statics, Kernel}
use hut_karish.Kernel.Messages.{send_stop_msg, filled}
use hut_karish.Kernel.Commands.{
  UserMsg, nl_recv_msg, packet_hunter_subscribe, packet_hunter_unsubscribe, daemon_subscribe,
  daemon_unsubscribe,
}
use hut_karish.Kernel.Hook.{parse_packet}
use hut_karish.Kernel.Reporting.{mask, told}
use hut_karish.Kernel.Delivery.{IsWorking}
use hut_karish.Kernel.Stop.{stop_sent}
use hut_karish.Kernel.Telling.{told_of, Told, packet_sniffer_hook-Told}
use hut_karish.Kernel.Registry.{no_hunter, no_daemon}
use hut_karish.Kernel.Run.{Event, command, packet, step}

abbrev pub Grows : Kernel → Kernel → Type 0
Grows k k' = (new : List (ℕ × PcktInfo)) × (told k' ≡ told k ++ new)

module _ (e : Env) (w : IsWorking e) where
  stop-Grows :
      (pid : ℕ) (f : Statics → Statics) (k : Kernel)
      → Returns
          (send_stop_msg e pid k >>= λ k'. some (record k' { statics = f k'.statics }))
          (Grows k)
  stop-Grows pid f k =
      Returns-bind (λ k'. k'.sent ≡ k.sent ++ (pid, filled (w.memory k.calls) 0 0 0 0 0) ∷ [])
        (Grows k) _ _ (stop_sent e w pid k)
        λ k' s. (_, ap (λ l. map mask l) s ∙ map-append mask k.sent _)

  nl_recv_msg-Grows : (m : Option UserMsg) (k : Kernel) → Returns (nl_recv_msg e m k) (Grows k)
  unfolding nl_recv_msg
  nl_recv_msg-Grows none k = ([], sym (append-nil (told k)))
  nl_recv_msg-Grows (some m) k =
      elim (Bool-cases
        (text_eq m.text packet_hunter_subscribe && k.packet_hunter_subscribed == 0)) [
          | inl a ↦ rw (a, nl_recv_msg) ([], sym (append-nil (told k)))
          | inr a ↦ elim (Bool-cases (text_eq m.text packet_hunter_unsubscribe)) [
            | inl b ↦ rw (a, b, nl_recv_msg) (stop-Grows k.packet_hunter_pid no_hunter k)
            | inr b ↦
                elim (Bool-cases (text_eq m.text daemon_subscribe && k.daemon_subscribed == 0)) [
                  | inl f ↦ rw (a, b, f, nl_recv_msg) ([], sym (append-nil (told k)))
                  | inr f ↦ elim (Bool-cases (text_eq m.text daemon_unsubscribe)) [
                    | inl g ↦ rw (a, b, f, g, nl_recv_msg) (stop-Grows k.daemon_pid no_daemon k)
                    | inr g ↦ rw (a, b, f, g, nl_recv_msg) ([], sym (append-nil (told k)))
                  ]
                ]
          ]
        ]

  pub step-Grows : (ev : Event) (k : Kernel) → Returns (step e ev k) (Grows k)
  step-Grows (command m) k = nl_recv_msg-Grows m k
  step-Grows (packet skb) k =
      Returns-bind (λ p. Told (parse_packet e skb) k p.1) (Grows k) _ _
        (packet_sniffer_hook-Told e w skb k) λ p t. (told_of (parse_packet e skb) k.statics, t.1)
