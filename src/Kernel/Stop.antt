-- ===== src/Kernel/Stop.antt =====
-- The message that ends a client's receiver thread.
use hut_karish.Prelude.{
  ℕ, ◌+◌, ◌≡◌, refl, true, List, [], ◌∷◌, ◌++◌, Option, some, arith, text_eq, Returns, Returns-bind,
}
use hut_karish.Packet.{PcktInfo, is_stop}
use hut_karish.Kernel.State.{Env, Kernel}
use hut_karish.Kernel.Messages.{send_stop_msg, filled}
use hut_karish.Kernel.Commands.{UserMsg, nl_recv_msg, daemon_unsubscribe, packet_hunter_unsubscribe}
use hut_karish.Kernel.Delivery.{IsWorking}

-- One more message was delivered: to `pid`, and its receiver takes it for the order to stop.
abbrev pub StopSent : ℕ → Kernel → Kernel → Type 0
StopSent pid k k' = (m : PcktInfo) × (k'.sent ≡ k.sent ++ (pid, m) ∷ []) × (is_stop m ≡ true)

pub stop_sent :
    (e : Env) (w : IsWorking e) (pid : ℕ) (k : Kernel)
    → Returns
        (send_stop_msg e pid k)
        (λ k'. k'.sent ≡ k.sent ++ (pid, filled (w.memory k.calls) 0 0 0 0 0) ∷ [])
unfolding send_stop_msg
stop_sent e w pid k = ground (
  arith,
  w.allocates k.calls,
  w.makes_skb (k.calls + 1),
  w.puts_header (k.calls + 1 + 1),
  w.delivers (k.calls + 1 + 1 + 1),
)

abbrev pub says : ℕ → List ℕ → Option UserMsg
says sender text = some (record { nlmsg_pid = sender; text = text })

module _ (e : Env) (w : IsWorking e) (sender : ℕ) (k : Kernel) where
  -- While all services work, the command `daemon_unsubscribe`, whoever sends it, makes the module
  -- return with one more message delivered, an order to stop, to the process that was subscribed as
  -- the daemon, which it then has forgotten.
  pub daemon_unsubscribe-StopSent :
      Returns
        (nl_recv_msg e (says sender daemon_unsubscribe) k)
        (λ k'. StopSent k.daemon_pid k k' × (k'.daemon_subscribed ≡ 0) × (k'.daemon_pid ≡ 0))
  unfolding nl_recv_msg is_stop text_eq
  daemon_unsubscribe-StopSent =
      Returns-bind
        (λ k'. k'.sent ≡ k.sent ++ (k.daemon_pid, filled (w.memory k.calls) 0 0 0 0 0) ∷ [])
        (λ k'. StopSent k.daemon_pid k k' × (k'.daemon_subscribed ≡ 0) × (k'.daemon_pid ≡ 0)) _ _
        (stop_sent e w k.daemon_pid k)
        λ k' s. ((filled (w.memory k.calls) 0 0 0 0 0, s, refl), refl, refl)

  -- While all services work, the command `packet_hunter_unsubscribe`, whoever sends it, makes the
  -- module return with one more message delivered, an order to stop, to the process that was
  -- subscribed as the packet hunter, which it then has forgotten.
  pub packet_hunter_unsubscribe-StopSent :
      Returns (nl_recv_msg e (says sender packet_hunter_unsubscribe) k) (λ k'.
        StopSent k.packet_hunter_pid k k'
        × (k'.packet_hunter_subscribed ≡ 0)
        × (k'.packet_hunter_pid ≡ 0))
  unfolding nl_recv_msg is_stop text_eq
  packet_hunter_unsubscribe-StopSent =
      Returns-bind
        (λ k'. k'.sent ≡ k.sent ++ (k.packet_hunter_pid, filled (w.memory k.calls) 0 0 0 0 0) ∷ [])
        (λ k'.
          StopSent k.packet_hunter_pid k k'
          × (k'.packet_hunter_subscribed ≡ 0)
          × (k'.packet_hunter_pid ≡ 0))
        _ _ (stop_sent e w k.packet_hunter_pid k)
        λ k' s. ((filled (w.memory k.calls) 0 0 0 0 0, s, refl), refl, refl)
