-- ===== src/Kernel/Delivery.antt =====
-- While the kernel's services work, the hook tells every subscribed client.
use hut_karish.Prelude.{
  ℕ, ◌+◌, ◌≡◌, refl, ap, sym, subst, Bool, true, not, ◌&&◌, List, [], ◌∷◌, ◌++◌, map-append,
  append-nil, append_assoc, inl, inr, Option, some, Bool-cases, arith, Returns, Returns-bind,
  Returns-mono, ◌==◌, if◌then◌else◌,
}
use hut_karish.Packet.{PcktInfo}
use hut_karish.Kernel.State.{Env, Kernel}
use hut_karish.Kernel.Messages.{create_message, send_packet_info_to_user}
use hut_karish.Kernel.Sending.{IsBalanced, IsBalanced-refl, IsBalanced-trans}
use hut_karish.Kernel.Hook.{
  SkBuff, Report, parse_packet, notify, notify_hunter, notify_clients, packet_sniffer_hook, line_of,
}
use hut_karish.Kernel.Reporting.{told, mask, addressed, daemon_of, hunter_of, of_report}

-- Allocations succeed, giving some memory each, and so does every netlink call.
pub record IsWorking (e : Env) : Type 0 where
  pub memory : ℕ → PcktInfo
  pub allocates : (n : ℕ) → e.kmalloc n ≡ some (memory n)
  pub makes_skb : (n : ℕ) → e.nlmsg_new n ≡ true
  pub puts_header : (n : ℕ) → e.nlmsg_put n ≡ true
  pub delivers : (n : ℕ) → e.netlink_unicast n ≡ true

abbrev pub TellsAll : Report → List ℕ → Kernel → Kernel → Type 0
TellsAll r pids k k' = IsBalanced k k' × (told k' ≡ told k ++ addressed r pids)

module _ (e : Env) (w : IsWorking e) (r : Report) where
  notify_working :
      (pid : ℕ) (k : Kernel)
      → Returns (notify e pid r k) (λ p. (p.0 ≡ true) × TellsAll r (pid ∷ []) k p.1)
  unfolding notify create_message send_packet_info_to_user
  notify_working pid k = ground (
    arith,
    w.allocates k.calls,
    w.makes_skb (k.calls + 1),
    w.puts_header (k.calls + 1 + 1),
    w.delivers (k.calls + 1 + 1 + 1),
    map-append mask k.sent ((pid, of_report r (w.memory k.calls)) ∷ []),
  )

  notify_hunter_working :
      (k : Kernel) (hs : List ℕ)
      → hunter_of k.statics ≡ hs
      → Returns (notify_hunter e r k) (TellsAll r hs k)
  unfolding notify_hunter
  notify_hunter_working k hs same =
      subst (λ l. Returns (notify_hunter e r k) (TellsAll r l k)) same
        (elim (Bool-cases
          (not (k.packet_hunter_subscribed == 0) && not (k.packet_hunter_pid == 0))) [
            | inl h ↦
                rw (h, notify_hunter)
                  (Returns-bind (λ p. (p.0 ≡ true) × TellsAll r (k.packet_hunter_pid ∷ []) k p.1)
                    (TellsAll r (k.packet_hunter_pid ∷ []) k) _ _
                    (notify_working k.packet_hunter_pid k) λ p t. t.1)
            | inr h ↦ rw (h, notify_hunter) (IsBalanced-refl k, sym (append-nil _))
          ])

  hunter_next :
      (pid : ℕ) (k k' : Kernel) (created : Bool)
      → created ≡ true
      → TellsAll r (pid ∷ []) k k'
      → Returns
          (if created then notify_hunter e r k' else some k')
          (TellsAll r (pid ∷ hunter_of k.statics) k)
  hunter_next pid k k' created c t = rw c (
      Returns-mono (TellsAll r (hunter_of k.statics) k') _ _
        (λ l u. (IsBalanced-trans t.0 u.0, simp (u.1, t.1, append_assoc)))
        (notify_hunter_working k' (hunter_of k.statics) (ap hunter_of t.0.statics_kept)))

  notify_clients_working :
      (k : Kernel)
      → Returns (notify_clients e r k) (TellsAll r (daemon_of k.statics ++ hunter_of k.statics) k)
  unfolding notify_clients
  notify_clients_working k =
      elim (Bool-cases (not (k.daemon_subscribed == 0) && not (k.daemon_pid == 0))) [
        | inl h ↦
            rw (h, notify_clients)
              (Returns-bind (λ p. (p.0 ≡ true) × TellsAll r (k.daemon_pid ∷ []) k p.1)
                (TellsAll r (k.daemon_pid ∷ hunter_of k.statics) k) _ _
                (notify_working k.daemon_pid k) λ p t. hunter_next k.daemon_pid k p.1 p.0 t.0 t.1)
        | inr h ↦ rw (h, notify_clients) (notify_hunter_working k (hunter_of k.statics) refl)
      ]

  -- While all services work, the hook returns for each packet that it reports, and has told the
  -- subscribed daemon and the subscribed packet hunter of it, in this order, once each, and nobody
  -- else.
  pub packet_sniffer_hook-TellsAll :
      (skb : Option SkBuff) (k : Kernel)
      → parse_packet e skb ≡ some r
      → Returns
          (packet_sniffer_hook e skb k)
          (λ p. told p.1 ≡ told k ++ addressed r (daemon_of k.statics ++ hunter_of k.statics))
  unfolding packet_sniffer_hook
  packet_sniffer_hook-TellsAll skb k h =
      rw (h, packet_sniffer_hook)
        (Returns-bind
          (TellsAll r (daemon_of k.statics ++ hunter_of k.statics)
            (record k { logged = k.logged ++ line_of r ∷ [] }))
          _ _ _ (notify_clients_working (record k { logged = k.logged ++ line_of r ∷ [] }))
          λ k' t. t.1)
