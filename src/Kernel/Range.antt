-- ===== src/Kernel/Range.antt =====
-- The widths of what the kernel module sends, over whole histories.
use hut_karish.Prelude.{
  ℕ, ◌≡◌, ap, sym, subst, inl, inr, List, [], ◌∷◌, Option, none, some, ◌>>=◌, >>=-eq-some, some-inj,
  arith, Returns-at, All,
}
use hut_karish.Packet.{InRange}
use hut_karish.Kernel.State.{Env, Statics, Kernel}
use hut_karish.Kernel.Messages.{filled, send_stop_msg}
use hut_karish.Kernel.Commands.{UserMsg, nl_recv_msg}
use hut_karish.Kernel.Hook.{packet_sniffer_hook}
use hut_karish.Kernel.Sending.{send_stop_msg-cases}
use hut_karish.Kernel.Registry.{no_hunter, no_daemon}
use hut_karish.Kernel.Run.{Event, command, packet, step, run}
use hut_karish.Kernel.Widths.{
  SentInRange, EventFits, IsBytes, AtMost-SentInRange, packet_sniffer_hook-SentInRange,
}

module _ (e : Env) (b : IsBytes e) where
  stop-SentInRange :
      (pid : ℕ) (f : Statics → Statics) (k k' : Kernel)
      → (send_stop_msg e pid k >>= λ k''. some (record k'' { statics = f k''.statics })) ≡ some k'
      → SentInRange k
      → SentInRange k'
  stop-SentInRange pid f k k' h sent =
      let (k'', s, same) =
        >>=-eq-some (send_stop_msg e pid k) (λ k''. some (record k'' { statics = f k''.statics }))
          k' h in
      let kept : k''.sent ≡ k'.sent = ap (λ l. l.sent) (some-inj same) in
      subst (All λ m. InRange m.1) kept (elim (send_stop_msg-cases e pid k k'' s) [
        | inl e ↦ subst (All λ m. InRange m.1) (sym e) sent
        | inr (m, a, e) ↦
            let range = b.memory_fits k.calls m a in
            AtMost-SentInRange pid (filled m 0 0 0 0 0) k k'' (omega arith) sent (inr e)
      ])

  nl_recv_msg-SentInRange :
      (m : Option UserMsg) (k k' : Kernel)
      → nl_recv_msg e m k ≡ some k'
      → SentInRange k
      → SentInRange k'
  unfolding nl_recv_msg
  nl_recv_msg-SentInRange none k k' h sent = subst SentInRange (some-inj h) sent
  nl_recv_msg-SentInRange (some m) k k' h sent = ground (
    arith,
    stop-SentInRange k.packet_hunter_pid no_hunter k k',
    stop-SentInRange k.daemon_pid no_daemon k k',
  )

  pub step-SentInRange :
      (ev : Event) (k k' : Kernel)
      → step e ev k ≡ some k'
      → EventFits ev
      → SentInRange k
      → SentInRange k'
  step-SentInRange (command m) k k' h fits sent = nl_recv_msg-SentInRange m k k' h sent
  step-SentInRange (packet skb) k k' h fits sent =
      let (p, hp, same) = >>=-eq-some (packet_sniffer_hook e skb k) (λ p. some p.1) k' h in
      subst SentInRange (some-inj same) (
        Returns-at (λ q. SentInRange q.1) _ p hp
          (packet_sniffer_hook-SentInRange e b skb k fits sent))

  -- If the memory of the kernel holds bytes and the addresses of every packet have 32 bits, then at
  -- the end of every history of commands and packets that runs without a fault every message that the
  -- module has delivered is a struct whose fields have the widths of their C types.
  pub run-SentInRange :
      (evs : List Event) (k k' : Kernel)
      → run e evs k ≡ some k'
      → All EventFits evs
      → SentInRange k
      → SentInRange k'
  unfolding run
  run-SentInRange [] k k' h fits sent = subst SentInRange (some-inj h) sent
  run-SentInRange (ev ∷ evs) k k' h fits sent =
      let (k'', s, rest) = >>=-eq-some (step e ev k) (run e evs) k' h in
      run-SentInRange evs k'' k' rest fits.1 (step-SentInRange ev k k'' s fits.0 sent)
