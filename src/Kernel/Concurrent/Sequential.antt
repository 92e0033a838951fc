-- ===== src/Kernel/Concurrent/Sequential.antt =====
-- The two models of the module agree on runs that nothing gets in between.
use hut_karish.Prelude.{
  ℕ, ◌≡◌, refl, ap, sym, ◌∙◌, subst, Bool, true, false, List, [], ◌++◌, map, append-nil, some,
  some-inj, >>=-eq-some, Returns-at, arith,
}
use hut_karish.Packet.{PcktInfo}
use hut_karish.Kernel.State.{Env, Kernel, Statics}
use hut_karish.Kernel.Sending.{send_stop_msg-IsBalanced}
use hut_karish.Kernel.Clients.{Client, pid_of}
use hut_karish.Kernel.Hook.{Report, Verdict, parse_packet, packet_sniffer_hook}
use hut_karish.Kernel.Reporting.{
  told, mask, addressed, when, Reported, packet_sniffer_hook-Reported, daemon_of, hunter_of,
}
use hut_karish.Kernel.Run.{Event, step}
use hut_karish.Kernel.Concurrent.{Pc, Outcome, posted, idle, testing, Told}
use hut_karish.Kernel.Concurrent.Alone.{
  alone, Begins, subscription, unsubscription, arrival, pids, left, outcome_of, orders, reported,
  outcome_at, alone-subscribing, nl_recv_msg-subscribe, alone-stopping, nl_recv_msg-unsubscribe,
  stop_outcome, pids-mask, told-append, alone-testing,
}

-- The run ends within six steps with the variables of `k'`, and has sent to those to whom `k'` has sent
-- more than `k`.
pub record Agrees (pc : Pc) (k k' : Kernel) : Type 0 where
  pub outcome : Pc → Outcome
  pub sends : List (ℕ × Told)
  pub runs : alone outcome 6 pc k.statics ≡ (sends, idle, k'.statics)
  pub new : List (ℕ × PcktInfo)
  pub sent : told k' ≡ told k ++ new
  pub same : pids new ≡ pids sends

told_pids :
    (b b' : Bool) (r : Report) (s : Statics)
    → pids (addressed r (when b (daemon_of s) ++ when b' (hunter_of s)))
      ≡ pids (reported b Client.daemon r s ++ reported b' Client.packet_hunter r s)
told_pids true true r s = ground arith
told_pids true false r s = ground arith
told_pids false true r s = ground arith
told_pids false false r s = ground arith

Reported-Agrees :
    (r : Report) (k k' : Kernel) → Reported (some r) k k' → Agrees (testing Client.daemon r) k k'
Reported-Agrees r k k' t = record {
  outcome = outcome_at t.to_daemon t.to_hunter;
  sends =
      reported t.to_daemon Client.daemon r k.statics
      ++ reported t.to_hunter Client.packet_hunter r k.statics;
  runs =
      alone-testing t.to_daemon t.to_hunter r k.statics
      ∙ ap
          (λ s. (
            reported t.to_daemon Client.daemon r k.statics
                ++ reported t.to_hunter Client.packet_hunter r k.statics,
            idle,
            s,
          ))
          (sym t.balanced.statics_kept);
  new =
      addressed r
        (when t.to_daemon (daemon_of k.statics) ++ when t.to_hunter (hunter_of k.statics));
  sent = t.telling;
  same = told_pids t.to_daemon t.to_hunter r k.statics;
}

-- The model of nl_recv_msg and the hook as programs whose steps interleave agrees with the one of them as
-- functions: whatever the kernel's services answer, when a subscription, an unsubscription or a packet
-- that is reported is worked on from `k` to `k'` without a fault, there are outcomes of sending with which
-- the run of steps, with no other run in between, ends within six steps, leaves the static variables of
-- `k'`, and sends to the processes to whom the module has sent on the way, in order.
pub step-Agrees :
    (e : Env) (ev : Event) (pc : Pc) (k k' : Kernel)
    → Begins e ev pc
    → step e ev k ≡ some k'
    → Agrees pc k k'
step-Agrees e ev pc k k' (subscription c pid) h =
    let (statics, sent) = nl_recv_msg-subscribe e c pid k k' h in
    record {
      outcome = λ pc. posted;
      sends = [];
      runs = alone-subscribing c pid k.statics ∙ ap (λ s. ([], idle, s)) (sym statics);
      new = [];
      sent = ap (map mask) sent ∙ sym (append-nil (told k));
      same = refl;
    }
step-Agrees e ev pc k k' (unsubscription c pid) h =
    let (l, stops, statics, sent) = nl_recv_msg-unsubscribe e c pid k k' h in
    let (b, new, more, same) = stop_outcome e c k l stops in
    let kept = (send_stop_msg-IsBalanced e (pid_of c k.statics) k l stops).statics_kept in
    record {
      outcome = λ pc. outcome_of b;
      sends = orders b c k.statics;
      runs =
          alone-stopping b c k.statics
          ∙ ap (λ s. (orders b c k.statics, idle, s)) (sym (statics ∙ ap (left c) kept));
      new = map mask new;
      sent = told-append k k' new (sent ∙ more);
      same = pids-mask new ∙ same;
    }
step-Agrees e ev pc k k' (arrival skb r parsed) h =
    let (p, hp, same) = >>=-eq-some (packet_sniffer_hook e skb k) (λ p. some p.1) k' h in
    subst (Agrees (testing Client.daemon r) k) (some-inj same) (
      Reported-Agrees r k p.1 (
        subst (λ o. Reported o k p.1) parsed
          (Returns-at
            (λ (q : Verdict × Kernel).
              (q.0 ≡ Verdict.nf_accept) × Reported (parse_packet e skb) k q.1)
            _ p hp (packet_sniffer_hook-Reported e skb k)).1))
