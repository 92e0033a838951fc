-- ===== src/Kernel/Run.antt =====
-- Histories of the kernel module: commands from user space and packets in any order.
use hut_karish.Prelude.{
  ◌≡◌, sym, subst, ◌∙◌, List, [], ◌∷◌, Option, some, Option-cases, ◌>>=◌, >>=-eq-some, some-inj,
  Returns-at, inl, inr, arith,
}
use hut_karish.Kernel.State.{Env, Kernel, init}
use hut_karish.Kernel.Commands.{UserMsg, nl_recv_msg}
use hut_karish.Kernel.Hook.{SkBuff, Verdict, packet_sniffer_hook, parse_packet}
use hut_karish.Kernel.Registry.{IsConsistent, nl_recv_msg-IsConsistent}
use hut_karish.Kernel.Reporting.{Reported, packet_sniffer_hook-Reported}

pub data Event : Type 0 where
  command : Option UserMsg → Event
  packet : Option SkBuff → Event

abbrev pub step : Env → Event → Kernel → Option Kernel
step e (command m) k = nl_recv_msg e m k
step e (packet skb) k = packet_sniffer_hook e skb k >>= λ p. some p.1

-- The kernel after a history, unless the module faulted on the way.
unfoldable pub run : Env → List Event → Kernel → Option Kernel
run e [] k = some k
run e (ev ∷ evs) k = step e ev k >>= run e evs

-- The registration is consistent, and the module holds no message and no buffer.
pub record Inv (k : Kernel) : Type 0 where
  pub consistent : IsConsistent k.statics
  pub no_messages : k.messages ≡ 0
  pub no_skbs : k.skbs ≡ 0

Reported-Inv :
    (e : Env) (skb : Option SkBuff) (k k' : Kernel)
    → Reported (parse_packet e skb) k k'
    → Inv k
    → Inv k'
Reported-Inv e skb k k' t v = elim (Option-cases (parse_packet e skb)) [
  | inl h ↦ subst Inv (sym (rw h at t)) v
  | inr (r, h) ↦
      let b = (rw h at t).balanced in
      record {
        consistent = subst IsConsistent (sym b.statics_kept) v.consistent;
        no_messages = b.messages_kept ∙ v.no_messages;
        no_skbs = b.skbs_kept ∙ v.no_skbs;
      }
]

step-Inv : (e : Env) (ev : Event) (k k' : Kernel) → step e ev k ≡ some k' → Inv k → Inv k'
step-Inv e (command m) k k' h v =
    let t = nl_recv_msg-IsConsistent e m k k' h v.consistent in
    record { consistent = t.0; no_messages = t.1 ∙ v.no_messages; no_skbs = t.2 ∙ v.no_skbs }
step-Inv e (packet skb) k k' h v =
    let (p, hp, same) = >>=-eq-some (packet_sniffer_hook e skb k) (λ p. some p.1) k' h in
    subst Inv (some-inj same) (
      Reported-Inv e skb k p.1
        (Returns-at (λ q. (q.0 ≡ Verdict.nf_accept) × Reported (parse_packet e skb) k q.1) _ p hp
          (packet_sniffer_hook-Reported e skb k)).1
        v)

-- If a history of commands and packets, in any order, runs without a fault from a state in which
-- the flags are 0 or 1, a client that is not subscribed has process id 0, and the module holds no
-- message and no buffer, then the state at its end is of this kind too.
pub run-Inv : (e : Env) (evs : List Event) (k k' : Kernel) → run e evs k ≡ some k' → Inv k → Inv k'
unfolding run
run-Inv e [] k k' h v = subst Inv (some-inj h) v
run-Inv e (ev ∷ evs) k k' h v =
    let (k'', s, rest) = >>=-eq-some (step e ev k) (run e evs) k' h in
    run-Inv e evs k'' k' rest (step-Inv e ev k k'' s v)

pub Inv-init : Inv init
Inv-init = omega arith
