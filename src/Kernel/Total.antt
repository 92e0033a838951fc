-- ===== src/Kernel/Total.antt =====
-- When the kernel module does not fault.
use hut_karish.Prelude.{
  ℕ, ◌≡◌, inl, inr, List, [], ◌∷◌, Option, none, some, Option-cases, ◌>>=◌, arith, Returns,
}
use hut_karish.Kernel.State.{Env, Statics, Kernel}
use hut_karish.Kernel.Messages.{send_stop_msg}
use hut_karish.Kernel.Commands.{UserMsg, nl_recv_msg}
use hut_karish.Kernel.Hook.{packet_sniffer_hook}
use hut_karish.Kernel.Sending.{send_stop_msg_fault_iff}
use hut_karish.Kernel.Registry.{no_hunter, no_daemon}
use hut_karish.Kernel.Reporting.{packet_sniffer_hook-Reported}
use hut_karish.Kernel.Run.{Event, command, packet, step, run, Inv, run-Inv}

-- `kmalloc` always gives memory.
abbrev pub Allocates : Env → Type 0
Allocates e = (n : ℕ) → ¬ (e.kmalloc n ≡ none)

stop_returns : (e : Env) (a : Allocates e) (pid : ℕ) (k : Kernel) → ¬ (send_stop_msg e pid k ≡ none)
stop_returns e a pid k h = a k.calls ((send_stop_msg_fault_iff e pid k).0 h).0

then_returns :
    (e : Env) (a : Allocates e) (f : Statics → Statics) (pid : ℕ) (k : Kernel)
    → ¬ ((send_stop_msg e pid k >>= λ k'. some (record k' { statics = f k'.statics })) ≡ none)
then_returns e a f pid k h = elim (Option-cases (send_stop_msg e pid k)) [
  | inl s ↦ stop_returns e a pid k s
  | inr (k', s) ↦ cc (s, h)
]

recv_returns :
    (e : Env) (a : Allocates e) (m : Option UserMsg) (k : Kernel) → ¬ (nl_recv_msg e m k ≡ none)
unfolding nl_recv_msg
recv_returns e a none k = λ h. cc
recv_returns e a (some m) k = ground (
  arith,
  then_returns e a no_hunter k.packet_hunter_pid k,
  then_returns e a no_daemon k.daemon_pid k,
)

Returns-not_none : {A : Type 0} (P : A → Type 0) (o : Option A) → Returns o P → ¬ (o ≡ none)
Returns-not_none P none r h = absurd r
Returns-not_none P (some a) r h = cc

step_returns : (e : Env) (a : Allocates e) (ev : Event) (k : Kernel) → ¬ (step e ev k ≡ none)
step_returns e a (command m) k h = recv_returns e a m k h
step_returns e a (packet skb) k h = elim (Option-cases (packet_sniffer_hook e skb k)) [
  | inl s ↦ Returns-not_none _ _ (packet_sniffer_hook-Reported e skb k) s
  | inr (p, s) ↦ cc (s, h)
]

run_returns : (e : Env) (a : Allocates e) (evs : List Event) (k : Kernel) → ¬ (run e evs k ≡ none)
unfolding run
run_returns e a [] k h = cc
run_returns e a (ev ∷ evs) k h = elim (Option-cases (step e ev k)) [
  | inl s ↦ step_returns e a ev k s
  | inr (k', s) ↦ run_returns e a evs k' (rw s at h)
]

-- If `kmalloc` always gives memory, every history of commands and packets runs to its end without a
-- fault, and from a state that satisfies the invariant of the module to one that does, whatever the
-- netlink services answer.
pub run-Returns :
    (e : Env) (evs : List Event) (k : Kernel) → Allocates e → Inv k → Returns (run e evs k) Inv
run-Returns e evs k a v = elim (Option-cases (run e evs k)) [
  | inl s ↦ absurd (run_returns e a evs k s)
  | inr (k', s) ↦ rw s (run-Inv e evs k k' s v)
]
