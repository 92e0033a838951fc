-- ===== src/Flow/Refused.antt =====
-- A client that subscribes while another process holds its place.
use hut_karish.Prelude.{
  ℕ, ◌≡◌, ◌≢◌, refl, ap, sym, subst, ◌∙◌, ◌⊎◌, inl, inr, false, List, [], ◌∷◌, ◌++◌, map,
  map-append, append-nil, Option, none, some, Option-cases, arith, Returns, Returns-bind,
  Returns-mono, Returns-at, All, text_eq,
}
use hut_karish.Packet.{PcktInfo}
use hut_karish.Kernel.State.{Env, Kernel}
use hut_karish.Kernel.Messages.{send_stop_msg}
use hut_karish.Kernel.Clients.{Client, other, flag_of, pid_of, subscribe_of, unsubscribe_of}
use hut_karish.Kernel.Commands.{UserMsg, nl_recv_msg}
use hut_karish.Kernel.Hook.{Report, parse_packet}
use hut_karish.Kernel.Reporting.{mask, told}
use hut_karish.Kernel.Delivery.{IsWorking}
use hut_karish.Kernel.Stop.{
  says, StopSent, daemon_unsubscribe-StopSent, packet_hunter_unsubscribe-StopSent,
}
use hut_karish.Kernel.Telling.{told_of, Told, packet_sniffer_hook-Told}
use hut_karish.Kernel.Run.{Event, command, packet, step, run}
use hut_karish.Flow.Watch.{inbox, inbox-append, stop_elsewhere}
use hut_karish.Flow.Session.{run-append}

-- The client in its place is not unsubscribed, and the process `x` does not subscribe as the other
-- client.
abbrev pub IsPatient : Client → ℕ → Event → Type 0
IsPatient c x (command none) = Unit {0}
IsPatient c x (command (some m)) =
    (text_eq m.text (unsubscribe_of c) ≡ false)
    × ((m.nlmsg_pid ≢ x) ⊎ (text_eq m.text (subscribe_of (other c)) ≡ false))
IsPatient c x (packet skb) = Unit {0}

-- The place of the client is taken by `d`, the process `x` has none, and it got just `ms`.
pub record IsAside (c : Client) (d x : ℕ) (ms : List PcktInfo) (k : Kernel) : Type 0 where
  pub taken : flag_of c k.statics ≡ 1
  pub holder : pid_of c k.statics ≡ d
  pub no_other : pid_of (other c) k.statics ≢ x
  pub missed : inbox x (told k) ≡ ms

-- What a process `x` brings about by its unsubscription, when it got just `ms`: the client `d` is told to
-- stop, its place is free, and `x` has got nothing more.
abbrev pub HasEnded : Client → ℕ → ℕ → List PcktInfo → Kernel → Type 0
HasEnded c d x ms k' =
    ((k : Kernel) × StopSent d k k') × (flag_of c k'.statics ≡ 0) × (inbox x (told k') ≡ ms)

stopping :
    (e : Env) (w : IsWorking e) (c : Client) (sender : ℕ) (k : Kernel)
    → Returns
        (nl_recv_msg e (says sender (unsubscribe_of c)) k)
        (λ k'. StopSent (pid_of c k.statics) k k' × (flag_of c k'.statics ≡ 0))
stopping e w Client.daemon sender k =
    Returns-mono _ (λ k'. StopSent k.daemon_pid k k' × (k'.daemon_subscribed ≡ 0)) _
      (λ k' t. (t.0, t.1)) (daemon_unsubscribe-StopSent e w sender k)
stopping e w Client.packet_hunter sender k =
    Returns-mono _ (λ k'. StopSent k.packet_hunter_pid k k' × (k'.packet_hunter_subscribed ≡ 0)) _
      (λ k' t. (t.0, t.1)) (packet_hunter_unsubscribe-StopSent e w sender k)

says-IsPatient : (c : Client) (x : ℕ) → IsPatient c x (command (says x (subscribe_of c)))
unfolding text_eq
says-IsPatient Client.daemon x = (refl, inr refl)
says-IsPatient Client.packet_hunter x = (refl, inr refl)

module _ (e : Env) (w : IsWorking e) (c : Client) (d x : ℕ) (x_set : x ≢ 0) (apart : d ≢ x) where
  sends-IsAside :
      (c : Client) (m : UserMsg) (ms : List PcktInfo) (k k' : Kernel)
      → IsPatient c x (command (some m))
      → IsAside c d x ms k
      → send_stop_msg e (pid_of (other c) k.statics) k ≡ some k'
      → (inbox x (told k') ≡ inbox x (told k)) × (k'.statics ≡ k.statics)
      → Returns (nl_recv_msg e (some m) k) (IsAside c d x ms)
  unfolding nl_recv_msg
  sends-IsAside Client.daemon m ms k k' (q, inl p) v s t = ground (arith, t.0, t.1)
  sends-IsAside Client.daemon m ms k k' (q, inr p) v s t = ground (arith, t.0, t.1)
  sends-IsAside Client.packet_hunter m ms k k' (q, inl p) v s t = ground (arith, t.0, t.1)
  sends-IsAside Client.packet_hunter m ms k k' (q, inr p) v s t = ground (arith, t.0, t.1)

  receive-IsAside :
      (m : Option UserMsg) (ms : List PcktInfo) (k : Kernel)
      → IsPatient c x (command m)
      → IsAside c d x ms k
      → Returns (nl_recv_msg e m k) (IsAside c d x ms)
  unfolding nl_recv_msg
  receive-IsAside none ms k q v = v
  receive-IsAside (some m) ms k q v =
      let stops = stop_elsewhere e w x x_set (pid_of (other c) k.statics) k v.no_other in
      elim (Option-cases (send_stop_msg e (pid_of (other c) k.statics) k)) [
        | inl s ↦ absurd (rw s at stops)
        | inr (k', s) ↦ sends-IsAside c m ms k k' q v s (Returns-at _ _ k' s stops)
      ]

  -- The hook tells `x` nothing.
  unheard :
      (c : Client) (o : Option Report) (ms : List PcktInfo) (k : Kernel)
      → IsAside c d x ms k
      → inbox x (told_of o k.statics) ≡ []
  unheard c none ms k v = refl
  unheard Client.daemon (some r) ms k v = ground (arith, v.holder, v.no_other, apart)
  unheard Client.packet_hunter (some r) ms k v = ground (arith, v.holder, v.no_other, apart)

  hook-IsAside :
      (o : Option Report) (ms : List PcktInfo) (k k' : Kernel)
      → IsAside c d x ms k
      → Told o k k'
      → IsAside c d x ms k'
  hook-IsAside o ms k k' v (kept, t) = record {
    taken = ap (flag_of c) kept ∙ v.taken;
    holder = ap (pid_of c) kept ∙ v.holder;
    no_other = subst (λ s. pid_of (other c) s ≢ x) (sym kept) v.no_other;
    missed =
        ap (inbox x) t
        ∙ inbox-append x (told k) _
        ∙ ap (λ l. inbox x (told k) ++ l) (unheard c o ms k v)
        ∙ append-nil (inbox x (told k))
        ∙ v.missed;
  }

  step-IsAside :
      (ev : Event) (ms : List PcktInfo) (k : Kernel)
      → IsPatient c x ev
      → IsAside c d x ms k
      → Returns (step e ev k) (IsAside c d x ms)
  step-IsAside (command m) ms k q v = receive-IsAside m ms k q v
  step-IsAside (packet skb) ms k q v =
      Returns-bind (λ p. Told (parse_packet e skb) k p.1) (IsAside c d x ms) _ _
        (packet_sniffer_hook-Told e w skb k) λ p t. hook-IsAside (parse_packet e skb) ms k p.1 v t

  run-IsAside :
      (evs : List Event) (ms : List PcktInfo) (k : Kernel)
      → All (IsPatient c x) evs
      → IsAside c d x ms k
      → Returns (run e evs k) (IsAside c d x ms)
  unfolding run
  run-IsAside [] ms k q v = v
  run-IsAside (ev ∷ evs) ms k q v =
      Returns-bind (IsAside c d x ms) (IsAside c d x ms) _ _ (step-IsAside ev ms k q.0 v)
        λ k' t. run-IsAside evs ms k' q.1 t

  last_stop :
      (ms : List PcktInfo) (k k' : Kernel)
      → IsAside c d x ms k
      → StopSent d k k'
      → inbox x (told k') ≡ ms
  last_stop ms k k' v (m, sent, stops) =
      ap (λ l. inbox x (map mask l)) sent
      ∙ ap (inbox x) (map-append mask k.sent ((d, m) ∷ []))
      ∙ inbox-append x (told k) (map mask ((d, m) ∷ []))
      ∙ ground (arith, apart, append-nil (inbox x (told k)))
      ∙ v.missed

  last_unsubscription :
      (ms : List PcktInfo) (k : Kernel)
      → IsAside c d x ms k
      → Returns (run e (command (says x (unsubscribe_of c)) ∷ []) k) (HasEnded c d x ms)
  unfolding run
  last_unsubscription ms k v =
      Returns-bind (λ k'. StopSent (pid_of c k.statics) k k' × (flag_of c k'.statics ≡ 0))
        (HasEnded c d x ms) _ _ (stopping e w c x k)
        λ k' t.
          let stop = subst (λ p. StopSent p k k') v.holder t.0 in
          ((k, stop), t.1, last_stop ms k k' v stop)

  -- While all services work: the place of the client is taken by a process `d`, and another process
  -- `x`, which has no place itself, subscribes as this client; commands and packets come in any order,
  -- but nobody unsubscribes the client and `x` does not subscribe as the other one; then `x`
  -- unsubscribes. The module returns, and all that time it has sent nothing to `x`, no packet and no
  -- order to stop, for which the receiver thread of `x` waits; the last message is an order to stop to
  -- `d`, whose place is then free.
  pub run-Refused :
      (evs : List Event) (k : Kernel)
      → All (IsPatient c x) evs
      → flag_of c k.statics ≡ 1
      → pid_of c k.statics ≡ d
      → pid_of (other c) k.statics ≢ x
      → Returns
          (run e
            (command (says x (subscribe_of c)) ∷ evs ++ command (says x (unsubscribe_of c)) ∷ [])
            k)
          (HasEnded c d x (inbox x (told k)))
  run-Refused evs k q taken holder no_other =
      rw
        (run-append e (command (says x (subscribe_of c)) ∷ evs)
          (command (says x (unsubscribe_of c)) ∷ []) k)
        (Returns-bind (IsAside c d x (inbox x (told k))) (HasEnded c d x (inbox x (told k))) _ _
          (run-IsAside (command (says x (subscribe_of c)) ∷ evs) (inbox x (told k)) k
            (says-IsPatient c x, q)
            (record { taken = taken; holder = holder; no_other = no_other; missed = refl }))
          λ k' t. last_unsubscription (inbox x (told k)) k' t)
