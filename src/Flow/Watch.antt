-- ===== src/Flow/Watch.antt =====
-- What the kernel module sends to a client while it is subscribed.
use hut_karish.Prelude.{
  ℕ, ◌≡◌, ◌≢◌, refl, ap, sym, subst, ◌∙◌, inl, inr, false, List, [], ◌∷◌, ◌++◌, map, append-nil,
  append_assoc, map-append, Option, none, some, Option-cases, arith, Returns, Returns-bind,
  Returns-mono, Returns-at, ◌==◌, if◌then◌else◌, All, text_eq,
}
use hut_karish.Packet.{PcktInfo}
use hut_karish.Kernel.State.{Env, Kernel}
use hut_karish.Kernel.Messages.{send_stop_msg}
use hut_karish.Kernel.Clients.{Client, other, flag_of, pid_of, unsubscribe_of}
use hut_karish.Kernel.Commands.{UserMsg, nl_recv_msg}
use hut_karish.Kernel.Hook.{SkBuff, Report, parse_packet, packet_sniffer_hook}
use hut_karish.Kernel.Sending.{send_stop_msg-IsBalanced}
use hut_karish.Kernel.Reporting.{told, mask, addressed, info, daemon_of, hunter_of}
use hut_karish.Kernel.Delivery.{IsWorking}
use hut_karish.Kernel.Telling.{told_of, Told, packet_sniffer_hook-Told}
use hut_karish.Kernel.Stop.{stop_sent}
use hut_karish.Kernel.Run.{Event, command, packet, step, run}

-- What a process finds in its netlink socket, of what was delivered to all.
abbrev pub inbox : ℕ → List (ℕ × PcktInfo) → List PcktInfo
inbox d [] = []
inbox d ((pid, m) ∷ ms) = let rest = inbox d ms in if pid == d then m ∷ rest else rest

pub inbox-append :
    (d : ℕ) (ms ns : List (ℕ × PcktInfo)) → inbox d (ms ++ ns) ≡ inbox d ms ++ inbox d ns
inbox-append d [] ns = refl
inbox-append d ((pid, m) ∷ ms) ns = ground (arith, inbox-append d ms ns)

abbrev listed : Option Report → List Report
listed none = []
listed (some r) = r ∷ []

-- The packets of a history that the hook reports.
abbrev pub report_of : Env → Event → List Report
report_of e (command m) = []
report_of e (packet skb) = listed (parse_packet e skb)

abbrev pub reports : Env → List Event → List Report
reports e [] = []
reports e (ev ∷ evs) = report_of e ev ++ reports e evs

-- No order to the client `c`, a process `d`, to stop, and no message of its own.
abbrev pub IsQuiet : Client → ℕ → Event → Type 0
IsQuiet c d (command none) = Unit {0}
IsQuiet c d (command (some m)) = (text_eq m.text (unsubscribe_of c) ≡ false) × (m.nlmsg_pid ≢ d)
IsQuiet c d (packet skb) = Unit {0}

-- The client is subscribed, the other one is another process, and the client was told of the packets
-- of `rs`.
pub record Watching (c : Client) (d : ℕ) (rs : List Report) (k : Kernel) : Type 0 where
  pub subscribed : flag_of c k.statics ≡ 1
  pub pid : pid_of c k.statics ≡ d
  pub apart : pid_of (other c) k.statics ≢ d
  pub heard : inbox d (told k) ≡ map info rs

module _ (e : Env) (w : IsWorking e) (d : ℕ) (d_set : d ≢ 0) where
  pub stop_elsewhere :
      (pid : ℕ) (k : Kernel)
      → pid ≢ d
      → Returns
          (send_stop_msg e pid k)
          (λ k'. (inbox d (told k') ≡ inbox d (told k)) × (k'.statics ≡ k.statics))
  stop_elsewhere pid k ne = elim (Option-cases (send_stop_msg e pid k)) [
    | inl s ↦ absurd (rw s at (stop_sent e w pid k))
    | inr (k', s) ↦
        let sent = Returns-at _ _ k' s (stop_sent e w pid k) in
        rw s (
          ap (λ l. inbox d (map mask l)) sent
              ∙ ap (inbox d) (map-append mask k.sent _)
              ∙ inbox-append d (map mask k.sent) _
              ∙ ground (arith, append-nil (inbox d (map mask k.sent))),
          (send_stop_msg-IsBalanced e pid k k' s).statics_kept,
        )
  ]

  -- A command that concerns the other client only.
  recv_others :
      (c : Client) (m : UserMsg) (rs : List Report) (k k' : Kernel)
      → IsQuiet c d (command (some m))
      → Watching c d rs k
      → send_stop_msg e (pid_of (other c) k.statics) k ≡ some k'
      → (inbox d (told k') ≡ inbox d (told k)) × (k'.statics ≡ k.statics)
      → Returns (nl_recv_msg e (some m) k) (Watching c d rs)
  unfolding nl_recv_msg
  recv_others Client.daemon m rs k k' q v s t = ground (arith, t.0, t.1)
  recv_others Client.packet_hunter m rs k k' q v s t = ground (arith, t.0, t.1)

  recv-Watching :
      (c : Client) (m : Option UserMsg) (rs : List Report) (k : Kernel)
      → IsQuiet c d (command m)
      → Watching c d rs k
      → Returns (nl_recv_msg e m k) (Watching c d rs)
  unfolding nl_recv_msg
  recv-Watching c none rs k q v = v
  recv-Watching c (some m) rs k q v =
      elim (Option-cases (send_stop_msg e (pid_of (other c) k.statics) k)) [
        | inl s ↦ absurd (rw s at (stop_elsewhere (pid_of (other c) k.statics) k v.apart))
        | inr (k', s) ↦
            recv_others c m rs k k' q v s
              (Returns-at _ _ k' s (stop_elsewhere (pid_of (other c) k.statics) k v.apart))
      ]

  -- The hook tells the client once.
  told_once :
      (c : Client) (r : Report) (rs : List Report) (k : Kernel)
      → Watching c d rs k
      → inbox d (addressed r (daemon_of k.statics ++ hunter_of k.statics)) ≡ info r ∷ []
  told_once Client.daemon r rs k v = ground (arith, v.subscribed, v.pid, v.apart, d_set)
  told_once Client.packet_hunter r rs k v = ground (arith, v.subscribed, v.pid, v.apart, d_set)

  told_client :
      (c : Client) (r : Report) (rs : List Report) (k k' : Kernel)
      → Watching c d rs k
      → told k' ≡ told k ++ addressed r (daemon_of k.statics ++ hunter_of k.statics)
      → inbox d (told k') ≡ map info (rs ++ r ∷ [])
  told_client c r rs k k' v t =
      ap (inbox d) t
      ∙ inbox-append d (told k) _
      ∙ ap (λ l. l ++ inbox d (addressed r (daemon_of k.statics ++ hunter_of k.statics))) v.heard
      ∙ ap (λ l. map info rs ++ l) (told_once c r rs k v)
      ∙ sym (map-append info rs (r ∷ []))

  hook_told :
      (c : Client) (o : Option Report) (rs : List Report) (k k' : Kernel)
      → Watching c d rs k
      → Told o k k'
      → Watching c d (rs ++ listed o) k'
  hook_told c o rs k k' v (kept, t) = record {
    subscribed = ap (flag_of c) kept ∙ v.subscribed;
    pid = ap (pid_of c) kept ∙ v.pid;
    apart = subst (λ s. pid_of (other c) s ≢ d) (sym kept) v.apart;
    heard = told_by o t;
  }
    where
      told_by :
          (o : Option Report)
          → told k' ≡ told k ++ told_of o k.statics
          → inbox d (told k') ≡ map info (rs ++ listed o)
      told_by none t =
          ap (inbox d) (t ∙ append-nil (told k)) ∙ v.heard ∙ ap (map info) (sym (append-nil rs))
      told_by (some r) t = told_client c r rs k k' v t

  hook-Watching :
      (c : Client) (skb : Option SkBuff) (rs : List Report) (k : Kernel)
      → Watching c d rs k
      → Returns
          (packet_sniffer_hook e skb k)
          (λ p. Watching c d (rs ++ report_of e (packet skb)) p.1)
  hook-Watching c skb rs k v =
      Returns-mono (λ p. Told (parse_packet e skb) k p.1)
        (λ p. Watching c d (rs ++ report_of e (packet skb)) p.1) _
        (λ p t. hook_told c (parse_packet e skb) rs k p.1 v t) (packet_sniffer_hook-Told e w skb k)

  pub step-Watching :
      (c : Client) (ev : Event) (rs : List Report) (k : Kernel)
      → IsQuiet c d ev
      → Watching c d rs k
      → Returns (step e ev k) (Watching c d (rs ++ report_of e ev))
  step-Watching c (command m) rs k q v = rw append-nil (recv-Watching c m rs k q v)
  step-Watching c (packet skb) rs k q v =
      Returns-bind (λ p. Watching c d (rs ++ report_of e (packet skb)) p.1)
        (Watching c d (rs ++ report_of e (packet skb))) _ _ (hook-Watching c skb rs k v) λ p t. t

  -- Whatever happens while the client is subscribed.
  pub run-Watching :
      (c : Client) (evs : List Event) (rs : List Report) (k : Kernel)
      → All (IsQuiet c d) evs
      → Watching c d rs k
      → Returns (run e evs k) (Watching c d (rs ++ reports e evs))
  unfolding run
  run-Watching c [] rs k q v = rw append-nil v
  run-Watching c (ev ∷ evs) rs k q v =
      Returns-bind (Watching c d (rs ++ report_of e ev)) (Watching c d (rs ++ reports e (ev ∷ evs)))
        _ _ (step-Watching c ev rs k q.0 v)
        λ k' t.
          subst (λ l. Returns (run e evs k') (Watching c d l))
            (append_assoc rs (report_of e ev) (reports e evs))
            (run-Watching c evs (rs ++ report_of e ev) k' q.1 t)
