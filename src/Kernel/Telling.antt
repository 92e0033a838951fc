-- ===== src/Kernel/Telling.antt =====
-- What the hook does for any packet, while the kernel's services work.
use hut_karish.Prelude.{
  ◌≡◌, refl, sym, subst, List, [], ◌++◌, append-nil, ℕ, Option, none, some, Option-cases, inl, inr,
  Returns, Returns-at,
}
use hut_karish.Packet.{PcktInfo}
use hut_karish.Kernel.State.{Env, Kernel, Statics}
use hut_karish.Kernel.Hook.{SkBuff, Verdict, Report, parse_packet, packet_sniffer_hook}
use hut_karish.Kernel.Reporting.{
  told, addressed, daemon_of, hunter_of, Reported, packet_sniffer_hook-Reported,
}
use hut_karish.Kernel.Delivery.{IsWorking, packet_sniffer_hook-TellsAll}

-- The messages for a packet that is reported, or for one that is not.
abbrev pub told_of : Option Report → Statics → List (ℕ × PcktInfo)
told_of none s = []
told_of (some r) s = addressed r (daemon_of s ++ hunter_of s)

abbrev pub Told : Option Report → Kernel → Kernel → Type 0
Told o k k' = (k'.statics ≡ k.statics) × (told k' ≡ told k ++ told_of o k.statics)

pub packet_sniffer_hook-Told :
    (e : Env) (w : IsWorking e) (skb : Option SkBuff) (k : Kernel)
    → Returns (packet_sniffer_hook e skb k) (λ p. Told (parse_packet e skb) k p.1)
packet_sniffer_hook-Told e w skb k = elim (Option-cases (packet_sniffer_hook e skb k)) [
  | inl s ↦ absurd (rw s at (packet_sniffer_hook-Reported e skb k))
  | inr (p, s) ↦ rw s (after p (Returns-at _ _ p s (packet_sniffer_hook-Reported e skb k)).1 s)
]
  where
    after :
        (p : Verdict × Kernel)
        → Reported (parse_packet e skb) k p.1
        → packet_sniffer_hook e skb k ≡ some p
        → Told (parse_packet e skb) k p.1
    after p t s = elim (Option-cases (parse_packet e skb)) [
      | inl h ↦ rw h (subst (Told none k) (sym (rw h at t)) (refl, sym (append-nil (told k))))
      | inr (r, h) ↦ rw h (
        (rw h at t).balanced.statics_kept,
        Returns-at _ _ p s (packet_sniffer_hook-TellsAll e w r skb k h),
      )
    ]
