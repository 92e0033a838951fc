-- ===== src/Kernel/Widths.antt =====
-- The widths of what packet_sniffer_hook sends.
use hut_karish.Prelude.{
  ℕ, ◌+◌, ◌<◌, ◌^◌, ◌≡◌, sym, subst, inl, inr, Bool, true, false, not, ◌&&◌, [], ◌∷◌, ◌++◌, Option,
  none, some, Option-cases, Bool-cases, arith, Returns, Returns-bind, ◌==◌, if◌then◌else◌, All,
  All-append,
}
use hut_karish.Packet.{PcktInfo, InRange}
use hut_karish.Kernel.State.{Env, Kernel, tick}
use hut_karish.Kernel.Messages.{create_message, kfree}
use hut_karish.Kernel.Hook.{
  IpHdr, SkBuff, Verdict, Report, parse_packet, read_headers, notify, notify_hunter, notify_clients,
  packet_sniffer_hook, line_of,
}
use hut_karish.Kernel.Sending.{IsBalanced, AtMost, create-send-IsBalanced}
use hut_karish.Kernel.Reporting.{of_report}
use hut_karish.Kernel.Run.{Event, command, packet}

-- Every message that was delivered has fields of their widths.
abbrev pub SentInRange : Kernel → Type 0
SentInRange k = All (λ m. InRange m.1) k.sent

-- The addresses of a packet have 32 bits.
abbrev pub HeaderFits : Option IpHdr → Type 0
HeaderFits none = Unit {0}
HeaderFits (some iph) = (iph.saddr < 2 ^ 32) × (iph.daddr < 2 ^ 32)

abbrev pub EventFits : Event → Type 0
EventFits (command m) = Unit {0}
EventFits (packet none) = Unit {0}
EventFits (packet (some skb)) = HeaderFits skb.ip_hdr

-- Memory holds bytes, and a port has 16 bits.
pub record IsBytes (e : Env) : Type 0 where
  pub memory_fits : (n : ℕ) (m : PcktInfo) → e.kmalloc n ≡ some m → InRange m
  pub port_fits : (p : ℕ) → e.ntohs p < 2 ^ 16

pub record ReportFits (r : Report) : Type 0 where
  pub src_ip_fits : r.src_ip < 2 ^ 32
  pub dst_ip_fits : r.dst_ip < 2 ^ 32
  pub src_port_fits : r.src_port < 2 ^ 16
  pub dst_port_fits : r.dst_port < 2 ^ 16
  pub proto_fits : r.proto < 2 ^ 8

pub AtMost-SentInRange :
    (pid : ℕ) (m : PcktInfo) (k k' : Kernel)
    → InRange m
    → SentInRange k
    → AtMost pid m k k'
    → SentInRange k'
AtMost-SentInRange pid m k k' range sent (inl e) = subst (All λ m. InRange m.1) (sym e) sent
AtMost-SentInRange pid m k k' range sent (inr e) =
    subst (All λ m. InRange m.1) (sym e) (All-append _ k.sent ((pid, m) ∷ []) sent (range, tt))

module _ (e : Env) (b : IsBytes e) where
  read_headers-ReportFits :
      (skb : SkBuff) (iph : IpHdr) (r : Report)
      → iph.saddr < 2 ^ 32
      → iph.daddr < 2 ^ 32
      → read_headers e skb iph ≡ some r
      → ReportFits r
  unfolding read_headers
  read_headers-ReportFits skb iph r s d h =
      ground (arith, b.port_fits skb.source, b.port_fits skb.dest)

  pub parse_packet-ReportFits :
      (skb : SkBuff) (r : Report)
      → HeaderFits skb.ip_hdr
      → parse_packet e (some skb) ≡ some r
      → ReportFits r
  unfolding parse_packet
  parse_packet-ReportFits skb r fits h = elim (Option-cases skb.ip_hdr) [
    | inl n ↦ ground arith
    | inr (iph, s) ↦
        let t : HeaderFits (some iph) = subst HeaderFits s fits in
        read_headers-ReportFits skb iph r t.0 t.1 (ground arith)
  ]

  -- `create_message` gives NULL, or fills memory that `kmalloc` gave.
  created :
      (r : Report) (k : Kernel) (o : Option PcktInfo)
      → e.kmalloc k.calls ≡ o
      → create_message e r.src_ip r.dst_ip r.src_port r.dst_port r.proto k
        ≡ elim o as (λ _. Option PcktInfo × Kernel) [
          | none ↦ (none, tick k)
          | some m ↦ (some (of_report r m), record (tick k) { messages = k.messages + 1 })
        ]
  unfolding create_message
  created r k none h = ground arith
  created r k (some m) h = ground arith

  -- Telling one client.
  notify-SentInRange :
      (pid : ℕ) (r : Report) (k : Kernel)
      → ReportFits r
      → SentInRange k
      → Returns (notify e pid r k) (λ p. SentInRange p.1)
  unfolding notify
  notify-SentInRange pid r k fits sent = elim (Option-cases (e.kmalloc k.calls)) [
    | inl h ↦ rw (created r k none h) sent
    | inr (m, h) ↦
        let range = b.memory_fits k.calls m h in
        let new : PcktInfo = of_report r m in
        rw (created r k (some m) h) (
          Returns-bind
            (λ k'. IsBalanced k (kfree (some new) k') × AtMost pid new k (kfree (some new) k'))
            (λ p. SentInRange p.1) _ _ (create-send-IsBalanced e pid new k)
            λ k' p. AtMost-SentInRange pid new k (kfree (some new) k') (omega arith) sent p.1)
  ]

  notify_hunter-SentInRange :
      (r : Report) (k : Kernel)
      → ReportFits r
      → SentInRange k
      → Returns (notify_hunter e r k) SentInRange
  unfolding notify_hunter
  notify_hunter-SentInRange r k fits sent =
      elim (Bool-cases (not (k.packet_hunter_subscribed == 0) && not (k.packet_hunter_pid == 0))) [
        | inl h ↦
            rw (h, notify_hunter)
              (Returns-bind (λ (p : Bool × Kernel). SentInRange p.1) SentInRange _ _
                (notify-SentInRange k.packet_hunter_pid r k fits sent) λ p t. t)
        | inr h ↦ rw (h, notify_hunter) sent
      ]

  notify_clients-SentInRange :
      (r : Report) (k : Kernel)
      → ReportFits r
      → SentInRange k
      → Returns (notify_clients e r k) SentInRange
  unfolding notify_clients
  notify_clients-SentInRange r k fits sent =
      elim (Bool-cases (not (k.daemon_subscribed == 0) && not (k.daemon_pid == 0))) [
        | inl h ↦
            rw (h, notify_clients)
              (Returns-bind (λ (p : Bool × Kernel). SentInRange p.1) SentInRange _ _
                (notify-SentInRange k.daemon_pid r k fits sent) λ p t. next p.0 p.1 t)
        | inr h ↦ rw (h, notify_clients) (notify_hunter-SentInRange r k fits sent)
      ]
    where
      next :
          (created : Bool) (k' : Kernel)
          → SentInRange k'
          → Returns (if created then notify_hunter e r k' else some k') SentInRange
      next true k' t = notify_hunter-SentInRange r k' fits t
      next false k' t = t

  pub packet_sniffer_hook-SentInRange :
      (skb : Option SkBuff) (k : Kernel)
      → EventFits (packet skb)
      → SentInRange k
      → Returns (packet_sniffer_hook e skb k) (λ p. SentInRange p.1)
  unfolding packet_sniffer_hook
  packet_sniffer_hook-SentInRange none k fits sent = unfold parse_packet in sent
  packet_sniffer_hook-SentInRange (some skb) k fits sent =
      elim (Option-cases (parse_packet e (some skb))) [
        | inl h ↦ rw (h, packet_sniffer_hook) sent
        | inr (r, h) ↦
            rw (h, packet_sniffer_hook)
              (Returns-bind SentInRange (λ (p : Verdict × Kernel). SentInRange p.1) _ _
                (notify_clients-SentInRange r (record k { logged = k.logged ++ line_of r ∷ [] })
                  (parse_packet-ReportFits skb r fits h) sent)
                λ k' t. t)
      ]
