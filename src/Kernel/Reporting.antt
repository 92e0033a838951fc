-- ===== src/Kernel/Reporting.antt =====
-- What the hook reports of a packet, and to whom.
use hut_karish.Prelude.{
  ℕ, ◌+◌, ◌≡◌, refl, ap, sym, subst, ◌⊎◌, inl, inr, Bool, true, false, not, ◌&&◌, List, [], ◌∷◌,
  ◌++◌, map, map-append, append-nil, append_assoc, Option, none, some, Option-cases, Bool-cases,
  arith, Returns, Returns-bind, Returns-mono, ◌==◌, if◌then◌else◌,
}
use hut_karish.Packet.{PcktInfo}
use hut_karish.Kernel.State.{Env, Statics, Kernel, tick}
use hut_karish.Kernel.Messages.{filled, create_message, kfree}
use hut_karish.Kernel.Sending.{
  IsBalanced, IsBalanced-refl, IsBalanced-tick, IsBalanced-trans, AtMost, create-send-IsBalanced,
}
use hut_karish.Kernel.Hook.{
  SkBuff, Verdict, Report, parse_packet, notify, notify_hunter, notify_clients, packet_sniffer_hook,
  line_of,
}

-- The message that describes a packet, but for the field that the module does not write.
abbrev pub info : Report → PcktInfo
info r = record {
  src_ip = r.src_ip;
  dst_ip = r.dst_ip;
  src_port = r.src_port;
  dst_port = r.dst_port;
  payload_size = 0;
  proto = r.proto;
}

-- What clients were told, leaving `payload_size` aside.
abbrev pub mask : ℕ × PcktInfo → ℕ × PcktInfo
mask (pid, m) = (pid, record m { payload_size = 0 })

abbrev pub told : Kernel → List (ℕ × PcktInfo)
told k = map mask k.sent

-- The process ids of the clients to report to, none or one each.
abbrev pub daemon_of : Statics → List ℕ
daemon_of s =
    if not (s.daemon_subscribed == 0) && not (s.daemon_pid == 0) then s.daemon_pid ∷ [] else []

abbrev pub hunter_of : Statics → List ℕ
hunter_of s =
    if not (s.packet_hunter_subscribed == 0) && not (s.packet_hunter_pid == 0)
    then s.packet_hunter_pid ∷ []
    else []

abbrev pub addressed : Report → List ℕ → List (ℕ × PcktInfo)
addressed r pids = map (λ pid. (pid, info r)) pids

abbrev pub when : Bool → List ℕ → List ℕ
when b pids = if b then pids else []

abbrev pub of_report : Report → PcktInfo → PcktInfo
of_report r memory = filled memory r.src_ip r.dst_ip r.src_port r.dst_port r.proto

told-AtMost :
    (pid : ℕ) (r : Report) (memory : PcktInfo) (k k' : Kernel)
    → AtMost pid (of_report r memory) k k'
    → (b : Bool) × (told k' ≡ told k ++ addressed r (when b (pid ∷ [])))
told-AtMost pid r memory k k' (inl e) = (false, rw (e, append-nil))
told-AtMost pid r memory k k' (inr e) = (true, rw (e, map-append))

-- `create_message` gives NULL or filled memory.
create_message-cases :
    (e : Env) (r : Report) (k : Kernel)
    → (create_message e r.src_ip r.dst_ip r.src_port r.dst_port r.proto k ≡ (none, tick k))
      ⊎ ((m : PcktInfo) × (create_message e r.src_ip r.dst_ip r.src_port r.dst_port r.proto k
            ≡ (some (of_report r m), record (tick k) { messages = k.messages + 1 })))
unfolding create_message
create_message-cases e r k = elim (Option-cases (e.kmalloc k.calls)) [
  | inl h ↦ inl (ground arith)
  | inr (m, h) ↦ inr (m, ground arith)
]

abbrev ToldOne : Report → ℕ → Kernel → Bool × Kernel → Type 0
ToldOne r pid k (c, k') =
    IsBalanced k k' × ((b : Bool) × (told k' ≡ told k ++ addressed r (when b (pid ∷ []))))

-- Telling one client returns, gives back what it took, and adds at most the one message to `pid`.
notify_lem :
    (e : Env) (pid : ℕ) (r : Report) (k : Kernel) → Returns (notify e pid r k) (ToldOne r pid k)
unfolding notify
notify_lem e pid r k = elim (create_message-cases e r k) [
  | inl h ↦ rw h (IsBalanced-tick k, (false, sym (append-nil _)))
  | inr (m, h) ↦ rw h (
      Returns-bind
        (λ k'.
          IsBalanced k (kfree (some (of_report r m)) k')
          × AtMost pid (of_report r m) k (kfree (some (of_report r m)) k'))
        (ToldOne r pid k) _ _ (create-send-IsBalanced e pid (of_report r m) k)
        λ k' p. (p.0, told-AtMost pid r m k (kfree (some (of_report r m)) k') p.1))
]

-- From `k` to `k'` the clients of two lists were told, each list whole or not at all.
pub record Tells (r : Report) (ds hs : List ℕ) (k k' : Kernel) : Type 0 where
  pub to_daemon : Bool
  pub to_hunter : Bool
  pub balanced : IsBalanced k k'
  pub telling : told k' ≡ told k ++ addressed r (when to_daemon ds ++ when to_hunter hs)

when_nil : (b : Bool) → when b [] ≡ []
when_nil true = refl
when_nil false = refl

Tells-none : (r : Report) (ds hs : List ℕ) (k : Kernel) → Tells r ds hs k k
Tells-none r ds hs k = record {
  to_daemon = false;
  to_hunter = false;
  balanced = IsBalanced-refl k;
  telling = sym (append-nil _);
}

module _ (e : Env) (r : Report) where
  notify_hunter-Tells :
      (k : Kernel) → Returns (notify_hunter e r k) (Tells r [] (hunter_of k.statics) k)
  unfolding notify_hunter
  notify_hunter-Tells k =
      elim (Bool-cases (not (k.packet_hunter_subscribed == 0) && not (k.packet_hunter_pid == 0))) [
        | inl h ↦
            rw (h, notify_hunter)
              (Returns-bind (ToldOne r k.packet_hunter_pid k)
                (Tells r [] (k.packet_hunter_pid ∷ []) k) _ _ (notify_lem e k.packet_hunter_pid r k)
                λ p t. record {
                  to_daemon = true;
                  to_hunter = t.1.0;
                  balanced = t.0;
                  telling = t.1.1;
                })
        | inr h ↦ rw (h, notify_hunter) (Tells-none r [] [] k)
      ]

  -- The rest of the hook, after the daemon was told or no message could be made for it.
  after_daemon :
      (created b : Bool) (pid : ℕ) (hs : List ℕ) (k k' : Kernel)
      → IsBalanced k k'
      → told k' ≡ told k ++ addressed r (when b (pid ∷ []))
      → hunter_of k'.statics ≡ hs
      → Returns (if created then notify_hunter e r k' else some k') (Tells r (pid ∷ []) hs k)
  after_daemon false b pid hs k k' balanced t same = record {
    to_daemon = b;
    to_hunter = false;
    balanced = balanced;
    telling = rw append-nil t;
  }
  after_daemon true b pid hs k k' balanced t same =
      Returns-mono (Tells r [] hs k') (Tells r (pid ∷ []) hs k) _
        (λ l u. record {
          to_daemon = b;
          to_hunter = u.to_hunter;
          balanced = IsBalanced-trans balanced u.balanced;
          telling = simp (u.telling, t, map-append, append_assoc, when_nil);
        })
        (subst (λ hs. Returns (notify_hunter e r k') (Tells r [] hs k')) same
          (notify_hunter-Tells k'))

  notify_clients-Tells :
      (k : Kernel)
      → Returns (notify_clients e r k) (Tells r (daemon_of k.statics) (hunter_of k.statics) k)
  unfolding notify_clients
  notify_clients-Tells k =
      elim (Bool-cases (not (k.daemon_subscribed == 0) && not (k.daemon_pid == 0))) [
        | inl h ↦
            rw (h, notify_clients)
              (Returns-bind (ToldOne r k.daemon_pid k)
                (Tells r (k.daemon_pid ∷ []) (hunter_of k.statics) k) _ _
                (notify_lem e k.daemon_pid r k)
                λ p t.
                  after_daemon p.0 t.1.0 k.daemon_pid (hunter_of k.statics) k p.1 t.0 t.1.1
                    (ap hunter_of t.0.statics_kept))
        | inr h ↦ rw (h, notify_clients) (notify_hunter-Tells k)
      ]

-- What the hook does to the kernel, by what it read of the packet.
abbrev pub Reported : Option Report → Kernel → Kernel → Type 0
Reported none k k' = k' ≡ k
Reported (some r) k k' =
    Tells r (daemon_of k.statics) (hunter_of k.statics)
      (record k { logged = k.logged ++ line_of r ∷ [] }) k'

-- Whatever the packet and whatever the kernel's services answer, the hook returns and accepts the
-- packet. A packet that it does not report changes nothing. For one that it reports, one line is
-- logged, no subscription changes, all memory that was taken is given back, and nobody but the
-- subscribed clients is told: the daemon first, each at most once, with the addresses, ports and
-- protocol of the packet.
pub packet_sniffer_hook-Reported :
    (e : Env) (skb : Option SkBuff) (k : Kernel)
    → Returns
        (packet_sniffer_hook e skb k)
        (λ p. (p.0 ≡ Verdict.nf_accept) × Reported (parse_packet e skb) k p.1)
unfolding packet_sniffer_hook
packet_sniffer_hook-Reported e skb k = elim (Option-cases (parse_packet e skb)) [
  | inl h ↦ rw (h, packet_sniffer_hook) (refl, refl)
  | inr (r, h) ↦
      rw (h, packet_sniffer_hook)
        (Returns-bind (Reported (some r) k)
          (λ p. (p.0 ≡ Verdict.nf_accept) × Reported (some r) k p.1) _ _
          (notify_clients-Tells e r (record k { logged = k.logged ++ line_of r ∷ [] }))
          λ k' t. (refl, t))
]
