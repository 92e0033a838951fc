-- ===== src/Kernel/Sending.antt =====
-- What sending a message changes, whatever the kernel's services answer.
use hut_karish.Prelude.{
  ℕ, ◌+◌, ◌≡◌, refl, ◌∙◌, ◌⊎◌, inl, inr, ◌&&◌, Option-cases, Bool-cases, ◌↔◌, true, [], ◌∷◌, ◌++◌,
  none, some, arith, Returns,
}
use hut_karish.Packet.{PcktInfo}
use hut_karish.Kernel.State.{Env, Kernel, tick}
use hut_karish.Kernel.Messages.{filled, kfree, send_packet_info_to_user, send_stop_msg}

-- Nothing but the log of deliveries and the number of calls differs: every message and every
-- buffer that was allocated on the way is free again.
pub record IsBalanced (k k' : Kernel) : Type 0 where
  pub statics_kept : k'.statics ≡ k.statics
  pub messages_kept : k'.messages ≡ k.messages
  pub skbs_kept : k'.skbs ≡ k.skbs
  pub logged_kept : k'.logged ≡ k.logged

pub IsBalanced-refl : (k : Kernel) → IsBalanced k k
IsBalanced-refl k = record {
  statics_kept = refl;
  messages_kept = refl;
  skbs_kept = refl;
  logged_kept = refl;
}

pub IsBalanced-tick : (k : Kernel) → IsBalanced k (tick k)
IsBalanced-tick k = record {
  statics_kept = refl;
  messages_kept = refl;
  skbs_kept = refl;
  logged_kept = refl;
}

pub IsBalanced-trans : {k l m : Kernel} → IsBalanced k l → IsBalanced l m → IsBalanced k m
IsBalanced-trans p q = record {
  statics_kept = q.statics_kept ∙ p.statics_kept;
  messages_kept = q.messages_kept ∙ p.messages_kept;
  skbs_kept = q.skbs_kept ∙ p.skbs_kept;
  logged_kept = q.logged_kept ∙ p.logged_kept;
}

abbrev pub AtMost : ℕ → PcktInfo → Kernel → Kernel → Type 0
AtMost pid m k k' = (k'.sent ≡ k.sent) ⊎ (k'.sent ≡ k.sent ++ (pid, m) ∷ [])

module _ (e : Env) (pid : ℕ) where
  -- Whatever the services answer, sending an allocated message returns, delivers it at most once
  -- and to `pid` alone, and leaves subscriptions, messages, buffers and log as they were.
  pub send-IsBalanced :
      (m : PcktInfo) (k : Kernel)
      → Returns
          (send_packet_info_to_user e pid (some m) k)
          (λ k'. IsBalanced k k' × AtMost pid m k k')
  unfolding send_packet_info_to_user
  send-IsBalanced m k = ground arith

  -- The hook's use of the two: the message is freed after it was sent.
  pub create-send-IsBalanced :
      (m : PcktInfo) (k : Kernel)
      → Returns
          (send_packet_info_to_user e pid (some m) (record (tick k) { messages = k.messages + 1 }))
          (λ k'. IsBalanced k (kfree (some m) k') × AtMost pid m k (kfree (some m) k'))
  unfolding send_packet_info_to_user
  create-send-IsBalanced m k = ground arith

  -- `send_stop_msg` does not test what `create_message` returns: it reads through NULL exactly when
  -- the allocation fails and the two netlink calls before the copy succeed.
  pub send_stop_msg_fault_iff :
      (k : Kernel)
      → (send_stop_msg e pid k ≡ none) ↔ (
          (e.kmalloc k.calls ≡ none)
          × (e.nlmsg_new (k.calls + 1) ≡ true)
          × (e.nlmsg_put (k.calls + 1 + 1) ≡ true))
  unfolding send_stop_msg
  send_stop_msg_fault_iff k = ground arith

  -- In every other case it gives back what it took.
  pub send_stop_msg-IsBalanced : (k k' : Kernel) → send_stop_msg e pid k ≡ some k' → IsBalanced k k'
  unfolding send_stop_msg
  send_stop_msg-IsBalanced k k' h = ground arith

  -- What a stop message adds to what was delivered.
  pub send_stop_msg-cases :
      (k k' : Kernel)
      → send_stop_msg e pid k ≡ some k'
      → (k'.sent ≡ k.sent)
        ⊎ ((m : PcktInfo) × (e.kmalloc k.calls ≡ some m)
            × (k'.sent ≡ k.sent ++ (pid, filled m 0 0 0 0 0) ∷ []))
  unfolding send_stop_msg
  send_stop_msg-cases k k' h = elim (Option-cases (e.kmalloc k.calls)) [
    | inl n ↦ inl (ground arith)
    | inr (m, a) ↦
        elim (Bool-cases (
          e.nlmsg_new (k.calls + 1)
          && (e.nlmsg_put (k.calls + 1 + 1) && e.netlink_unicast (k.calls + 1 + 1 + 1)))) [
            | inl t ↦ inr (m, a, ground arith)
            | inr f ↦ inl (ground arith)
          ]
  ]
