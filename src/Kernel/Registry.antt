-- ===== src/Kernel/Registry.antt =====
-- The subscriptions as a registry of at most one process for each of the two clients, and
-- nl_recv_msg as its implementation.
use hut_karish.Prelude.{
  ℕ, ◌≡◌, refl, sym, subst, true, false, List, Option, none, some, ◌>>=◌, arith, ◌==◌, ◌≤◌, text_eq,
  text_eq_sound, if◌then◌else◌,
}
use hut_karish.Kernel.State.{Env, Statics, Kernel}
use hut_karish.Kernel.Messages.{send_stop_msg}
use hut_karish.Kernel.Sending.{send_stop_msg-IsBalanced}
use hut_karish.Kernel.Commands.{
  Command, UserMsg, command_of, nl_recv_msg, packet_hunter_subscribe, packet_hunter_unsubscribe,
  daemon_subscribe, daemon_unsubscribe,
}

pub record Registry : Type 0 where
  pub daemon : Option ℕ
  pub hunter : Option ℕ

abbrev holder : ℕ → ℕ → Option ℕ
holder subscribed pid = if subscribed == 0 then none else some pid

abbrev pub registry : Statics → Registry
registry s = record {
  daemon = holder s.daemon_subscribed s.daemon_pid;
  hunter = holder s.packet_hunter_subscribed s.packet_hunter_pid;
}

-- The first subscriber stays until somebody unsubscribes it.
abbrev enter : ℕ → Option ℕ → Option ℕ
enter pid none = some pid
enter pid (some other) = some other

-- What each command does to the registry.
abbrev pub obey : Command → ℕ → Registry → Registry
obey Command.hunter_on pid r = record r { hunter = enter pid r.hunter }
obey Command.hunter_off pid r = record r { hunter = none }
obey Command.daemon_on pid r = record r { daemon = enter pid r.daemon }
obey Command.daemon_off pid r = record r { daemon = none }
obey Command.unknown pid r = r

-- The flags are 0 or 1, and a client that is not subscribed has no process id.
pub record IsConsistent (s : Statics) : Type 0 where
  pub hunter_flag : s.packet_hunter_subscribed ≤ 1
  pub daemon_flag : s.daemon_subscribed ≤ 1
  pub hunter_gone : (s.packet_hunter_subscribed ≡ 0) → s.packet_hunter_pid ≡ 0
  pub daemon_gone : (s.daemon_subscribed ≡ 0) → s.daemon_pid ≡ 0

only_one : (m a b : List ℕ) → text_eq a b ≡ false → text_eq m a ≡ true → text_eq m b ≡ false
only_one m a b differ h = subst (λ t. text_eq t b ≡ false) (sym (text_eq_sound m a h)) differ

distinct :
    (text_eq packet_hunter_subscribe packet_hunter_unsubscribe ≡ false)
    × (text_eq packet_hunter_subscribe daemon_subscribe ≡ false)
    × (text_eq packet_hunter_subscribe daemon_unsubscribe ≡ false)
    × (text_eq daemon_subscribe daemon_unsubscribe ≡ false)
unfolding text_eq
distinct = (refl, refl, refl, refl)

-- Every way through `nl_recv_msg` that returns: a client enters, a client is told to stop and
-- leaves, or nothing changes.
released :
    (e : Env) (pid : ℕ) (f : Statics → Statics) (k k' : Kernel)
    → (send_stop_msg e pid k >>= λ k''. some (record k'' { statics = f k''.statics })) ≡ some k'
    → (k'.statics ≡ f k.statics) × (k'.messages ≡ k.messages) × (k'.skbs ≡ k.skbs)
released e pid f k k' h = go (send_stop_msg e pid k) refl h
  where
    go :
        (o : Option Kernel)
        → send_stop_msg e pid k ≡ o
        → (o >>= λ k''. some (record k'' { statics = f k''.statics })) ≡ some k'
        → (k'.statics ≡ f k.statics) × (k'.messages ≡ k.messages) × (k'.skbs ≡ k.skbs)
    go none s h' = cc
    go (some k'') s h' =
        let b = send_stop_msg-IsBalanced e pid k k'' s in
        ground (arith, b.statics_kept, b.messages_kept, b.skbs_kept)

abbrev pub no_hunter : Statics → Statics
no_hunter s = record s { packet_hunter_subscribed = 0; packet_hunter_pid = 0 }

abbrev pub no_daemon : Statics → Statics
no_daemon s = record s { daemon_subscribed = 0; daemon_pid = 0 }

-- `nl_recv_msg` implements the registry of subscribers: when it returns, the subscribers are what
-- the command of the message makes of the subscribers before. A subscription enters the sender if
-- nobody is subscribed, an unsubscription takes out whoever is, and any other text changes nothing.
pub nl_recv_msg-obey :
    (e : Env) (m : UserMsg) (k k' : Kernel)
    → nl_recv_msg e (some m) k ≡ some k'
    → registry k'.statics ≡ obey (command_of m.text) m.nlmsg_pid (registry k.statics)
unfolding nl_recv_msg command_of
nl_recv_msg-obey e m k k' h = ground (
  arith,
  only_one m.text packet_hunter_subscribe packet_hunter_unsubscribe distinct.0,
  only_one m.text packet_hunter_subscribe daemon_subscribe distinct.1,
  only_one m.text packet_hunter_subscribe daemon_unsubscribe distinct.2,
  only_one m.text daemon_subscribe daemon_unsubscribe distinct.3,
  released e k.packet_hunter_pid no_hunter k k',
  released e k.daemon_pid no_daemon k k',
)

recv-IsConsistent :
    (e : Env) (m : UserMsg) (k k' : Kernel)
    → nl_recv_msg e (some m) k ≡ some k'
    → IsConsistent k.statics
    → IsConsistent k'.statics × (k'.messages ≡ k.messages) × (k'.skbs ≡ k.skbs)
unfolding nl_recv_msg
recv-IsConsistent e m k k' h c =
    ground
      (arith, released e k.packet_hunter_pid no_hunter k k', released e k.daemon_pid no_daemon k k')

-- It keeps the flags consistent, and leaves no message and no buffer behind.
pub nl_recv_msg-IsConsistent :
    (e : Env) (m : Option UserMsg) (k k' : Kernel)
    → nl_recv_msg e m k ≡ some k'
    → IsConsistent k.statics
    → IsConsistent k'.statics × (k'.messages ≡ k.messages) × (k'.skbs ≡ k.skbs)
nl_recv_msg-IsConsistent e none k k' h c = unfold nl_recv_msg in ground arith
nl_recv_msg-IsConsistent e (some m) k k' h c = recv-IsConsistent e m k k' h c
