-- ===== src/Kernel/Commands.antt =====
-- kernel_module/sniffer.c: nl_recv_msg.
use hut_karish.Prelude.{
  ℕ, ◌&&◌, List, Option, none, some, ◌>>=◌, ◌==◌, codes, text_eq, if◌then◌else◌,
}
use hut_karish.Kernel.State.{Env, Kernel}
use hut_karish.Kernel.Messages.{send_stop_msg}

abbrev pub packet_hunter_subscribe : List ℕ
packet_hunter_subscribe = codes "packet_hunter_subscribe"

abbrev pub packet_hunter_unsubscribe : List ℕ
packet_hunter_unsubscribe = codes "packet_hunter_unsubscribe"

abbrev pub daemon_subscribe : List ℕ
daemon_subscribe = codes "daemon_subscribe"

abbrev pub daemon_unsubscribe : List ℕ
daemon_unsubscribe = codes "daemon_unsubscribe"

-- The four commands, and any other text.
pub data Command : Type 0 where
  hunter_on hunter_off daemon_on daemon_off unknown : Command

unfoldable pub command_of : List ℕ → Command
command_of m =
    if text_eq m packet_hunter_subscribe
    then Command.hunter_on
    else if text_eq m packet_hunter_unsubscribe
    then Command.hunter_off
    else if text_eq m daemon_subscribe
    then Command.daemon_on
    else if text_eq m daemon_unsubscribe
    then Command.daemon_off
    else Command.unknown

-- A netlink message from user space: the sender's `nlmsg_pid` and the text of the payload.
pub record UserMsg : Type 0 where
  pub nlmsg_pid : ℕ
  pub text : List ℕ

unfoldable pub nl_recv_msg : Env → Option UserMsg → Kernel → Option Kernel
nl_recv_msg e none k = some k
nl_recv_msg e (some m) k =
    if text_eq m.text packet_hunter_subscribe && k.packet_hunter_subscribed == 0
    then some (record k {
      statics = record k.statics { packet_hunter_subscribed = 1; packet_hunter_pid = m.nlmsg_pid };
    })
    else if text_eq m.text packet_hunter_unsubscribe
    then (do
      k' ← send_stop_msg e k.packet_hunter_pid k
      some (record k' {
        statics = record k'.statics { packet_hunter_subscribed = 0; packet_hunter_pid = 0 };
      }))
    else if text_eq m.text daemon_subscribe && k.daemon_subscribed == 0
    then some (record k {
      statics = record k.statics { daemon_subscribed = 1; daemon_pid = m.nlmsg_pid };
    })
    else if text_eq m.text daemon_unsubscribe
    then (do
      k' ← send_stop_msg e k.daemon_pid k
      some (record k' { statics = record k'.statics { daemon_subscribed = 0; daemon_pid = 0 } }))
    else some k
