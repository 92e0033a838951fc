-- ===== src/Kernel/State.antt =====
-- kernel_module/sniffer.c: the static variables, the kernel services that the module calls, and
-- what it has done to the rest of the system.
use hut_karish.Prelude.{ℕ, ◌+◌, Bool, List, [], ◌++◌, Option}
use hut_karish.Packet.{PcktInfo}

-- What the kernel's services answer, by the number of the call. `kmalloc` gives memory with
-- whatever it holds, or NULL; the netlink services succeed or fail; `ntohs` reorders a port.
pub record Env : Type 0 where
  pub kmalloc : ℕ → Option PcktInfo
  pub nlmsg_new : ℕ → Bool
  pub nlmsg_put : ℕ → Bool
  pub netlink_unicast : ℕ → Bool
  pub ntohs : ℕ → ℕ

-- The subscription flags and process ids.
pub record Statics : Type 0 where
  pub packet_hunter_subscribed : ℕ
  pub daemon_subscribed : ℕ
  pub packet_hunter_pid : ℕ
  pub daemon_pid : ℕ

-- The line that the hook logs for each packet.
pub record PacketLine : Type 0 where
  pub proto : ℕ
  pub src_ip : ℕ
  pub dst_ip : ℕ
  pub src_port : ℕ
  pub dst_port : ℕ
  pub payload_size : ℕ

-- `calls` numbers the calls of the services; `messages` counts what `kmalloc` gave and `kfree` did
-- not take back, and `skbs` the socket buffers that the module still owns; `sent` and `logged` are
-- oldest first.
pub record Kernel : Type 0 where
  pub statics : Statics
  pub open statics use *
  pub calls : ℕ
  pub messages : ℕ
  pub skbs : ℕ
  pub sent : List (ℕ × PcktInfo)
  pub logged : List PacketLine

abbrev pub tick : Kernel → Kernel
tick k = record k { calls = k.calls + 1 }

abbrev pub loaded : Statics
loaded = record {
  packet_hunter_subscribed = 0;
  daemon_subscribed = 0;
  packet_hunter_pid = 0;
  daemon_pid = 0;
}

-- The module as it is loaded.
abbrev pub init : Kernel
init = record { statics = loaded; calls = 0; messages = 0; skbs = 0; sent = []; logged = [] }

-- The kernel with more messages delivered.
abbrev pub delivers : Kernel → List (ℕ × PcktInfo) → Kernel
delivers k ms = record k { sent = k.sent ++ ms }
