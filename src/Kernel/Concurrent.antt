-- ===== src/Kernel/Concurrent.antt =====
-- kernel_module/sniffer.c: nl_recv_msg and packet_sniffer_hook as they run beside each other. The
-- kernel calls the first in the process that sends and the second for each packet, on any processor,
-- and no lock guards the four static variables. A step is an access to one of them, with what the
-- code does up to the next; the accesses of all runs come one after another.
pub mod Known
pub mod Alone
pub mod Sequential
pub mod Addressed
pub mod Deaf
pub mod Lost
use hut_karish.Prelude.{
  ℕ, ◌≡◌, Bool, true, false, List, [], ◌∷◌, Option, none, some, ◌==◌, if◌then◌else◌,
}
use hut_karish.Kernel.State.{Statics, loaded}
use hut_karish.Kernel.Clients.{Client, flag_of, pid_of, set_flag, set_pid}
use hut_karish.Kernel.Hook.{Report}

-- Where a run stands. In nl_recv_msg for a client's subscription: at the test of the flag, at the
-- setting of the flag, and at that of the pid; for its unsubscription: at the reading of the pid for
-- the order to stop, and at the two resets. In the hook, for a packet and a client: at the test of the
-- flag, at that of the pid, and at the reading of the pid for the message. A run that read through NULL
-- goes no further.
pub data Pc : Type 0 where
  idle faulted : Pc
  subscribing marking filing : Client → ℕ → Pc
  stopping clearing forgetting : Client → Pc
  testing looking telling : Client → Report → Pc

-- What is sent on behalf of a client.
pub data Told : Type 0 where
  order : Client → Told
  packet : Client → Report → Told

abbrev pub client_of : Told → Client
client_of (order c) = c
client_of (packet c r) = c

-- The hook goes on with the packet hunter after the daemon.
abbrev pub next_client : Client → Report → Pc
next_client Client.daemon r = testing Client.packet_hunter r
next_client Client.packet_hunter r = idle

pub record Moved : Type 0 where
  pub statics : Statics
  pub pc : Pc
  pub sends : Option (ℕ × Told)

abbrev only : Statics → Pc → Moved
only s pc = record { statics = s; pc = pc; sends = none }

-- What becomes of a message: there is no memory for it, it is not sent, or it is.
pub data Outcome : Type 0 where
  no_memory unsent posted : Outcome

abbrev pub post : Outcome → ℕ → Told → Option (ℕ × Told)
post no_memory pid t = none
post unsent pid t = none
post posted pid t = some (pid, t)

abbrev pub has_memory : Outcome → Bool
has_memory no_memory = false
has_memory unsent = true
has_memory posted = true

-- One step of a run. Without memory the hook returns, and send_stop_msg reads through NULL; that it may also
-- send nothing, when the netlink buffer fails too, is the outcome `unsent`.
unfoldable pub move : Outcome → Pc → Statics → Moved
move o idle s = only s idle
move o faulted s = only s faulted
move o (subscribing c pid) s = only s (if flag_of c s == 0 then marking c pid else idle)
move o (marking c pid) s = only (set_flag c 1 s) (filing c pid)
move o (filing c pid) s = only (set_pid c pid s) idle
move o (stopping c) s = record {
  statics = s;
  pc = if has_memory o then clearing c else faulted;
  sends = post o (pid_of c s) (order c);
}
move o (clearing c) s = only (set_flag c 0 s) (forgetting c)
move o (forgetting c) s = only (set_pid c 0 s) idle
move o (testing c r) s = only s (if flag_of c s == 0 then next_client c r else looking c r)
move o (looking c r) s = only s (if pid_of c s == 0 then next_client c r else telling c r)
move o (telling c r) s = record {
  statics = s;
  pc = if has_memory o then next_client c r else idle;
  sends = post o (pid_of c s) (packet c r);
}

abbrev pub update : (ℕ → Pc) → ℕ → Pc → ℕ → Pc
update f i pc j = if i == j then pc else f j

-- The runs, each with a number; what was handed to the network, newest first, and who has asked to be
-- which client.
pub record System : Type 0 where
  pub statics : Statics
  pub pc : ℕ → Pc
  pub sent : List (ℕ × Told)
  pub asked : List (Client × ℕ)

abbrev pub hand_over : Option (ℕ × Told) → List (ℕ × Told) → List (ℕ × Told)
hand_over none ms = ms
hand_over (some m) ms = m ∷ ms

abbrev pub after : System → ℕ → Moved → System
after s i m = record s {
  statics = m.statics;
  pc = update s.pc i m.pc;
  sent = hand_over m.sends s.sent;
}

-- A step of a run, or the beginning of one: of a subscription or an unsubscription that a process
-- `pid` sends, or of the hook.
pub data Step (s : System) : System → Type 0 where
  moves : (i : ℕ) (o : Outcome) → Step s (after s i (move o (s.pc i) s.statics))
  subscribes :
      (i : ℕ) (c : Client) (pid : ℕ)
      → s.pc i ≡ idle
      → Step s (record s { pc = update s.pc i (subscribing c pid); asked = (c, pid) ∷ s.asked })
  unsubscribes :
      (i : ℕ) (c : Client) → s.pc i ≡ idle → Step s (record s { pc = update s.pc i (stopping c) })
  arrives :
      (i : ℕ) (r : Report)
      → s.pc i ≡ idle
      → Step s (record s { pc = update s.pc i (testing Client.daemon r) })

-- The module as it is loaded.
abbrev pub start : System
start = record { statics = loaded; pc = λ i. idle; sent = []; asked = [] }

pub data Reach : System → Type 0 where
  begins : Reach start
  next : {s t : System} → Reach s → Step s t → Reach t
