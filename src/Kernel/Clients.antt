-- ===== src/Kernel/Clients.antt =====
-- kernel_module/sniffer.c: the variables and the commands of the two clients, side by side.
use hut_karish.Prelude.{ℕ, List, Bool, true, false}
use hut_karish.Kernel.State.{Statics}
use hut_karish.Kernel.Commands.{
  daemon_subscribe, daemon_unsubscribe, packet_hunter_subscribe, packet_hunter_unsubscribe,
}

-- The two clients, with the module's variables for each and their commands.
pub data Client : Type 0 where
  daemon packet_hunter : Client

abbrev pub other : Client → Client
other Client.daemon = Client.packet_hunter
other Client.packet_hunter = Client.daemon

abbrev pub same_client : Client → Client → Bool
same_client Client.daemon Client.daemon = true
same_client Client.packet_hunter Client.packet_hunter = true
same_client _ _ = false

abbrev pub flag_of : Client → Statics → ℕ
flag_of Client.daemon s = s.daemon_subscribed
flag_of Client.packet_hunter s = s.packet_hunter_subscribed

abbrev pub pid_of : Client → Statics → ℕ
pid_of Client.daemon s = s.daemon_pid
pid_of Client.packet_hunter s = s.packet_hunter_pid

abbrev pub subscribe_of : Client → List ℕ
subscribe_of Client.daemon = daemon_subscribe
subscribe_of Client.packet_hunter = packet_hunter_subscribe

abbrev pub unsubscribe_of : Client → List ℕ
unsubscribe_of Client.daemon = daemon_unsubscribe
unsubscribe_of Client.packet_hunter = packet_hunter_unsubscribe

abbrev pub set_flag : Client → ℕ → Statics → Statics
set_flag Client.daemon n s = record s { daemon_subscribed = n }
set_flag Client.packet_hunter n s = record s { packet_hunter_subscribed = n }

abbrev pub set_pid : Client → ℕ → Statics → Statics
set_pid Client.daemon n s = record s { daemon_pid = n }
set_pid Client.packet_hunter n s = record s { packet_hunter_pid = n }
