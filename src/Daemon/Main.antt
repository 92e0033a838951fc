-- ===== src/Daemon/Main.antt =====
-- daemon/src/main.cpp: `main`.
use hut_karish.Prelude.{
  ℕ, ◌+◌, Bool, true, false, ◌&&◌, not, List, map, Option, some, ◌>>=◌, length, if◌then◌else◌,
}
use hut_karish.Prelude.Int.{ℤ, pos, is_negative, eq_ℤ}
use hut_karish.Receiver.{Shared, Round, clean_message_queue}
use hut_karish.Exit.{Exit, returned, terminated, by_signal, still_runs}
use hut_karish.Scan.Ports.{PortMap, Proc}
use hut_karish.Daemon.PortToPidMap.{port_to_pid_map}
use hut_karish.Daemon.Loop.{Daemon, Event, receives, handle_pckt, run_threads, started}
use hut_karish.Daemon.Server.{UnixSocketServer, close_client_fd, stop_listening}

-- What has become of the client thread: it goes on, it has ended, or SIGPIPE in its sendPid has ended
-- the process.
pub data ClientThread : Type 0 where
  serving finished raised : ClientThread

-- The threads until `main` is past its first join: the main loop ends its last round, with /proc as
-- `last`, and the receiver goes on with its rounds `later`.
unfoldable pub until_join : PortMap → List Event → Proc → List Round → Option Daemon
unfolding run_threads
until_join m evs last later = do
  d ← run_threads evs (started m)
  d' ← handle_pckt last d
  run_threads (map receives later) d'

abbrev pub is_positive : ℤ → Bool
is_positive fd = not (is_negative fd) && not (eq_ℤ fd (pos 0))

-- `main` closes the connection of the client, if there is one, and stops the server.
unfoldable pub close_server : Option ℕ → UnixSocketServer → UnixSocketServer
unfolding close_client_fd stop_listening
close_server temporary s =
    stop_listening temporary (if is_positive s.client_fd then close_client_fd s else s)

-- The last join.
abbrev pub last_join : ClientThread → Exit
last_join serving = still_runs
last_join finished = returned (pos 0)
last_join raised = by_signal

-- The end of `main`, from the first join on.
unfoldable pub after_loop :
    ClientThread → Option ℕ → UnixSocketServer → Daemon → Option (Exit × Shared × UnixSocketServer)
unfolding close_server
after_loop clients temporary server d =
    if d.listening then some (still_runs, d.shared, server) else (do
      shared ← clean_message_queue (length d.shared.message_queue.queue + 1) d.shared
      some (last_join clients, shared, close_server temporary server))

abbrev is_raised : ClientThread → Bool
is_raised serving = false
is_raised finished = false
is_raised raised = true

-- How far `main` has come once it has left its loop, with the queue, the heap and the server that it
-- leaves. `subscribes` and `unsubscribes` tell whether the two messages to the kernel module are sent: if
-- not, `main` returns with threads that were not joined. `first` is /proc at the start. `server` is
-- the server as `main` finds it, and `temporary` the socket that stopListeningForNewClients makes.
unfoldable pub daemon_main :
    Proc
    → (subscribes unsubscribes : Bool) → List Event
    → Proc
    → List Round
    → ClientThread
    → Option ℕ
    → UnixSocketServer
    → Option (Exit × Shared × UnixSocketServer)
unfolding until_join after_loop
daemon_main first subscribes unsubscribes evs last later clients temporary server = do
  m ← port_to_pid_map first
  if is_raised clients
      then some (by_signal, (started m).shared, server)
      else if not subscribes
      then some (terminated, (started m).shared, server)
      else (do
        d ← until_join m evs last later
        if not unsubscribes
            then some (terminated, d.shared, server)
            else after_loop clients temporary server d)
