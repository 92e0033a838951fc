-- ===== src/Daemon/Ending.antt =====
-- daemon/src/main.cpp: how `main` ends, and what it leaves.
use hut_karish.Prelude.{ℕ, ◌≤◌, ◌≡◌, Bool, true, false, List, [], All, length}
use hut_karish.Prelude.Int.{pos}
use hut_karish.Packet.{is_stop}
use hut_karish.Heap.{Pckt, Holds}
use hut_karish.Exit.{Exit, returned, terminated, by_signal, still_runs}
use hut_karish.Receiver.{Shared}
use hut_karish.Daemon.Server.{UnixSocketServer, Owns}
use hut_karish.Daemon.Loop.{Daemon}
use hut_karish.Daemon.Main.{ClientThread, serving, finished, raised, is_positive}

-- What is left of the memory of packets: nothing, or one order to stop.
abbrev pub Emptied : Shared → Type 0
Emptied s =
    (s.message_queue.queue ≡ [])
    × ((extra : List Pckt) × Holds s.heap extra
        × (length extra ≤ 1)
        × All (λ p. is_stop p.info ≡ true) extra)

-- The server is stopped: it has its own descriptors open, none of them a client's.
abbrev pub Stopped : List ℕ → UnixSocketServer → Type 0
Stopped fds s = Owns fds s × (is_positive s.client_fd ≡ false) × (s.is_shutting_down ≡ true)

-- What the end of `main` leaves when it is past its first join.
abbrev pub Closed : List ℕ → Shared × UnixSocketServer → Type 0
Closed fds (s, server) = Emptied s × Stopped fds server

-- How far `main` has come, by the client thread, by whether each message to the kernel module is
-- sent, and by whether the receiver thread is still in its loop.
abbrev pub AtEnd :
    ClientThread
    → (subscribes unsubscribes listening : Bool) → List ℕ
    → Exit × Shared × UnixSocketServer
    → Type 0
AtEnd raised s u l fds r = r.0 ≡ by_signal
AtEnd serving false u l fds r = r.0 ≡ terminated
AtEnd serving true false l fds r = r.0 ≡ terminated
AtEnd serving true true true fds r = r.0 ≡ still_runs
AtEnd serving true true false fds r = (r.0 ≡ still_runs) × Closed fds (r.1, r.2)
AtEnd finished false u l fds r = r.0 ≡ terminated
AtEnd finished true false l fds r = r.0 ≡ terminated
AtEnd finished true true true fds r = r.0 ≡ still_runs
AtEnd finished true true false fds r = (r.0 ≡ returned (pos 0)) × Closed fds (r.1, r.2)
