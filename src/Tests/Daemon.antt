-- ===== src/Tests/Daemon.antt =====
-- The daemon's server at concrete inputs.
use hut_karish.Prelude.{
  ℕ, ◌≡◌, true, false, List, [], ◌∷◌, ◌++◌, none, some, map, Bool-cases, inl, inr, ◌==◌,
}
use hut_karish.Prelude.Int.{pos}
use hut_karish.Scan.Ports.{PortMap, Proc, scan_for_pid_by_port}
use hut_karish.Scan.Lines.{parse_listening_sockets}
use hut_karish.Daemon.Loop.{Daemon, Event, receives, pops, handles}
use hut_karish.Daemon.Memory.{IsReadable}
use hut_karish.Receiver.Delivery.{round_of}
use hut_karish.Tests.NetLink.{segment, noise}
use hut_karish.Packet.{PcktInfo, proto_tcp}
use hut_karish.Daemon.PortToPidMap.{add_pid_mapping}
use hut_karish.Daemon.Server.{UnixSocketServer, unix_socket_server, destroy, stop_listening}
use hut_karish.Daemon.Clients.{Round, Connection, request, client_connection_thread, server_life}

abbrev mapped : PortMap
mapped = (8080, pos 17) ∷ []

-- The client has gone.
abbrev gone : Round
gone = record { running = true; bytes = some []; map = mapped }

abbrev requests : List (ℕ × PortMap)
requests = (8080, []) ∷ (8080, mapped) ∷ []

-- A failed accept, a client that asks for a port, and the connection that ends the thread.
abbrev connections : List Connection
connections =
    record { running = true; accepted = none; rounds = [] }
    ∷ record { running = true; accepted = some 4; rounds = map request requests ++ gone ∷ [] }
    ∷ record { running = true; accepted = some 4; rounds = [] }
    ∷ record { running = false; accepted = none; rounds = [] }
    ∷ []

server_life_example :
    (destroy (
      stop_listening
        (some 5)
        (client_connection_thread connections
          (unix_socket_server false (some 3) true true (2 ∷ 1 ∷ 0 ∷ []) true)).1)).open_fds
    ≡ 2 ∷ 1 ∷ 0 ∷ []
server_life_example =
    server_life false (some 3) (some 5) true true true (2 ∷ 1 ∷ 0 ∷ []) connections

-- No sockets and no processes.
abbrev pub quiet : Proc
quiet = record { tcp = []; udp = []; entries = λ n. [] }

pub quiet-IsReadable : IsReadable quiet
unfolding add_pid_mapping scan_for_pid_by_port parse_listening_sockets
quiet-IsReadable port protocol m h = elim (Bool-cases (protocol == proto_tcp)) [
  | inl t ↦ cc (rw t at h)
  | inr u ↦ cc (rw u at h)
]

abbrev pub order : PcktInfo
order = record { src_ip = 0; dst_ip = 0; src_port = 0; dst_port = 0; payload_size = 99; proto = 0 }

-- The receiver puts a packet into the queue while the main loop works on another; an order to stop
-- comes, and after it the loop ends in the middle of a round.
abbrev events : List Event
events =
    receives (round_of segment noise [])
    ∷ pops
    ∷ receives (round_of segment noise [])
    ∷ handles quiet
    ∷ receives (round_of order noise [])
    ∷ pops
    ∷ []

-- The server serves a client as `main` leaves its loop.
abbrev serving_one : UnixSocketServer
serving_one = record {
  server_fd = pos 3;
  client_fd = pos 4;
  is_shutting_down = false;
  open_fds = 4 ∷ 3 ∷ [];
  bound = true;
}
