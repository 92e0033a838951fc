-- ===== src/Daemon/Clients.antt =====
-- daemon/src/main.cpp: clientConnectionThread and handleClientConnection.
use hut_karish.Prelude.{
  ℕ, ◌^◌, ◌<◌, ◌≡◌, refl, ap, ◌∙◌, Bool, true, false, List, [], ◌∷◌, ◌++◌, map, Option, none, some,
  Bool-cases, inl, inr, arith, if◌then◌else◌, All,
}
use hut_karish.Prelude.Int.{ℤ, pos, minus_one, eq_ℤ, is_negative}
use hut_karish.Scan.Ports.{PortMap}
use hut_karish.Daemon.PortToPidMap.{get_pid}
use hut_karish.Daemon.Pids.{receive_port, port_bytes, receive_port-port_bytes}
use hut_karish.Daemon.Server.{
  UnixSocketServer, close_client_fd, connect_to_client, unix_socket_server, destroy, stop_listening,
  Owns, close_client_fd-Owns, connect_to_client-Owns, unix_socket_server-Owns, destroy-Owns,
  stop_listening-Owns,
}

-- One round of the loop that answers a client: the flag `running` as it is read, what `read` gives,
-- none for an error, and the map as it stands when the port is looked up.
pub record Round : Type 0 where
  pub running : Bool
  pub bytes : Option (List ℕ)
  pub map : PortMap

-- What the daemon sends for a pid: `if(pid)` tests for 0.
unfoldable pub reply : ℤ → ℤ
reply pid = if eq_ℤ pid (pos 0) then minus_one else pid

abbrev answer : ℕ → PortMap → ℤ
answer port m = reply (get_pid port m)

-- The pids that are sent, in order.
unfoldable pub answer_rounds : List Round → List ℤ
answer_rounds [] = []
answer_rounds (r ∷ rs) =
    let rest = answer_rounds rs in
    if r.running
    then elim (receive_port r.bytes) [ none ↦ [] | some port ↦ answer port r.map ∷ rest ]
    else []

unfoldable pub handle_client_connection : List Round → UnixSocketServer → List ℤ
unfolding answer_rounds
handle_client_connection rs s = if is_negative s.client_fd then [] else answer_rounds rs

-- One round of the thread: the flag `running`, what `accept` gives, and the rounds with the client.
pub record Connection : Type 0 where
  pub running : Bool
  pub accepted : Option ℕ
  pub rounds : List Round

-- The pids that were sent to each client that was served, and the server.
unfoldable pub client_connection_thread :
    List Connection → UnixSocketServer → List (List ℤ) × UnixSocketServer
client_connection_thread [] s = ([], s)
client_connection_thread (c ∷ cs) s =
    let (connected, s') = connect_to_client c.accepted s in
    let (sent, end) = client_connection_thread cs (close_client_fd s') in
    if c.running
    then ((if connected then handle_client_connection c.rounds s' ∷ sent else sent), end)
    else ([], s)

-- A request for a port, as the packet hunter sends it.
abbrev pub request : ℕ × PortMap → Round
request (port, m) = record { running = true; bytes = some (port_bytes port); map = m }

-- While the daemon runs it answers each request for a port of 16 bits, in order, with the pid that
-- the map gives for the port at that time (or -1), and it stops at the first read that gives no
-- port.
pub answer_rounds-request :
    (requests : List (ℕ × PortMap)) (last : Round) (rest : List Round)
    → All (λ q. q.0 < 2 ^ 16) requests
    → receive_port last.bytes ≡ none
    → answer_rounds (map request requests ++ last ∷ rest)
      ≡ map (λ q. reply (get_pid q.0 q.1)) requests
unfolding answer_rounds
answer_rounds-request [] last rest small ends = rw ends (ground arith)
answer_rounds-request ((port, m) ∷ qs) last rest small ends =
    rw (receive_port-port_bytes port small.0)
      (ap (◌∷◌ (reply (get_pid port m))) (answer_rounds-request qs last rest small.1 ends))

thread-Owns :
    (fds : List ℕ) (cs : List Connection) (s : UnixSocketServer)
    → s.client_fd ≡ minus_one
    → Owns fds s
    → Owns fds (client_connection_thread cs s).1
      × ((client_connection_thread cs s).1.client_fd ≡ minus_one)
unfolding client_connection_thread
thread-Owns fds [] s e v = (v, e)
thread-Owns fds (c ∷ cs) s e v = elim (Bool-cases c.running) [
  | inl h ↦
      let closed =
        close_client_fd-Owns fds (connect_to_client c.accepted s).1
          (connect_to_client-Owns fds c.accepted s e v) in
      rw h
        (thread-Owns fds cs (close_client_fd (connect_to_client c.accepted s).1) closed.1 closed.0)
  | inr h ↦ rw h (v, e)
]

-- Whatever the system answers to any call, and however many clients come, once the thread that
-- serves clients has ended and the server is stopped and destroyed, the process has the descriptors
-- open that it had before, and no other.
pub server_life :
    (garbage : Bool) (made temporary : Option ℕ) (binds listens file : Bool) (fds : List ℕ)
    (cs : List Connection)
    → (destroy (
        stop_listening temporary
          (client_connection_thread cs
            (unix_socket_server garbage made binds listens fds file)).1)).open_fds
      ≡ fds
server_life garbage made temporary binds listens file fds cs =
    let begun = unix_socket_server-Owns fds garbage made binds listens file in
    let ended = thread-Owns fds cs _ begun.1 begun.0 in
    let stopped = stop_listening-Owns fds temporary _ ended.0 in
    destroy-Owns fds _ (stopped.1 ∙ ended.1) stopped.0

-- The constructor does not set `isShuttingDown`: if the memory holds true, the server turns away
-- the first client, whatever the system answered when it was made.
pub garbage_refuses :
    (made : Option ℕ) (binds listens file : Bool) (fds : List ℕ) (client : ℕ)
    → (connect_to_client (some client) (unix_socket_server true made binds listens fds file)).0
      ≡ false
unfolding connect_to_client unix_socket_server
garbage_refuses none binds listens file fds client = refl
garbage_refuses (some n) binds listens file fds client = ground arith
