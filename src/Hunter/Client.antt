-- ===== src/Hunter/Client.antt =====
-- packet_hunter/src/UnixSocketClient.cpp.
use hut_karish.Prelude.{
  ℕ, ◌^◌, ◌<◌, ◌≡◌, Bool, true, false, ◌&&◌, List, ◌∷◌, Option, none, some, arith, ◌==◌,
  if◌then◌else◌,
}
use hut_karish.Prelude.Int.{ℤ, pos, minus_one}
use hut_karish.Sockets.{close, close-open}
use hut_karish.Daemon.Pids.{
  FitsPid, port_bytes, pid_bytes, receive_port, receive_pid_bytes, receive_port-port_bytes,
  receive_pid_bytes-pid_bytes,
}
use hut_karish.Scan.Ports.{PortMap}
use hut_karish.Daemon.PortToPidMap.{get_pid}
use hut_karish.Daemon.Clients.{reply}

-- `open_fds` are the descriptors of the process, newest first.
pub record UnixSocketClient : Type 0 where
  pub sock_fd : ℤ
  pub is_connected : Bool
  pub open_fds : List ℕ

unfoldable pub disconnect : UnixSocketClient → UnixSocketClient
disconnect c =
    if c.is_connected
    then record { sock_fd = minus_one; is_connected = false; open_fds = close c.sock_fd c.open_fds }
    else c

-- `made` and `connects` are what socket and connect answer.
unfoldable pub connect_to_server : Option ℕ → Bool → UnixSocketClient → Bool × UnixSocketClient
unfolding disconnect
connect_to_server none connects c = (false, record c { sock_fd = minus_one })
connect_to_server (some n) connects c =
    let c' = record c { sock_fd = pos n; open_fds = n ∷ c.open_fds } in
    if connects then (true, record c' { is_connected = true }) else (false, disconnect c')

-- The constructor.
unfoldable pub unix_socket_client : Option ℕ → Bool → List ℕ → UnixSocketClient
unfolding connect_to_server
unix_socket_client made connects fds =
    (connect_to_server made connects
      (record { sock_fd = minus_one; is_connected = false; open_fds = fds })).1

-- The destructor.
unfoldable pub destroy : UnixSocketClient → UnixSocketClient
unfolding disconnect
destroy c = disconnect c

-- What `send` does: it answers an error; the daemon has closed the connection, and SIGPIPE ends the
-- process; or it answers a number of bytes.
pub data Sent : Type 0 where
  failed broken : Sent
  wrote : ℕ → Sent

-- The bytes go out if all do. Where the process ends in `send`, there is no answer to speak of, and the
-- main loop ends as `killed`.
unfoldable pub send_port : UnixSocketClient → Sent → ℕ → Bool × Option (List ℕ)
send_port c failed port = (false, none)
send_port c broken port = (false, none)
send_port c (wrote sent) port =
    if c.is_connected && sent == 2 then (true, some (port_bytes port)) else (false, none)

-- Whether the process ends in sendPort.
unfoldable pub is_killed : UnixSocketClient → Sent → Bool
is_killed c failed = false
is_killed c broken = c.is_connected
is_killed c (wrote sent) = false

-- `bytes` is what recv gives, none for an error; `none` is a failure.
unfoldable pub receive_pid : UnixSocketClient → Option (List ℕ) → Option ℤ
receive_pid c bytes = if c.is_connected then receive_pid_bytes bytes else none

-- `answers` tells whether sending nothing succeeds.
unfoldable pub is_server_alive : UnixSocketClient → Bool → Bool
is_server_alive c answers = c.is_connected && answers

-- A client that connected gives its descriptor back when it is destroyed. One whose socket was made
-- but not connected leaves it open: `disconnect` does nothing before `isConnected` is set.
pub destroy-unix_socket_client :
    (made : ℕ) (connects : Bool) (fds : List ℕ)
    → (destroy (unix_socket_client (some made) connects fds)).open_fds
      ≡ (if connects then fds else made ∷ fds)
unfolding destroy unix_socket_client
destroy-unix_socket_client made connects fds = ground (arith, close-open made fds)

-- On a connection, if all bytes are sent, the daemon reads the port that the packet hunter sent,
-- and the packet hunter reads the pid that the daemon answers, if the port has 16 bits and the pid
-- fits 32 bits.
pub query_roundtrip :
    (c : UnixSocketClient) (port : ℕ) (m : PortMap)
    → c.is_connected ≡ true
    → port < 2 ^ 16
    → FitsPid (reply (get_pid port m))
    → ((send_port c (wrote 2) port).0 ≡ true)
      × (receive_port (send_port c (wrote 2) port).1 ≡ some port)
      × (receive_pid c (some (pid_bytes (reply (get_pid port m)))) ≡ some (reply (get_pid port m)))
unfolding send_port receive_pid
query_roundtrip c port m connected small fits = (
  ground arith,
  rw connected (receive_port-port_bytes port small),
  rw connected (receive_pid_bytes-pid_bytes (reply (get_pid port m)) fits),
)
