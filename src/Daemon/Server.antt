-- ===== src/Daemon/Server.antt =====
-- daemon/src/UnixSocketServer.cpp: the descriptors of the server.
use hut_karish.Prelude.{
  ℕ, ◌≡◌, refl, Bool, true, false, not, List, [], ◌∷◌, ◌++◌, Option, none, some, arith,
  if◌then◌else◌,
}
use hut_karish.Prelude.Int.{ℤ, pos, negsuc, minus_one, eq_ℤ, eq_ℤ_iff}
use hut_karish.Sockets.{close, close-open}

-- `open_fds` are the descriptors of the process, newest first, and `bound` tells whether the socket
-- file is there.
pub record UnixSocketServer : Type 0 where
  pub server_fd : ℤ
  pub client_fd : ℤ
  pub is_shutting_down : Bool
  pub open_fds : List ℕ
  pub bound : Bool

unfoldable pub close_client_fd : UnixSocketServer → UnixSocketServer
close_client_fd s =
    if eq_ℤ s.client_fd minus_one
    then s
    else record s { client_fd = minus_one; open_fds = close s.client_fd s.open_fds }

unfoldable pub close_socket : UnixSocketServer → UnixSocketServer
unfolding close_client_fd
close_socket s =
    let s' = close_client_fd s in
    record s' { server_fd = minus_one; open_fds = close s'.server_fd s'.open_fds; bound = false }

-- What the system answers: `socket` a descriptor, none for a failure, and whether bind and listen
-- succeed.
unfoldable pub start : Option ℕ → Bool → Bool → UnixSocketServer → Bool × UnixSocketServer
unfolding close_socket
start none binds listens s = (false, record s { server_fd = minus_one })
start (some n) binds listens s =
    let s' = record s { server_fd = pos n; open_fds = n ∷ s.open_fds; bound = false } in
    if not binds
    then (false, s')
    else if not listens
    then (false, close_socket (record s' { bound = true }))
    else (true, record s' { bound = true })

-- The constructor. It does not set `isShuttingDown`: `garbage` is what the memory holds.
unfoldable pub unix_socket_server : Bool → Option ℕ → Bool → Bool → List ℕ → Bool → UnixSocketServer
unfolding start
unix_socket_server garbage made binds listens fds file =
    (start made binds listens (record {
      server_fd = minus_one;
      client_fd = minus_one;
      is_shutting_down = garbage;
      open_fds = fds;
      bound = file;
    })).1

-- The destructor.
unfoldable pub destroy : UnixSocketServer → UnixSocketServer
unfolding close_socket
destroy s = if eq_ℤ s.server_fd minus_one then s else close_socket s

-- `accept` gives a descriptor, or none for a failure.
unfoldable pub connect_to_client : Option ℕ → UnixSocketServer → Bool × UnixSocketServer
connect_to_client none s = (false, record s { client_fd = minus_one })
connect_to_client (some n) s =
    (not s.is_shutting_down, record s { client_fd = pos n; open_fds = n ∷ s.open_fds })

-- stopListeningForNewClients: a socket of its own is opened, connected and closed.
unfoldable pub stop_listening : Option ℕ → UnixSocketServer → UnixSocketServer
stop_listening none s = record s { is_shutting_down = true }
stop_listening (some n) s = record s {
  is_shutting_down = true;
  open_fds = close (pos n) (n ∷ s.open_fds);
}

abbrev pub fds_of : ℤ → List ℕ
fds_of fd = elim fd [ pos n ↦ n ∷ [] | negsuc n ↦ [] ]

-- The server has its own two descriptors open, above those that the process had before.
abbrev pub Owns : List ℕ → UnixSocketServer → Type 0
Owns fds s = s.open_fds ≡ fds_of s.client_fd ++ (fds_of s.server_fd ++ fds)

close_own : (fd : ℤ) (rest : List ℕ) → close fd (fds_of fd ++ rest) ≡ rest
unfolding close
close_own (pos n) rest = close-open n rest
close_own (negsuc n) rest = refl

module _ (fds : List ℕ) where
  pub close_client_fd-Owns :
      (s : UnixSocketServer)
      → Owns fds s
      → Owns fds (close_client_fd s) × ((close_client_fd s).client_fd ≡ minus_one)
  unfolding close_client_fd
  close_client_fd-Owns s v =
      ground
        (arith, close_own s.client_fd (fds_of s.server_fd ++ fds), eq_ℤ_iff s.client_fd minus_one)

  pub connect_to_client-Owns :
      (accepted : Option ℕ) (s : UnixSocketServer)
      → s.client_fd ≡ minus_one
      → Owns fds s
      → Owns fds (connect_to_client accepted s).1
  unfolding connect_to_client
  connect_to_client-Owns none s e v = ground arith
  connect_to_client-Owns (some n) s e v = ground arith

  pub unix_socket_server-Owns :
      (garbage : Bool) (made : Option ℕ) (binds listens file : Bool)
      → let s = unix_socket_server garbage made binds listens fds file in
        Owns fds s × (s.client_fd ≡ minus_one)
  unfolding unix_socket_server
  unix_socket_server-Owns garbage none binds listens file = ground arith
  unix_socket_server-Owns garbage (some n) binds listens file = ground (arith, close-open n fds)

  pub destroy-Owns :
      (s : UnixSocketServer) → s.client_fd ≡ minus_one → Owns fds s → (destroy s).open_fds ≡ fds
  unfolding destroy
  destroy-Owns s e v = ground (
    arith,
    close_own s.server_fd fds,
    eq_ℤ_iff s.server_fd minus_one,
    eq_ℤ_iff s.client_fd minus_one,
  )

  pub stop_listening-Owns :
      (made : Option ℕ) (s : UnixSocketServer)
      → Owns fds s
      → Owns fds (stop_listening made s) × ((stop_listening made s).client_fd ≡ s.client_fd)
  unfolding stop_listening
  stop_listening-Owns none s v = ground arith
  stop_listening-Owns (some n) s v = ground (arith, close-open n s.open_fds)
