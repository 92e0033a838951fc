-- ===== src/Scan/Ports.antt =====
-- ScanFiles.cpp: initializePortPidMap and scanForPidByPort. An exception is `none`.
use hut_karish.Prelude.{
  ℕ, ◌+◌, Bool, true, false, List, [], ◌∷◌, Option, none, some, ◌>>=◌, ◌==◌, if◌then◌else◌, length,
}
use hut_karish.Prelude.Int.{ℤ, minus_one, eq_ℤ}
use hut_karish.Prelude.Assoc.{find, assign, nat_eq}
use hut_karish.Packet.{proto_tcp}
use hut_karish.Scan.Lines.{Socket, parse_listening_sockets}
use hut_karish.Scan.Processes.{Entry, find_pid_by_sock_inode}

abbrev pub PortMap : Type 0
PortMap = List (ℕ × ℤ)

-- /proc during a scan: the lines of the two files, and the entries that the n-th walk finds.
pub record Proc : Type 0 where
  pub tcp : List (List ℕ)
  pub udp : List (List ℕ)
  pub entries : ℕ → List Entry

-- map[port] = pid, if there is one.
unfoldable pub record_pid : ℕ → ℤ → PortMap → PortMap
record_pid port pid m = if eq_ℤ pid minus_one then m else assign port pid m

unfoldable pub map_tcp : Proc → ℕ → List Socket → PortMap → Option PortMap
unfolding record_pid
map_tcp proc n [] m = some m
map_tcp proc n (s ∷ ss) m = find_pid_by_sock_inode s.inode (proc.entries n) >>= λ pid.
    map_tcp proc (n + 1) ss (record_pid s.port pid m)

abbrev pub is_mapped : Option ℤ → Bool
is_mapped none = false
is_mapped (some pid) = true

unfoldable pub map_udp : Proc → ℕ → List Socket → PortMap → Option PortMap
unfolding record_pid
map_udp proc n [] m = some m
map_udp proc n (s ∷ ss) m = elim (is_mapped (find s.port m)) [
  | true ↦ map_udp proc (n + 1) ss m
  | false ↦ find_pid_by_sock_inode s.inode (proc.entries n) >>= λ pid.
      map_udp proc (n + 1) ss (record_pid s.port pid m)
]

unfoldable pub initialize_port_pid_map : Proc → PortMap → Option PortMap
unfolding map_tcp map_udp
initialize_port_pid_map proc m = do
  tcp_sockets ← parse_listening_sockets proc.tcp 0
  udp_sockets ← parse_listening_sockets proc.udp 0
  m' ← map_tcp proc 0 tcp_sockets m
  map_udp proc (length tcp_sockets) udp_sockets m'

-- The loop over the sockets returns in its first round.
unfoldable pub pid_of_first : Proc → List Socket → Option ℤ
pid_of_first proc [] = some minus_one
pid_of_first proc (s ∷ ss) = find_pid_by_sock_inode s.inode (proc.entries 0)

unfoldable pub scan_for_pid_by_port : Proc → ℕ → ℕ → Option ℤ
unfolding pid_of_first
scan_for_pid_by_port proc port protocol =
    if protocol == proto_tcp
    then parse_listening_sockets proc.tcp port >>= pid_of_first proc
    else parse_listening_sockets proc.udp port >>= pid_of_first proc
