-- ===== src/Daemon/PortToPidMap.antt =====
-- daemon/src/PortToPidMap.cpp. The mutex makes every method one step; an exception is `none`.
use hut_karish.Prelude.{
  ℕ, ◌≡◌, ◌∙◌, Bool, true, false, ◌&&◌, not, List, [], ◌∷◌, Option, none, some, Bool-cases, inl,
  inr, ◌>>=◌, >>=-eq-some, arith, ◌==◌, if◌then◌else◌,
}
use hut_karish.Prelude.Int.{ℤ, minus_one, eq_ℤ}
use hut_karish.Prelude.Assoc.{find, assign, find-assign, nat_eq}
use hut_karish.Packet.{proto_tcp}
use hut_karish.Scan.Lines.{Socket, parse_listening_sockets}
use hut_karish.Scan.Processes.{find_pid_by_sock_inode}
use hut_karish.Scan.Ports.{
  PortMap, Proc, initialize_port_pid_map, pid_of_first, scan_for_pid_by_port, is_mapped,
}

-- The constructor.
unfoldable pub port_to_pid_map : Proc → Option PortMap
port_to_pid_map proc = initialize_port_pid_map proc []

unfoldable pub add_pid_mapping : Proc → ℕ → ℕ → PortMap → Option (Bool × PortMap)
add_pid_mapping proc port protocol m = do
  pid ← scan_for_pid_by_port proc port protocol
  some (if eq_ℤ pid minus_one then (false, m) else (true, assign port pid m))

abbrev pid_or_minus_one : Option ℤ → ℤ
pid_or_minus_one none = minus_one
pid_or_minus_one (some pid) = pid

unfoldable pub get_pid : ℕ → PortMap → ℤ
get_pid port m = pid_or_minus_one (find port m)

-- The sockets of the protocol of a packet.
abbrev pub sockets_for : Proc → ℕ → Option (List Socket)
sockets_for proc protocol =
    if protocol == proto_tcp
    then parse_listening_sockets proc.tcp 0
    else parse_listening_sockets proc.udp 0

-- When `addPidMapping` returns, the scan for the port has given a pid, and the answer tells whether
-- that is not -1. If so, `getPid` gives it for the port from then on, whatever it gave before. For
-- every other port, and for this one if the pid is -1, `getPid` gives what it gave before.
pub get_pid-add_pid_mapping :
    (proc : Proc) (port protocol j : ℕ) (m m' : PortMap) (added : Bool)
    → add_pid_mapping proc port protocol m ≡ some (added, m')
    → (pid : ℤ) × (scan_for_pid_by_port proc port protocol ≡ some pid)
      × (added ≡ not (eq_ℤ pid minus_one))
      × (get_pid j m' ≡ (if added && port == j then pid else get_pid j m))
unfolding add_pid_mapping get_pid
get_pid-add_pid_mapping proc port protocol j m m' added h =
    let (pid, s, same) =
      >>=-eq-some (scan_for_pid_by_port proc port protocol)
        (λ pid. some (if eq_ℤ pid minus_one then (false, m) else (true, assign port pid m)))
        (added, m') h in
    (pid, s, ground (arith, same), ground (arith, same, find-assign port j pid m))

-- A port that has an entry still has one when `addPidMapping`, for any port, has returned.
pub add_pid_mapping_keeps :
    (proc : Proc) (port protocol j : ℕ) (m m' : PortMap) (added : Bool)
    → add_pid_mapping proc port protocol m ≡ some (added, m')
    → is_mapped (find j m) ≡ true
    → is_mapped (find j m') ≡ true
unfolding add_pid_mapping
add_pid_mapping_keeps proc port protocol j m m' added h mapped =
    let (pid, s, same) =
      >>=-eq-some (scan_for_pid_by_port proc port protocol)
        (λ pid. some (if eq_ℤ pid minus_one then (false, m) else (true, assign port pid m)))
        (added, m') h in
    ground (arith, same, find-assign port j pid m)

scan-sockets_for :
    (proc : Proc) (protocol : ℕ)
    → scan_for_pid_by_port proc 0 protocol ≡ (sockets_for proc protocol >>= pid_of_first proc)
unfolding scan_for_pid_by_port
scan-sockets_for proc protocol = elim (Bool-cases (protocol == proto_tcp)) [
  | inl t ↦ rw t
  | inr u ↦ rw u
]

-- A scan for port 0 gives the owner of the first socket of any port, if the table of the protocol
-- has one: 0 is the mark for no filter.
pub scan_for_pid_by_port_zero :
    (proc : Proc) (protocol : ℕ) (s : Socket) (ss : List Socket)
    → sockets_for proc protocol ≡ some (s ∷ ss)
    → scan_for_pid_by_port proc 0 protocol ≡ find_pid_by_sock_inode s.inode (proc.entries 0)
unfolding pid_of_first
scan_for_pid_by_port_zero proc protocol s ss h = scan-sockets_for proc protocol ∙ rw h
