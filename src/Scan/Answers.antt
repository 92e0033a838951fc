-- ===== src/Scan/Answers.antt =====
-- The pids that the scan of /proc gives.
use hut_karish.Prelude.{
  ℕ, ◌+◌, ◌^◌, ◌<◌, ◌≡◌, refl, not, List, [], ◌∷◌, Option, none, some, Bool-cases, inl, inr, ◌>>=◌,
  arith, ◌==◌, All, all, any, length, Allows, Allows-bind,
}
use hut_karish.Prelude.Int.{ℤ, pos, negsuc, minus_one, eq_ℤ}
use hut_karish.Prelude.Assoc.{find, assign, nat_eq}
use hut_karish.Packet.{proto_tcp}
use hut_karish.Scan.Chars.{is_digit}
use hut_karish.Scan.Numbers.{stoi}
use hut_karish.Scan.Lines.{Socket, parse_listening_sockets}
use hut_karish.Scan.Processes.{
  FdDir, missing, unreadable, links, Entry, link_matches, search_fds, find_pid_by_sock_inode,
}
use hut_karish.Scan.Ports.{
  PortMap, Proc, record_pid, is_mapped, map_tcp, map_udp, initialize_port_pid_map, pid_of_first,
  scan_for_pid_by_port,
}

-- A pid that `pid_t` holds, or -1.
abbrev pub IsAnswer : ℤ → Type 0
IsAnswer (pos n) = n < 2 ^ 31
IsAnswer (negsuc n) = n ≡ 0

-- Every pid of the map is one.
abbrev pub PidsFit : PortMap → Type 0
PidsFit m = All (λ e. IsAnswer e.1) m

stoi-Allows : (name : List ℕ) → Allows (stoi name) (λ n. n < 2 ^ 31)
unfolding stoi
stoi-Allows [] = tt
stoi-Allows (c ∷ cs) = ground arith

search_fds-Allows :
    (inode name : List ℕ) (fd : FdDir) (rest : Option ℤ)
    → Allows rest IsAnswer
    → Allows (search_fds inode name fd rest) IsAnswer
unfolding search_fds
search_fds-Allows inode name missing rest h = h
search_fds-Allows inode name unreadable rest h = tt
search_fds-Allows inode name (links ls) rest h = elim (Bool-cases (any (link_matches inode) ls)) [
  | inl e ↦ rw e (
      Allows-bind (λ n. n < 2 ^ 31) IsAnswer (stoi name) (λ pid. some (pos pid)) (stoi-Allows name)
        λ n lt. lt)
  | inr e ↦ rw e h
]

pub find_pid-Allows :
    (inode : List ℕ) (dirs : List Entry) → Allows (find_pid_by_sock_inode inode dirs) IsAnswer
unfolding find_pid_by_sock_inode
find_pid-Allows inode [] = refl
find_pid-Allows inode (dir ∷ dirs) = elim (Bool-cases (not dir.is_directory)) [
  | inl d ↦ rw d (find_pid-Allows inode dirs)
  | inr d ↦ rw d (elim (Bool-cases (not (all is_digit dir.name))) [
    | inl n ↦ rw n (find_pid-Allows inode dirs)
    | inr n ↦ rw n (search_fds-Allows inode dir.name dir.fd _ (find_pid-Allows inode dirs))
  ])
]

pub assign-PidsFit :
    (port : ℕ) (pid : ℤ) (m : PortMap) → IsAnswer pid → PidsFit m → PidsFit (assign port pid m)
unfolding assign
assign-PidsFit port pid [] h v = (h, tt)
assign-PidsFit port pid ((j, w) ∷ m) h v = elim (Bool-cases (j == port)) [
  | inl e ↦ rw e (h, v.1)
  | inr e ↦ rw e (v.0, assign-PidsFit port pid m h v.1)
]

record_pid-PidsFit :
    (port : ℕ) (pid : ℤ) (m : PortMap) → IsAnswer pid → PidsFit m → PidsFit (record_pid port pid m)
unfolding record_pid
record_pid-PidsFit port pid m h v = elim (Bool-cases (eq_ℤ pid minus_one)) [
  | inl e ↦ rw e v
  | inr e ↦ rw e (assign-PidsFit port pid m h v)
]

map_tcp-Allows :
    (proc : Proc) (n : ℕ) (ss : List Socket) (m : PortMap)
    → PidsFit m
    → Allows (map_tcp proc n ss m) PidsFit
unfolding map_tcp
map_tcp-Allows proc n [] m v = v
map_tcp-Allows proc n (s ∷ ss) m v =
    Allows-bind IsAnswer PidsFit _ _ (find_pid-Allows s.inode (proc.entries n)) λ pid h.
      map_tcp-Allows proc (n + 1) ss (record_pid s.port pid m) (record_pid-PidsFit s.port pid m h v)

map_udp-Allows :
    (proc : Proc) (n : ℕ) (ss : List Socket) (m : PortMap)
    → PidsFit m
    → Allows (map_udp proc n ss m) PidsFit
unfolding map_udp
map_udp-Allows proc n [] m v = v
map_udp-Allows proc n (s ∷ ss) m v = elim (Bool-cases (is_mapped (find s.port m))) [
  | inl e ↦ rw (e, map_udp) (map_udp-Allows proc (n + 1) ss m v)
  | inr e ↦
      rw (e, map_udp)
        (Allows-bind IsAnswer PidsFit _ _ (find_pid-Allows s.inode (proc.entries n)) λ pid h.
          map_udp-Allows proc (n + 1) ss (record_pid s.port pid m)
            (record_pid-PidsFit s.port pid m h v))
]

pub initialize-Allows :
    (proc : Proc) (m : PortMap) → PidsFit m → Allows (initialize_port_pid_map proc m) PidsFit
unfolding initialize_port_pid_map
initialize-Allows proc m v =
    Allows-bind (λ ss. Unit {0}) PidsFit (parse_listening_sockets proc.tcp 0) _
      (anything (parse_listening_sockets proc.tcp 0))
      λ tcp u.
        Allows-bind (λ ss. Unit {0}) PidsFit (parse_listening_sockets proc.udp 0) _
          (anything (parse_listening_sockets proc.udp 0))
          λ udp u'.
            Allows-bind PidsFit PidsFit _ _ (map_tcp-Allows proc 0 tcp m v)
              λ m' v'. map_udp-Allows proc (length tcp) udp m' v'
  where
    anything : (o : Option (List Socket)) → Allows o (λ ss. Unit {0})
    anything none = tt
    anything (some ss) = tt

pid_of_first-Allows : (proc : Proc) (ss : List Socket) → Allows (pid_of_first proc ss) IsAnswer
unfolding pid_of_first
pid_of_first-Allows proc [] = refl
pid_of_first-Allows proc (s ∷ ss) = find_pid-Allows s.inode (proc.entries 0)

first-Allows : (proc : Proc) (o : Option (List Socket)) → Allows (o >>= pid_of_first proc) IsAnswer
first-Allows proc none = tt
first-Allows proc (some ss) = pid_of_first-Allows proc ss

pub scan_for_pid_by_port-Allows :
    (proc : Proc) (port protocol : ℕ) → Allows (scan_for_pid_by_port proc port protocol) IsAnswer
unfolding scan_for_pid_by_port
scan_for_pid_by_port-Allows proc port protocol = elim (Bool-cases (protocol == proto_tcp)) [
  | inl t ↦ rw t (first-Allows proc (parse_listening_sockets proc.tcp port))
  | inr u ↦ rw u (first-Allows proc (parse_listening_sockets proc.udp port))
]
