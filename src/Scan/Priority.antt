-- ===== src/Scan/Priority.antt =====
-- Which pid initializePortPidMap gives to a port.
use hut_karish.Prelude.{
  ℕ, ◌+◌, ◌≡◌, refl, sym, ap, ◌∙◌, true, List, [], ◌∷◌, Option, none, some, some-inj, Bool-cases,
  inl, inr, >>=-eq-some, arith, ◌==◌, if◌then◌else◌, length,
}
use hut_karish.Prelude.Int.{ℤ, minus_one, eq_ℤ}
use hut_karish.Prelude.Assoc.{find, find-nil, find-assign, nat_eq}
use hut_karish.Scan.Lines.{Socket, parse_listening_sockets}
use hut_karish.Scan.Processes.{find_pid_by_sock_inode}
use hut_karish.Scan.Ports.{
  PortMap, Proc, record_pid, map_tcp, is_mapped, map_udp, initialize_port_pid_map,
}

abbrev pub or_else : Option ℤ → Option ℤ → Option ℤ
or_else none o = o
or_else (some a) o = some a

-- The pid of a walk that found one.
abbrev pub known : Option ℤ → Option ℤ
known none = none
known (some pid) = if eq_ℤ pid minus_one then none else some pid

abbrev pub walk : Proc → ℕ → Socket → Option ℤ
walk proc n s = find_pid_by_sock_inode s.inode (proc.entries n)

-- The owner of the last socket of the port that has one.
pub last_owner : Proc → ℕ → ℕ → List Socket → Option ℤ
last_owner proc n port [] = none
last_owner proc n port (s ∷ ss) =
    or_else (last_owner proc (n + 1) port ss)
      (if s.port == port then known (walk proc n s) else none)

-- The owner of the first socket of the port that has one.
pub first_owner : Proc → ℕ → ℕ → List Socket → Option ℤ
first_owner proc n port [] = none
first_owner proc n port (s ∷ ss) =
    or_else (if s.port == port then known (walk proc n s) else none)
      (first_owner proc (n + 1) port ss)

find-record_pid :
    (s port : ℕ) (pid : ℤ) (m : PortMap)
    → find port (record_pid s pid m)
      ≡ or_else (if s == port then known (some pid) else none) (find port m)
unfolding record_pid
find-record_pid s port pid m = ground (arith, find-assign s port pid m)

or_else_assoc : (a b c : Option ℤ) → or_else a (or_else b c) ≡ or_else (or_else a b) c
or_else_assoc none b c = refl
or_else_assoc (some a) b c = refl

find-map_tcp :
    (proc : Proc) (n port : ℕ) (ss : List Socket) (m m' : PortMap)
    → map_tcp proc n ss m ≡ some m'
    → find port m' ≡ or_else (last_owner proc n port ss) (find port m)
unfolding map_tcp last_owner
find-map_tcp proc n port [] m m' h = ap (find port) (sym (some-inj h))
find-map_tcp proc n port (s ∷ ss) m m' h =
    let (pid, w, rest) =
      >>=-eq-some (walk proc n s) (λ pid. map_tcp proc (n + 1) ss (record_pid s.port pid m)) m' h in
    rw w (
      find-map_tcp proc (n + 1) port ss _ m' rest
      ∙ ap (or_else (last_owner proc (n + 1) port ss)) (find-record_pid s.port port pid m)
      ∙ or_else_assoc (last_owner proc (n + 1) port ss) _ (find port m))

or_else-none : (a : Option ℤ) → or_else a none ≡ a
or_else-none none = refl
or_else-none (some a) = refl

or_else_mapped : (a b c : Option ℤ) → is_mapped a ≡ true → or_else a b ≡ or_else a c
or_else_mapped none b c h = cc
or_else_mapped (some a) b c h = refl

find-map_udp :
    (proc : Proc) (n port : ℕ) (ss : List Socket) (m m' : PortMap)
    → map_udp proc n ss m ≡ some m'
    → find port m' ≡ or_else (find port m) (first_owner proc n port ss)
unfolding map_udp first_owner
find-map_udp proc n port [] m m' h = ap (find port) (sym (some-inj h)) ∙ sym (or_else-none _)
find-map_udp proc n port (s ∷ ss) m m' h = elim (Bool-cases (is_mapped (find s.port m))) [
  | inl mapped ↦
      let rest : map_udp proc (n + 1) ss m ≡ some m' = rw (mapped, map_udp) at h in
      let ih = find-map_udp proc (n + 1) port ss m m' rest in ground (arith, ih)
  | inr unmapped ↦
      let (pid, w, rest) =
        >>=-eq-some (walk proc n s) (λ pid. map_udp proc (n + 1) ss (record_pid s.port pid m)) m'
          (rw (unmapped, map_udp) at h) in
      let ih = find-map_udp proc (n + 1) port ss _ m' rest in
      let added = find-record_pid s.port port pid m in rw w (ground (arith, ih, added))
]

-- When the scan at startup returns, a port has the owner of its last TCP socket that has one; only
-- without that, of its first UDP socket that has one; and else no entry.
pub find-initialize_port_pid_map :
    (proc : Proc) (port : ℕ) (tcp_sockets udp_sockets : List Socket) (m : PortMap)
    → parse_listening_sockets proc.tcp 0 ≡ some tcp_sockets
    → parse_listening_sockets proc.udp 0 ≡ some udp_sockets
    → initialize_port_pid_map proc [] ≡ some m
    → find port m
      ≡ or_else
          (last_owner proc 0 port tcp_sockets)
          (first_owner proc (length tcp_sockets) port udp_sockets)
unfolding initialize_port_pid_map
find-initialize_port_pid_map proc port ts us m t u h =
    let (m', mapped, rest) =
      >>=-eq-some (map_tcp proc 0 ts []) (map_udp proc (length ts) us) m
        (rw (t, u, initialize_port_pid_map) at h) in
    find-map_udp proc (length ts) port us m' m rest
    ∙ ap (λ o. or_else o (first_owner proc (length ts) port us))
        (find-map_tcp proc 0 port ts [] m' mapped ∙ or_else_empty (last_owner proc 0 port ts))
  where
    or_else_empty : (a : Option ℤ) → or_else a (find port []) ≡ a
    or_else_empty a = rw (find-nil {V = ℤ} port) (or_else-none a)
