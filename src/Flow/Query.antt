-- ===== src/Flow/Query.antt =====
-- A query of the packet hunter, from the port that it sends to the pid that it reads.
use hut_karish.Prelude.{
  ℕ, ◌^◌, ◌<◌, ◌≡◌, refl, sym, subst, ◌⊎◌, inl, inr, Bool, true, List, [], ◌∷◌, Option, some,
  Bool-cases, Option-cases, arith, ◌==◌, Allows, Allows-bind, Allows-at,
}
use hut_karish.Prelude.Int.{ℤ, pos, negsuc, minus_one, eq_ℤ}
use hut_karish.Prelude.Assoc.{find, nat_eq}
use hut_karish.Scan.Ports.{PortMap, Proc}
use hut_karish.Scan.Answers.{
  IsAnswer, PidsFit, assign-PidsFit, initialize-Allows, scan_for_pid_by_port-Allows,
}
use hut_karish.Daemon.PortToPidMap.{port_to_pid_map, add_pid_mapping, get_pid}
use hut_karish.Daemon.Pids.{
  FitsPid, pid_bytes, receive_port-port_bytes, receive_pid_bytes-pid_bytes,
}
use hut_karish.Daemon.Calls.{Call, map_after, map_since}
use hut_karish.Daemon.Clients.{Round, reply, answer_rounds}
use hut_karish.Hunter.Client.{UnixSocketClient, wrote, send_port, receive_pid}

add_pid_mapping-Allows :
    (proc : Proc) (port protocol : ℕ) (m : PortMap)
    → PidsFit m
    → Allows (add_pid_mapping proc port protocol m) (λ r. PidsFit r.1)
unfolding add_pid_mapping
add_pid_mapping-Allows proc port protocol m v =
    Allows-bind IsAnswer (λ r. PidsFit r.1) _ _ (scan_for_pid_by_port-Allows proc port protocol)
      λ pid h. elim (Bool-cases (eq_ℤ pid minus_one)) [
        | inl e ↦ rw e v
        | inr e ↦ rw e (assign-PidsFit port pid m h v)
      ]

map_after-Allows :
    (calls : List Call) (m : PortMap) → PidsFit m → Allows (map_after calls m) PidsFit
unfolding map_after
map_after-Allows [] m v = v
map_after-Allows (c ∷ cs) m v =
    Allows-bind (λ (r : Bool × PortMap). PidsFit r.1) PidsFit _ _
      (add_pid_mapping-Allows c.proc c.port c.protocol m v) λ r u. map_after-Allows cs r.1 u

map_since-Allows : (proc : Proc) (calls : List Call) → Allows (map_since proc calls) PidsFit
unfolding map_since port_to_pid_map
map_since-Allows proc calls =
    Allows-bind PidsFit PidsFit _ _ (initialize-Allows proc [] tt) (map_after-Allows calls)

find-Allows : (port : ℕ) (m : PortMap) → PidsFit m → Allows (find port m) IsAnswer
unfolding find
find-Allows port [] v = tt
find-Allows port ((j, w) ∷ m) v = elim (Bool-cases (j == port)) [
  | inl e ↦ rw e v.0
  | inr e ↦ rw e (find-Allows port m v.1)
]

get_pid-IsAnswer : (port : ℕ) (m : PortMap) → PidsFit m → IsAnswer (get_pid port m)
unfolding get_pid
get_pid-IsAnswer port m v = elim (Option-cases (find port m)) [
  | inl e ↦ rw e refl
  | inr (pid, e) ↦ rw e (Allows-at IsAnswer (find port m) pid e (find-Allows port m v))
]

-- -1, or a pid.
abbrev pub IsReply : ℤ → Type 0
IsReply p = (p ≡ minus_one) ⊎ ((n : ℕ) × (0 < n) × (n < 2 ^ 31) × (p ≡ pos n))

reply-IsReply : (pid : ℤ) → IsAnswer pid → IsReply (reply pid)
unfolding reply
reply-IsReply (pos n) h = ground arith
reply-IsReply (negsuc n) h = inl (ground arith)

IsReply-FitsPid : (p : ℤ) → IsReply p → FitsPid p
IsReply-FitsPid p (inl e) = subst FitsPid (sym e) (omega arith)
IsReply-FitsPid p (inr (n, above, lt, e)) = subst FitsPid (sym e) lt

-- The round of the daemon that reads what the packet hunter sent.
abbrev pub reads : Option (List ℕ) → PortMap → Round
reads sent m = record { running = true; bytes = sent; map = m }

-- The one for a port.
abbrev pub asks : UnixSocketClient → ℕ → PortMap → Round
asks c port m = reads (send_port c (wrote 2) port).1 m

-- Whatever /proc holds as the daemon starts and at each of its scans, and whatever packets it has
-- taken since, a packet hunter that is connected and asks for a port of 16 bits, all bytes of which
-- are sent, is answered, and reads, if the bytes of the answer come whole, what the daemon's map
-- gives for the port: -1, or a positive pid of 31 bits.
pub query_answered :
    (proc : Proc) (calls : List Call) (m : PortMap) (c : UnixSocketClient) (port : ℕ)
    → map_since proc calls ≡ some m
    → c.is_connected ≡ true
    → port < 2 ^ 16
    → let p = reply (get_pid port m) in
      (answer_rounds (asks c port m ∷ []) ≡ p ∷ [])
      × (receive_pid c (some (pid_bytes p)) ≡ some p)
      × IsReply p
unfolding answer_rounds send_port receive_pid
query_answered proc calls m c port since connected small =
    let v = Allows-at PidsFit (map_since proc calls) m since (map_since-Allows proc calls) in
    let replies = reply-IsReply (get_pid port m) (get_pid-IsAnswer port m v) in
    (
      rw (connected, receive_port-port_bytes port small) refl,
      rw connected
          (receive_pid_bytes-pid_bytes (reply (get_pid port m)) (IsReply-FitsPid _ replies)),
      replies,
    )
