-- ===== src/Hunter/Loop.antt =====
-- packet_hunter/src/main.cpp: the main loop.
use hut_karish.Prelude.{
  ℕ, ◌≡◌, Bool, true, false, not, List, [], ◌∷◌, ◌++◌, Option, none, some, Bool-cases, inl, inr,
  if◌then◌else◌,
}
use hut_karish.Prelude.Int.{ℤ, minus_one, eq_ℤ}
use hut_karish.Heap.{Pckt}
use hut_karish.Queue.{MessageQueue, pop}
use hut_karish.Hunter.PacketMap.{PacketMap, contains_packet, insert_packet_info, vector_or_empty}
use hut_karish.Prelude.Assoc.{find, assign, int_eq}
use hut_karish.Hunter.Unique.{IsUnique, insert-IsUnique}
use hut_karish.Hunter.Client.{
  UnixSocketClient, Sent, is_server_alive, send_port, is_killed, receive_pid,
}

-- What the main loop works on, and the packets that it printed, with their pids, oldest first.
pub record Hunter : Type 0 where
  pub message_queue : MessageQueue Pckt
  pub map : PacketMap
  pub printed : List (ℤ × Pckt)

-- One round: the flag `running` as it is read, whether the daemon can be reached, what `send` does, and
-- what is received after what went out.
pub record Round : Type 0 where
  pub running : Bool
  pub answers : Bool
  pub sent : Sent
  pub bytes : Option (List ℕ) → Option (List ℕ)

-- How a round ends: on to the next, `running` set to false, `break`, or with the process, by SIGPIPE.
pub data End : Type 0 where
  goes_on stops breaks killed : End

-- With the pid that was received, none for a failure.
unfoldable pub keep_packet : Pckt → Option ℤ → Hunter → End × Hunter
keep_packet p none h = (breaks, h)
keep_packet p (some pid) h = (
  goes_on,
  record h { map = insert_packet_info pid p h.map; printed = h.printed ++ (pid, p) ∷ [] },
)

unfoldable pub handle_packet : UnixSocketClient → Round → Option Pckt → Hunter → End × Hunter
unfolding keep_packet
handle_packet c r none h = (if is_server_alive c r.answers then goes_on else stops, h)
handle_packet c r (some p) h =
    if contains_packet p.info h.map
    then (goes_on, h)
    else if not (send_port c r.sent p.info.dst_port).0
    then (if is_killed c r.sent then killed else breaks, h)
    else keep_packet p (receive_pid c (r.bytes (send_port c r.sent p.info.dst_port).1)) h

unfoldable pub main_round : UnixSocketClient → Round → Hunter → End × Hunter
unfolding handle_packet
main_round c r h =
    handle_packet c r (pop h.message_queue).0 (record h { message_queue = (pop h.message_queue).1 })

abbrev pub ends : End → Bool
ends goes_on = false
ends stops = true
ends breaks = true
ends killed = true

abbrev pub kills : End → Bool
kills goes_on = false
kills stops = false
kills breaks = false
kills killed = true

unfoldable pub main_loop : UnixSocketClient → List Round → Hunter → Hunter
unfolding main_round
main_loop c [] h = h
main_loop c (r ∷ rs) h =
    let (end, h') = main_round c r h in
    let rest = main_loop c rs h' in if r.running then (if ends end then h' else rest) else h

-- The pids of the map, none of them -1.
abbrev pub NoUnknown : PacketMap → Type 0
NoUnknown [] = Unit {0}
NoUnknown ((pid, packets) ∷ m) = (eq_ℤ pid minus_one ≡ false) × NoUnknown m

-- What the loop keeps: packets that differ, of known processes.
pub record Inv (h : Hunter) : Type 0 where
  pub unique : IsUnique h.map
  pub known : NoUnknown h.map

NoUnknown-assign :
    (pid : ℤ) (packets : List Pckt) (m : PacketMap)
    → eq_ℤ pid minus_one ≡ false
    → NoUnknown m
    → NoUnknown (assign pid packets m)
unfolding assign
NoUnknown-assign pid packets [] h k = (h, k)
NoUnknown-assign pid packets ((j, qs) ∷ m) h k = elim (Bool-cases (eq_ℤ j pid)) [
  | inl e ↦ rw e (k.0, k.1)
  | inr e ↦ rw e (k.0, NoUnknown-assign pid packets m h k.1)
]

NoUnknown-insert_packet_info :
    (pid : ℤ) (p : Pckt) (m : PacketMap) → NoUnknown m → NoUnknown (insert_packet_info pid p m)
unfolding insert_packet_info
NoUnknown-insert_packet_info pid p m k = elim (Bool-cases (eq_ℤ pid minus_one)) [
  | inl h ↦ rw h k
  | inr h ↦ rw h (NoUnknown-assign pid (vector_or_empty (find pid m) ++ p ∷ []) m h k)
]

keep_packet-Inv :
    (p : Pckt) (answer : Option ℤ) (h : Hunter)
    → contains_packet p.info h.map ≡ false
    → Inv h
    → Inv (keep_packet p answer h).1
unfolding keep_packet
keep_packet-Inv p none h absent i = i
keep_packet-Inv p (some pid) h absent i = record {
  unique = insert-IsUnique pid p h.map absent i.unique;
  known = NoUnknown-insert_packet_info pid p h.map i.known;
}

handle_packet-Inv :
    (c : UnixSocketClient) (r : Round) (p : Option Pckt) (h : Hunter)
    → Inv h
    → Inv (handle_packet c r p h).1
unfolding handle_packet
handle_packet-Inv c r none h i = i
handle_packet-Inv c r (some p) h i = elim (Bool-cases (contains_packet p.info h.map)) [
  | inl e ↦ rw e i
  | inr e ↦ elim (Bool-cases (not (send_port c r.sent p.info.dst_port).0)) [
    | inl f ↦ rw (e, f) i
    | inr f ↦
        rw (e, f)
          (keep_packet-Inv p (receive_pid c (r.bytes (send_port c r.sent p.info.dst_port).1)) h e i)
  ]
]

pub main_round-Inv :
    (c : UnixSocketClient) (r : Round) (h : Hunter) → Inv h → Inv (main_round c r h).1
unfolding main_round
main_round-Inv c r h i =
    handle_packet-Inv c r (pop h.message_queue).0
      (record h { message_queue = (pop h.message_queue).1 })
      (record { unique = i.unique; known = i.known })

-- Whatever packets arrive and whatever the daemon answers, from a map in which no two packets agree
-- in addresses, ports and protocol and no packet is filed under the pid -1, the main loop ends with
-- a map of this kind.
pub main_loop-Inv :
    (c : UnixSocketClient) (rs : List Round) (h : Hunter) → Inv h → Inv (main_loop c rs h)
unfolding main_loop
main_loop-Inv c [] h i = i
main_loop-Inv c (r ∷ rs) h i = elim (Bool-cases r.running) [
  | inl e ↦ elim (Bool-cases (ends (main_round c r h).0)) [
    | inl f ↦ rw (e, f) (main_round-Inv c r h i)
    | inr f ↦ rw (e, f) (main_loop-Inv c rs (main_round c r h).1 (main_round-Inv c r h i))
  ]
  | inr e ↦ rw e i
]
