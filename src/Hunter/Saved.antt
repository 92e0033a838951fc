-- ===== src/Hunter/Saved.antt =====
-- packet_hunter/src/main.cpp: what is saved, by what was printed.
use mathlib.Core.List.{Permᴰ}
use mathlib.Core.List.Permᴰ
use hut_karish.Prelude.{
  ℕ, ◌≡◌, refl, ap, sym, subst, ◌∙◌, true, false, not, ◌&&◌, List, [], ◌∷◌, ◌++◌, map, map-append,
  append-nil, append_assoc, Option, none, some, Bool-cases, inl, inr, arith, Returns, Returns-mono,
  if◌then◌else◌,
}
use hut_karish.Prelude.Int.{ℤ, pos, minus_one, eq_ℤ, eq_ℤ_iff}
use hut_karish.Prelude.Assoc.{find, assign, int_eq}
use hut_karish.Exit.{returned}
use hut_karish.Heap.{Pckt}
use hut_karish.Queue.{pop}
use hut_karish.Hunter.PacketMap.{PacketMap, contains_packet, insert_packet_info, vector_or_empty}
use hut_karish.Hunter.Client.{UnixSocketClient, send_port, receive_pid}
use hut_karish.Hunter.Loop.{Hunter, Round, keep_packet, handle_packet, main_round}
use hut_karish.Hunter.Threads.{
  Hunt, Event, receives, loops, receiver_step, loop_step, step, run_threads, started, hunter_main,
  killed_in,
}
use hut_karish.Hunter.Save.{entries, line_of_entry}
use hut_karish.Hunter.Shutdown.{AtEnd, hunter_memory}

-- Without those of the pid -1.
abbrev pub known : List (ℤ × Pckt) → List (ℤ × Pckt)
known [] = []
known ((pid, p) ∷ ps) = let rest = known ps in if eq_ℤ pid minus_one then rest else (pid, p) ∷ rest

known-append : (ps qs : List (ℤ × Pckt)) → known (ps ++ qs) ≡ known ps ++ known qs
known-append [] qs = refl
known-append ((pid, p) ∷ ps) qs = ground (arith, known-append ps qs)

-- An entry grows by a packet at its end.
grown :
    (j pid : ℤ) (p : Pckt) (ps : List Pckt) (m : PacketMap)
    → j ≡ pid
    → Permᴰ (entries ((j, ps ++ p ∷ []) ∷ m)) (entries ((j, ps) ∷ m) ++ (pid, p) ∷ [])
grown j pid p ps m same =
    let front = map (λ x. (j, x)) ps in
    subst (λ l. Permᴰ l ((front ++ entries m) ++ (pid, p) ∷ []))
      (sym (
        ap (λ l. l ++ entries m) (map-append (λ x. (j, x)) ps (p ∷ []))
        ∙ append_assoc front ((j, p) ∷ []) (entries m)))
      (subst (λ i. Permᴰ (front ++ (i, p) ∷ entries m) ((front ++ entries m) ++ (pid, p) ∷ []))
        (sym same)
        (subst (λ l. Permᴰ (front ++ (pid, p) ∷ entries m) l)
          (sym (append_assoc front (entries m) ((pid, p) ∷ [])))
          (Permᴰ.append_left front (Permᴰ.append_comm ((pid, p) ∷ []) (entries m)))))

entries-assign :
    (pid : ℤ) (p : Pckt) (qs : List Pckt) (m : PacketMap)
    → vector_or_empty (find pid m) ≡ qs
    → Permᴰ (entries (assign pid (qs ++ p ∷ []) m)) (entries m ++ (pid, p) ∷ [])
unfolding find assign
entries-assign pid p qs [] same =
    subst (λ l. Permᴰ (entries ((pid, l ++ p ∷ []) ∷ [])) ((pid, p) ∷ [])) same (Permᴰ.refl _)
entries-assign pid p qs ((j, ps) ∷ m) same = elim (Bool-cases (eq_ℤ j pid)) [
  | inl e ↦ rw e (
      subst (λ l. Permᴰ (entries ((j, l ++ p ∷ []) ∷ m)) (entries ((j, ps) ∷ m) ++ (pid, p) ∷ []))
        (rw e at same) (grown j pid p ps m ((eq_ℤ_iff j pid).0 e)))
  | inr e ↦
      let front = map (λ x. (j, x)) ps in
      rw e (
        subst (Permᴰ (front ++ entries (assign pid (qs ++ p ∷ []) m)))
          (sym (append_assoc front (entries m) ((pid, p) ∷ [])))
          (Permᴰ.append_left front (entries-assign pid p qs m (rw e at same))))
]

entries-insert :
    (pid : ℤ) (p : Pckt) (m : PacketMap)
    → Permᴰ (entries (insert_packet_info pid p m)) (entries m ++ known ((pid, p) ∷ []))
unfolding insert_packet_info
entries-insert pid p m = elim (Bool-cases (eq_ℤ pid minus_one)) [
  | inl e ↦ rw (e, append-nil) (Permᴰ.refl (entries m))
  | inr e ↦ rw e (entries-assign pid p (vector_or_empty (find pid m)) m refl)
]

-- What is filed is what was printed, in some order.
abbrev Filed : Hunter → Type 0
Filed h = Permᴰ (entries h.map) (known h.printed)

keep_packet-Filed :
    (p : Pckt) (answer : Option ℤ) (h : Hunter) → Filed h → Filed (keep_packet p answer h).1
unfolding keep_packet
keep_packet-Filed p none h v = v
keep_packet-Filed p (some pid) h v = Permᴰ.trans (entries-insert pid p h.map) (
    subst (Permᴰ (entries h.map ++ known ((pid, p) ∷ [])))
      (sym (known-append h.printed ((pid, p) ∷ []))) (Permᴰ.append_right (known ((pid, p) ∷ [])) v))

handle_packet-Filed :
    (c : UnixSocketClient) (r : Round) (o : Option Pckt) (h : Hunter)
    → Filed h
    → Filed (handle_packet c r o h).1
unfolding handle_packet
handle_packet-Filed c r none h v = v
handle_packet-Filed c r (some p) h v = elim (Bool-cases (contains_packet p.info h.map)) [
  | inl e ↦ rw e v
  | inr e ↦ elim (Bool-cases (not (send_port c r.sent p.info.dst_port).0)) [
    | inl f ↦ rw (e, f) v
    | inr f ↦
        rw (e, f)
          (keep_packet-Filed p (receive_pid c (r.bytes (send_port c r.sent p.info.dst_port).1)) h v)
  ]
]

step-Filed :
    (c : UnixSocketClient) (ev : Event) (t : Hunt) → Filed t.hunter → Filed (step c ev t).hunter
unfolding receiver_step loop_step main_round
step-Filed c (receives r) t v = elim (Bool-cases (t.listening && r.running)) [
  | inl e ↦ rw e v
  | inr e ↦ rw e v
]
step-Filed c (loops r) t v = elim (Bool-cases (t.looping && r.running)) [
  | inl e ↦ rw e (
      handle_packet-Filed c r (pop t.hunter.message_queue).0
        (record t.hunter { message_queue = (pop t.hunter.message_queue).1 }) v)
  | inr e ↦ rw e v
]

threads-Filed :
    (c : UnixSocketClient) (evs : List Event) (t : Hunt)
    → Filed t.hunter
    → Filed (run_threads c evs t).hunter
unfolding run_threads
threads-Filed c [] t v = v
threads-Filed c (ev ∷ evs) t v = threads-Filed c evs (step c ev t) (step-Filed c ev t v)

-- If both messages to the kernel module are sent, and the file is asked for and can be opened, then
-- however the receiver and the main loop of the packet hunter interleave, whatever is received and
-- whatever the daemon answers: when both have ended, the main loop not by SIGPIPE, `main` returns 0,
-- and the lines of the file are those of the packets that were printed with a pid other than -1, each
-- with that pid and each as often as it was printed, in some order.
pub hunter_main-Saved :
    (inet_ntoa : ℕ → List ℕ) (c : UnixSocketClient) (evs : List Event)
    → killed_in c evs started ≡ false
    → (run_threads c evs started).looping ≡ false
    → (run_threads c evs started).listening ≡ false
    → Returns (hunter_main inet_ntoa c true true evs b'y' true) (λ s.
      (s.0 ≡ returned (pos 0))
      × Permᴰ s.1
          (map (line_of_entry inet_ntoa) (known (run_threads c evs started).hunter.printed)))
hunter_main-Saved inet_ntoa c evs alive left ended =
    let t = run_threads c evs started in
    let (lost, counted, at_end) = hunter_memory inet_ntoa c evs true b'y' true in
    Returns-mono (AtEnd inet_ntoa false false true false b'y' true t.hunter.map lost) _ _
      (λ s u. (
        u.0,
        subst (λ l. Permᴰ l (map (line_of_entry inet_ntoa) (known t.hunter.printed))) (sym u.1.0)
            (Permᴰ.map (line_of_entry inet_ntoa) (threads-Filed c evs started Permᴰ.nil)),
      ))
      (rw (alive, left, ended) at at_end)
