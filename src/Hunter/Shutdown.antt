-- ===== src/Hunter/Shutdown.antt =====
-- packet_hunter/src/main.cpp: what is left when `main` has ended.
use hut_karish.Prelude.{
  ℕ, ◌+◌, ◌≡◌, refl, sym, subst, Bool, true, false, ◌&&◌, ◌||◌, List, [], ◌∷◌, ◌++◌, map, some,
  Bool-cases, inl, inr, ◌>>=◌, arith, ◌==◌, Returns, Returns-bind, length, if◌then◌else◌,
}
use hut_karish.Heap.{Pckt, Heap, Holds, Holds-no_heap, Holds-append_comm}
use hut_karish.Receiver.Memory.{clean_message_queue-Owns}
use hut_karish.Hunter.PacketMap.{PacketMap}
use hut_karish.Hunter.Client.{UnixSocketClient}
use hut_karish.Hunter.Save.{
  save_packet_map_to_file, save_packet_map_to_file-Holds, entries, line_of_entry,
}
use hut_karish.Hunter.Freeing.{free_entries, free_entries-Holds, kept, pointers-entries}
use hut_karish.Prelude.Int.{pos}
use hut_karish.Exit.{Exit, returned, terminated, by_signal, still_runs}
use hut_karish.Hunter.Threads.{
  hunter_main, killed_in, Hunt, Event, receives, loops, shared_of, loop_step, step, run_threads,
  finish, started,
}
use hut_karish.Hunter.Loop.{Round}
use hut_karish.Hunter.Memory.{Owns, receiver_step-Owns, main_round-Owns}

loop_step-Owns :
    (c : UnixSocketClient) (r : Round) (t : Hunt)
    → Owns t.heap t.hunter
    → Owns (loop_step c r t).heap (loop_step c r t).hunter
unfolding loop_step
loop_step-Owns c r t v = elim (Bool-cases (t.looping && r.running)) [
  | inl h ↦ rw h (main_round-Owns c r t.heap t.hunter v)
  | inr h ↦ rw h v
]

step-Owns :
    (c : UnixSocketClient) (ev : Event) (t : Hunt)
    → Owns t.heap t.hunter
    → Owns (step c ev t).heap (step c ev t).hunter
step-Owns c (receives r) t v = receiver_step-Owns r t v
step-Owns c (loops r) t v = loop_step-Owns c r t v

pub run_threads-Owns :
    (c : UnixSocketClient) (evs : List Event) (t : Hunt)
    → Owns t.heap t.hunter
    → Owns (run_threads c evs t).heap (run_threads c evs t).hunter
unfolding run_threads
run_threads-Owns c [] t v = v
run_threads-Owns c (ev ∷ evs) t v = run_threads-Owns c evs (step c ev t) (step-Owns c ev t v)

started-Owns : Owns started.heap started.hunter
started-Owns = record { lost = []; holds = Holds-no_heap; counted = refl }

-- Whether the answer to the question asks for the file, and whether the packets of the map are freed.
abbrev pub saves : ℕ → Bool
saves choice = choice == b'y' || choice == b'Y'

abbrev pub frees : (save opens : Bool) → Bool
frees save opens = if save then opens else true

-- What is left where `lost` was lost: the lines, and the live memory.
abbrev pub Finished :
    (ℕ → List ℕ) → (save opens : Bool) → PacketMap → List Pckt → List (List ℕ) × Heap → Type 0
Finished inet_ntoa save opens m lost s =
    (s.0 ≡ (if save && opens then map (line_of_entry inet_ntoa) (entries m) else []))
    × Holds s.1 (if frees save opens then lost else kept m ++ lost)

module _ (inet_ntoa : ℕ → List ℕ) where
  -- The rest of `main`, after the cleaning.
  choose :
      (save opens : Bool) (m : PacketMap) (lost : List Pckt) (heap : Heap)
      → Holds heap (kept m ++ lost)
      → Returns
          (if save
            then save_packet_map_to_file inet_ntoa opens m heap
            else free_entries m heap >>= λ heap'. some ([], heap'))
          (Finished inet_ntoa save opens m lost)
  choose true opens m lost heap v =
      subst
        (λ l. Returns (save_packet_map_to_file inet_ntoa opens m heap) (λ s.
          (s.0 ≡ (if opens then map (line_of_entry inet_ntoa) (entries m) else []))
          × Holds s.1 (if opens then lost else l ++ lost)))
        (pointers-entries m)
        (save_packet_map_to_file-Holds inet_ntoa opens m lost heap
          (subst (λ l. Holds heap (l ++ lost)) (sym (pointers-entries m)) v))
  choose false opens m lost heap v =
      Returns-bind (λ heap'. Holds heap' lost) (Finished inet_ntoa false opens m lost) _ _
        (free_entries-Holds m lost heap v) λ heap' t. (refl, t)

  finish-Finished :
      (choice : ℕ) (opens : Bool) (t : Hunt) (v : Owns t.heap t.hunter)
      → Returns
          (finish inet_ntoa choice opens t)
          (Finished inet_ntoa (saves choice) opens t.hunter.map v.lost)
  unfolding finish
  finish-Finished choice opens t v =
      Returns-bind (λ s. (s.message_queue.queue ≡ []) × Holds s.heap (v.lost ++ kept t.hunter.map))
        (Finished inet_ntoa (saves choice) opens t.hunter.map v.lost) _ _
        (clean_message_queue-Owns (length t.hunter.message_queue.queue + 1)
          (v.lost ++ kept t.hunter.map) (shared_of t) (omega arith) v.holds)
        λ s u.
          choose (saves choice) opens t.hunter.map v.lost s.heap
            (Holds-append_comm v.lost (kept t.hunter.map) s.heap u.1)

  -- How far `main` has come, with the packets `lost` besides those of the queue and of the map, by
  -- whether SIGPIPE has ended the process, the main loop goes on, the unsubscription is sent, and the
  -- receiver is in its loop.
  abbrev pub AtEnd :
      (gone looping unsubscribes listening : Bool)
      → (choice : ℕ) (opens : Bool) → PacketMap
      → List Pckt
      → Exit × List (List ℕ) × Heap
      → Type 0
  AtEnd true w u l choice opens m lost s = s.0 ≡ by_signal
  AtEnd false true u l choice opens m lost s = s.0 ≡ still_runs
  AtEnd false false false l choice opens m lost s = s.0 ≡ terminated
  AtEnd false false true true choice opens m lost s = s.0 ≡ still_runs
  AtEnd false false true false choice opens m lost s =
      (s.0 ≡ returned (pos 0)) × Finished inet_ntoa (saves choice) opens m lost (s.1, s.2)

  at_end :
      (c : UnixSocketClient) (evs : List Event) (unsubscribes : Bool) (choice : ℕ) (opens : Bool)
      (v : Owns (run_threads c evs started).heap (run_threads c evs started).hunter)
      (gone looping listening : Bool)
      → killed_in c evs started ≡ gone
      → (run_threads c evs started).looping ≡ looping
      → (run_threads c evs started).listening ≡ listening
      → Returns (hunter_main inet_ntoa c true unsubscribes evs choice opens) (
          AtEnd gone looping unsubscribes listening choice opens
            (run_threads c evs started).hunter.map
            v.lost)
  unfolding hunter_main
  at_end c evs u choice opens v true w l g e f = rw g refl
  at_end c evs u choice opens v false true l g e f = rw (g, e) refl
  at_end c evs false choice opens v false false l g e f = rw (g, e) refl
  at_end c evs true choice opens v false false true g e f = rw (g, e, f) refl
  at_end c evs true choice opens v false false false g e f =
      let t = run_threads c evs started in
      rw (g, e, f)
        (Returns-bind (Finished inet_ntoa (saves choice) opens t.hunter.map v.lost)
          (AtEnd false false true false choice opens t.hunter.map v.lost) _ _
          (finish-Finished choice opens t v) λ s u. (refl, u))

  -- The subscription is sent. However the receiver and the main loop of the packet hunter interleave,
  -- whatever is received and whatever the daemon answers, there is no fault. If a port is sent to a
  -- daemon that has closed the connection, SIGPIPE ends the process. Otherwise, once the main loop has
  -- ended, `main` is terminated if the unsubscription is not sent, and waits in `join` until the
  -- receiver has ended. Then it returns 0; if the file is asked for and can be opened it holds the line
  -- of each packet of the map, and nothing was written otherwise; the packets of the queue are freed,
  -- and those of the map, unless the file was asked for and could not be opened; what stays live
  -- besides are packets that were lost, as many as were received, less those that were waiting in the
  -- queue and those that were in the map.
  pub hunter_memory :
      (c : UnixSocketClient) (evs : List Event) (unsubscribes : Bool) (choice : ℕ) (opens : Bool)
      → let t = run_threads c evs started in
        (lost : List Pckt) × (t.heap.next
          ≡ length t.hunter.message_queue.queue + length lost + length (kept t.hunter.map))
        × Returns (hunter_main inet_ntoa c true unsubscribes evs choice opens) (
            AtEnd
              (killed_in c evs started)
              t.looping
              unsubscribes
              t.listening
              choice
              opens
              t.hunter.map
              lost)
  hunter_memory c evs unsubscribes choice opens =
      let v = run_threads-Owns c evs started started-Owns in
      (v.lost, v.counted, at_end c evs unsubscribes choice opens v _ _ _ refl refl refl)
