-- ===== src/Hunter/Threads.antt =====
-- packet_hunter/src/main.cpp: the threads and the end of `main`. A fault is `none`.
use hut_karish.Prelude.{
  ℕ, ◌+◌, Bool, true, false, ◌&&◌, ◌||◌, not, List, [], ◌∷◌, Option, some, ◌>>=◌, length, ◌==◌,
  if◌then◌else◌,
}
use hut_karish.Prelude.Int.{pos, minus_one}
use hut_karish.Heap.{Heap, no_heap}
use hut_karish.Queue.{new}
use hut_karish.NetLink.Wire.{receive_packet_info}
use hut_karish.Receiver.{Shared, Round as Reception, receive_round, clean_message_queue}
use hut_karish.Hunter.Client.{UnixSocketClient}
use hut_karish.Hunter.Loop.{Hunter, Round, main_round, ends, kills}
use hut_karish.Exit.{Exit, returned, terminated, by_signal, still_runs}
use hut_karish.Hunter.Save.{save_packet_map_to_file}
use hut_karish.Hunter.Freeing.{free_entries}

-- The main loop's state, the heap, and which of the receiver and the main loop are still in their
-- loops.
pub record Hunt : Type 0 where
  pub hunter : Hunter
  pub heap : Heap
  pub listening : Bool
  pub looping : Bool

-- A round of either thread, in the order of what they share, which is the queue.
pub data Event : Type 0 where
  receives : Reception → Event
  loops : Round → Event

abbrev pub shared_of : Hunt → Shared
shared_of t = record { message_queue = t.hunter.message_queue; heap = t.heap }

unfoldable pub receiver_step : Reception → Hunt → Hunt
unfolding receive_round
receiver_step r t =
    if t.listening && r.running
    then (let (continues, shared) =
          receive_round (receive_packet_info r.datagram r.buffer) (shared_of t) in
        record t {
          hunter = record t.hunter { message_queue = shared.message_queue };
          heap = shared.heap;
          listening = continues;
        })
    else record t { listening = false }

unfoldable pub loop_step : UnixSocketClient → Round → Hunt → Hunt
unfolding main_round
loop_step c r t =
    if t.looping && r.running
    then (let (end, hunter) = main_round c r t.hunter in
        record t { hunter = hunter; looping = not (ends end) })
    else record t { looping = false }

abbrev pub step : UnixSocketClient → Event → Hunt → Hunt
step c (receives r) t = receiver_step r t
step c (loops r) t = loop_step c r t

unfoldable pub run_threads : UnixSocketClient → List Event → Hunt → Hunt
run_threads c [] t = t
run_threads c (ev ∷ evs) t = run_threads c evs (step c ev t)

-- The map after the cleaning of the queue is saved on `y` and `Y`, and freed on any other answer: the
-- lines that were written, and the heap.
unfoldable pub finish : (ℕ → List ℕ) → ℕ → Bool → Hunt → Option (List (List ℕ) × Heap)
finish inet_ntoa choice opens t = do
  s ← clean_message_queue (length t.hunter.message_queue.queue + 1) (shared_of t)
  if choice == b'y' || choice == b'Y'
      then save_packet_map_to_file inet_ntoa opens t.hunter.map s.heap
      else (do heap ← free_entries t.hunter.map s.heap; some ([], heap))

abbrev pub started : Hunt
started = record {
  hunter = record { message_queue = new; map = []; printed = [] };
  heap = no_heap;
  listening = true;
  looping = true;
}

-- Whether SIGPIPE ends the process in a round of the main loop.
unfoldable pub killed_in : UnixSocketClient → List Event → Hunt → Bool
unfolding main_round
killed_in c [] t = false
killed_in c (receives r ∷ evs) t = killed_in c evs (receiver_step r t)
killed_in c (loops r ∷ evs) t =
    let later = killed_in c evs (loop_step c r t) in
    (t.looping && r.running && kills (main_round c r t.hunter).0) || later

-- How far `main` has come when the threads have done `evs`, with the lines of the file and the heap.
-- It waits in `join` until the receiver has ended. `subscribes` and `unsubscribes` tell whether the two
-- messages to the kernel module are sent.
unfoldable pub hunter_main :
    (ℕ → List ℕ)
    → UnixSocketClient
    → (subscribes unsubscribes : Bool) → List Event
    → ℕ
    → Bool
    → Option (Exit × List (List ℕ) × Heap)
unfolding run_threads killed_in finish
hunter_main inet_ntoa c subscribes unsubscribes evs choice opens =
    if not subscribes
    then some (returned minus_one, [], no_heap)
    else if killed_in c evs started
    then some (by_signal, [], (run_threads c evs started).heap)
    else if (run_threads c evs started).looping
    then some (still_runs, [], (run_threads c evs started).heap)
    else if not unsubscribes
    then some (terminated, [], (run_threads c evs started).heap)
    else if (run_threads c evs started).listening
    then some (still_runs, [], (run_threads c evs started).heap)
    else (do
      (out, heap) ← finish inet_ntoa choice opens (run_threads c evs started)
      some (returned (pos 0), out, heap))
