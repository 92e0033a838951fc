-- ===== src/Tests/Endings.antt =====
-- How the two programs end, at concrete inputs.
use hut_karish.Prelude.{
  ℕ, ◌+◌, ◌≤◌, ◌<◌, ◌≡◌, ◌⊎◌, refl, true, false, List, [], ◌∷◌, ◌++◌, none, some, arith, Returns,
  length,
}
use hut_karish.Prelude.Int.{pos}
use hut_karish.Heap.{Pckt}
use hut_karish.Receiver.Delivery.{round_of}
use hut_karish.Hunter.Client.{UnixSocketClient, wrote}
use hut_karish.Hunter.Loop.{Round, Inv}
use hut_karish.Hunter.Interleaving.{run_threads-Inv}
use hut_karish.Hunter.Hunted.{arrived, Hunted}
use hut_karish.Hunter.Arrived.{run_threads-Hunted}
use hut_karish.Hunter.Freeing.{kept}
use hut_karish.Hunter.Threads.{Event, receives, loops, run_threads, started, hunter_main, killed_in}
use hut_karish.Hunter.Shutdown.{AtEnd, hunter_memory}
use hut_karish.Daemon.Shutdown.{
  ThreadPc, MainPc, System, thread_move, main_move, thread_step, main_step, signal, connects, Reach,
  start, next,
}
use hut_karish.Daemon.Shutdown.Progress.{Progresses, thread_run, join_returns, steps_left}
use hut_karish.Daemon.Shutdown.Settling.{Later, now, later, join_settles}
use hut_karish.Tests.NetLink.{segment, noise}
use hut_karish.Tests.Daemon.{order}

abbrev pub client : UnixSocketClient
client = record { sock_fd = pos 4; is_connected = true; open_fds = 4 ∷ 3 ∷ [] }

abbrev pub round : Round
round = record {
  running = true;
  answers = true;
  sent = wrote 2;
  bytes = λ sent. some (17 ∷ 0 ∷ 0 ∷ 0 ∷ []);
}

abbrev plain : ℕ → List ℕ
plain ip = []

-- The same packet comes three times; the main loop takes two of them out of the queue.
abbrev pub hunt : List Event
hunt =
    receives (round_of segment noise [])
    ∷ receives (round_of segment noise [])
    ∷ loops round
    ∷ receives (round_of segment noise [])
    ∷ loops round
    ∷ []

-- At the end the order to stop comes, and a signal resets `running`.
abbrev pub whole_hunt : List Event
whole_hunt =
    hunt ++ receives (round_of order noise []) ∷ loops (record round { running = false }) ∷ []

hunter_memory_example :
    let t = run_threads client whole_hunt started in
    (lost : List Pckt) × (t.heap.next
      ≡ length t.hunter.message_queue.queue + length lost + length (kept t.hunter.map))
    × Returns (hunter_main plain client true true whole_hunt b'y' true) (
        AtEnd plain
          (killed_in client whole_hunt started)
          t.looping
          true
          t.listening
          b'y'
          true
          t.hunter.map
          lost)
hunter_memory_example = hunter_memory plain client whole_hunt true b'y' true

run_threads-Inv_example : Inv (run_threads client hunt started).hunter
run_threads-Inv_example = run_threads-Inv client hunt

-- A client is being served as the signal comes: `main` shuts its connection down for reading, and
-- connects to itself.
abbrev closing : System
closing = record {
  running = false;
  shutting_down = true;
  client_fd = none;
  shut = true;
  backlog = 1;
  dummy = true;
  thread = ThreadPc.reading;
  main = MainPc.joining;
}

seven_positive : 0 < 7
seven_positive = omega arith

closing-Reach : Reach true true closing
unfolding thread_move main_move
closing-Reach =
    let accepting =
      next (next (next start (main_step refl)) (thread_step 7 seven_positive refl)) connects in
    let serving =
      next (next accepting (thread_step 7 seven_positive refl))
        (thread_step 7 seven_positive refl) in
    let calling =
      next (next serving (thread_step 7 seven_positive refl)) (thread_step 7 seven_positive refl) in
    let reading = next calling (thread_step 7 seven_positive refl) in
    let checking = next (next reading signal) (main_step refl) in
    let shut = next (next checking (main_step refl)) (main_step refl) in
    let refusing = next (next (next shut (main_step refl)) (main_step refl)) (main_step refl) in
    next (next refusing (main_step refl)) (main_step refl)

join_returns_example : Progresses 8 closing × ((thread_run 8 8 closing).thread ≡ ThreadPc.finished)
join_returns_example = join_returns 8 (omega arith) closing-Reach refl

abbrev woken : System
woken = record closing { thread = ThreadPc.closing }

wakes : Later closing 1 woken
unfolding thread_move
wakes = later now (thread_step 7 seven_positive refl)

join_settles_example :
    (1 + steps_left woken.thread ≤ 8)
    × ((woken.main ≡ MainPc.joining)
        ⊎ ((woken.main ≡ MainPc.ended) × (woken.thread ≡ ThreadPc.finished)))
join_settles_example = join_settles closing-Reach refl wakes

run_threads-Hunted_example : Hunted (arrived true hunt) (run_threads client hunt started)
run_threads-Hunted_example = run_threads-Hunted client hunt
