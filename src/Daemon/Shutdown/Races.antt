-- ===== src/Daemon/Shutdown/Races.antt =====
-- What can go wrong at the end of the daemon.
use hut_karish.Prelude.{ℕ, ◌<◌, ◌≡◌, refl, true, false, none, some, arith}
use hut_karish.Daemon.Shutdown.{
  ThreadPc, MainPc, System, positive, thread_move, main_move, thread_step, main_step, signal,
  connects, Reach, start, next,
}

positive_lem : (n : ℕ) → 0 < n → positive (some n) ≡ true
positive_lem n p = ground arith

-- The client thread reads from the connection `n`, and `main` looks at the descriptor.
abbrev served_by : ℕ → System
served_by n = record {
  running = false;
  shutting_down = false;
  client_fd = some n;
  shut = false;
  backlog = 0;
  dummy = true;
  thread = ThreadPc.reading;
  main = MainPc.checking;
}

checks :
    (s : System)
    → positive s.client_fd ≡ true
    → main_move MainPc.checking s ≡ some (record s { main = MainPc.shuts })
unfolding main_move
checks s h = ground arith

-- `main` and the client thread may both be about to close one descriptor, since closeClientFd tests,
-- closes and resets in three steps that no mutex holds together.
pub closes_twice :
    (n : ℕ)
    → 0 < n
    → (s : System) × Reach true true s
      × (s.main ≡ MainPc.closes)
      × (s.thread ≡ ThreadPc.closes)
      × (s.client_fd ≡ some n)
unfolding thread_move main_move
closes_twice n p =
    let accepting = next (next (next start (main_step refl)) (thread_step n p refl)) connects in
    let serving = next (next accepting (thread_step n p refl)) (thread_step n p refl) in
    let calling = next (next serving (thread_step n p refl)) (thread_step n p refl) in
    let reading = next calling (thread_step n p refl) in
    let checking = next (next reading signal) (main_step refl) in
    let shuts = next checking (main_step (checks (served_by n) (positive_lem n p))) in
    let closes = next (next shuts (main_step refl)) (main_step refl) in
    let both = next (next closes (thread_step n p refl)) (thread_step n p refl) in
    (_, both, refl, refl, refl)

seven_positive : 0 < 7
seven_positive = omega arith

abbrev waiting : System
waiting = record {
  running = false;
  shutting_down = true;
  client_fd = none;
  shut = false;
  backlog = 0;
  dummy = false;
  thread = ThreadPc.accepting;
  main = MainPc.joining;
}

-- If the system refuses the temporary socket, then `main` may wait in its last `join` while the
-- client thread waits in `accept` and no connection is there to accept.
pub join_may_wait :
    (s : System) × Reach true false s
    × (s.main ≡ MainPc.joining)
    × (s.thread ≡ ThreadPc.accepting)
    × (s.backlog ≡ 0)
unfolding thread_move main_move
join_may_wait =
    let accepting = next (next start (main_step refl)) (thread_step 7 seven_positive refl) in
    let refusing = next (next (next accepting signal) (main_step refl)) (main_step refl) in
    let joining = next (next refusing (main_step refl)) (main_step refl) in
    (waiting, joining, refl, refl, refl)
