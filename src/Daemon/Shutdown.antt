-- ===== src/Daemon/Shutdown.antt =====
-- daemon/src/main.cpp and UnixSocketServer.cpp: how the daemon ends. `main` and the client thread
-- take steps in any order over what they share: the flag `running`, and the server's `clientFd` and
-- `isShuttingDown`, none of which a mutex guards.
pub mod Invariant
pub mod Progress
pub mod Settling
pub mod Races
use hut_karish.Prelude.{
  ℕ, ◌+◌, ◌-◌, ◌<◌, ◌≡◌, Bool, true, false, not, ◌||◌, ltb, ◌==◌, Option, none, some, if◌then◌else◌,
}

-- Where clientConnectionThread stands: at its loop's test, in `accept`, at the test after it, at the
-- entry of handleClientConnection, at its loop's test, about to read, in `read`, about to answer, and
-- at the three steps of closeClientFd.
pub data ThreadPc : Type 0 where
  top accepting accepted serving testing calling reading answering closing closes resets finished :
      ThreadPc

-- Where `main` stands: before `running = true`, in the main loop, at the test of the client's
-- descriptor, at `shutdown`, at the three steps of closeClientFd, at the two of
-- stopListeningForNewClients, in the last `join`, and at its end.
pub data MainPc : Type 0 where
  starting looping checking shuts closing closes resets refusing connecting joining ended : MainPc

-- `client_fd` is none for -1; `shut` tells whether the client's connection was shut down for reading;
-- `backlog` counts the connections that wait to be accepted; `dummy` is what the system answers to
-- the temporary socket of stopListeningForNewClients.
pub record System : Type 0 where
  pub running : Bool
  pub shutting_down : Bool
  pub client_fd : Option ℕ
  pub shut : Bool
  pub backlog : ℕ
  pub dummy : Bool
  pub thread : ThreadPc
  pub main : MainPc

abbrev pub is_set : Option ℕ → Bool
is_set none = false
is_set (some n) = true

abbrev pub positive : Option ℕ → Bool
positive none = false
positive (some n) = ltb 0 n

-- What the client thread does by itself; none where it waits for something, or is finished. `accept`
-- gives the descriptor `n`. The write of a pid to the client returns.
unfoldable pub thread_move : ThreadPc → ℕ → System → Option System
thread_move ThreadPc.top n s =
    some (record s { thread = if s.running then ThreadPc.accepting else ThreadPc.finished })
thread_move ThreadPc.accepting n s =
    if ltb 0 s.backlog
    then some (record s {
      client_fd = some n;
      shut = false;
      backlog = s.backlog - 1;
      thread = ThreadPc.accepted;
    })
    else none
thread_move ThreadPc.accepted n s = some (record s {
  thread =
      if not (is_set s.client_fd) || s.shutting_down then ThreadPc.closing else ThreadPc.serving;
})
thread_move ThreadPc.serving n s =
    some (record s { thread = if is_set s.client_fd then ThreadPc.testing else ThreadPc.closing })
thread_move ThreadPc.testing n s =
    some (record s { thread = if s.running then ThreadPc.calling else ThreadPc.closing })
thread_move ThreadPc.calling n s =
    some (record s { thread = if is_set s.client_fd then ThreadPc.reading else ThreadPc.closing })
thread_move ThreadPc.reading n s =
    if s.shut then some (record s { thread = ThreadPc.closing }) else none
thread_move ThreadPc.answering n s = some (record s { thread = ThreadPc.testing })
thread_move ThreadPc.closing n s =
    some (record s { thread = if is_set s.client_fd then ThreadPc.closes else ThreadPc.top })
thread_move ThreadPc.closes n s = some (record s { thread = ThreadPc.resets })
thread_move ThreadPc.resets n s = some (record s { client_fd = none; thread = ThreadPc.top })
thread_move ThreadPc.finished n s = none

-- What `main` does by itself.
unfoldable pub main_move : MainPc → System → Option System
main_move MainPc.starting s = some (record s { running = true; main = MainPc.looping })
main_move MainPc.looping s =
    some (record s { main = if s.running then MainPc.looping else MainPc.checking })
main_move MainPc.checking s =
    some (record s { main = if positive s.client_fd then MainPc.shuts else MainPc.refusing })
main_move MainPc.shuts s =
    some (record s { shut = if is_set s.client_fd then true else s.shut; main = MainPc.closing })
main_move MainPc.closing s =
    some (record s { main = if is_set s.client_fd then MainPc.closes else MainPc.refusing })
main_move MainPc.closes s = some (record s { main = MainPc.resets })
main_move MainPc.resets s = some (record s { client_fd = none; main = MainPc.refusing })
main_move MainPc.refusing s = some (record s { shutting_down = true; main = MainPc.connecting })
main_move MainPc.connecting s =
    some
      (record s { backlog = if s.dummy then s.backlog + 1 else s.backlog; main = MainPc.joining })
main_move MainPc.joining s = elim s.thread [
  | ThreadPc.finished ↦ some (record s { main = MainPc.ended })
  | _ ↦ none
]
main_move MainPc.ended s = none

-- A step of one of the two, or of the rest of the world: a signal, a client that connects, a request
-- or the end of the connection that is being read, and a failing `accept`. Descriptors that `accept`
-- gives are positive.
pub data Step (s : System) : System → Type 0 where
  thread_step : (n : ℕ) {t : System} → 0 < n → thread_move s.thread n s ≡ some t → Step s t
  main_step : {t : System} → main_move s.main s ≡ some t → Step s t
  signal : Step s (record s { running = false })
  connects : Step s (record s { backlog = s.backlog + 1 })
  requests : s.thread ≡ ThreadPc.reading → Step s (record s { thread = ThreadPc.answering })
  leaves : s.thread ≡ ThreadPc.reading → Step s (record s { thread = ThreadPc.closing })
  fails :
      s.thread ≡ ThreadPc.accepting
      → Step s (record s { client_fd = none; thread = ThreadPc.closing })

-- The daemon as the client thread starts, with memory that held false for `isShuttingDown`.
abbrev pub begun : Bool → Bool → System
begun running dummy = record {
  running = running;
  shutting_down = false;
  client_fd = none;
  shut = false;
  backlog = 0;
  dummy = dummy;
  thread = ThreadPc.top;
  main = MainPc.starting;
}

pub data Reach (running dummy : Bool) : System → Type 0 where
  start : Reach running dummy (begun running dummy)
  next : {s t : System} → Reach running dummy s → Step s t → Reach running dummy t
