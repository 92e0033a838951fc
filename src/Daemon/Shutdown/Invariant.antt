-- ===== src/Daemon/Shutdown/Invariant.antt =====
-- What holds whenever the daemon may be looked at.
use hut_karish.Prelude.{ℕ, ◌<◌, ◌≡◌, refl, ◌∙◌, Bool, true, false, some, arith}
use hut_karish.Daemon.Shutdown.{
  ThreadPc, MainPc, System, is_set, positive, thread_move, main_move, Step, thread_step, main_step,
  signal, connects, requests, leaves, fails, begun, Reach, start, next,
}

-- `main` has left its loop; it has passed `shutdown`; it has connected to itself.
abbrev left : MainPc → Bool
left MainPc.starting = false
left MainPc.looping = false
left _ = true

abbrev past_shutdown : MainPc → Bool
past_shutdown MainPc.starting = false
past_shutdown MainPc.looping = false
past_shutdown MainPc.checking = false
past_shutdown MainPc.shuts = false
past_shutdown _ = true

-- The two steps after which `main` resets the descriptor, and those after them.
abbrev past_reset : MainPc → Bool
past_reset MainPc.refusing = true
past_reset MainPc.connecting = true
past_reset MainPc.joining = true
past_reset MainPc.ended = true
past_reset _ = false

abbrev waits : MainPc → Bool
waits MainPc.joining = true
waits MainPc.ended = true
waits _ = false

-- The thread reads, or has seen `running` and is about to.
abbrev reads : ThreadPc → Bool
reads ThreadPc.calling = true
reads ThreadPc.reading = true
reads _ = false

-- The thread serves a client.
abbrev serves : ThreadPc → Bool
serves ThreadPc.accepted = true
serves ThreadPc.serving = true
serves ThreadPc.testing = true
serves ThreadPc.calling = true
serves ThreadPc.reading = true
serves ThreadPc.answering = true
serves _ = false

abbrev accepts : ThreadPc → Bool
accepts ThreadPc.accepting = true
accepts _ = false

pub record Inv (s : System) : Type 0 where
  pub stopped : left s.main ≡ true → s.running ≡ false
  pub fd_positive : is_set s.client_fd ≡ true → positive s.client_fd ≡ true
  pub served : serves s.thread ≡ true → past_shutdown s.main ≡ false → is_set s.client_fd ≡ true
  pub woken : reads s.thread ≡ true → past_shutdown s.main ≡ true → s.shut ≡ true
  pub knocked : accepts s.thread ≡ true → waits s.main ≡ true → s.dummy ≡ true → 0 < s.backlog

thread_move-Inv :
    (pc : ThreadPc) (n : ℕ) (s t : System)
    → s.thread ≡ pc
    → 0 < n
    → thread_move pc n s ≡ some t
    → Inv s
    → Inv t
unfolding thread_move
thread_move-Inv ThreadPc.top n s t e p h v = ground arith
thread_move-Inv ThreadPc.accepting n s t e p h v = ground arith
thread_move-Inv ThreadPc.accepted n s t e p h v = ground arith
thread_move-Inv ThreadPc.serving n s t e p h v = ground arith
thread_move-Inv ThreadPc.testing n s t e p h v = ground arith
thread_move-Inv ThreadPc.calling n s t e p h v = ground arith
thread_move-Inv ThreadPc.reading n s t e p h v = ground arith
thread_move-Inv ThreadPc.answering n s t e p h v = ground arith
thread_move-Inv ThreadPc.closing n s t e p h v = ground arith
thread_move-Inv ThreadPc.closes n s t e p h v = ground arith
thread_move-Inv ThreadPc.resets n s t e p h v = ground arith
thread_move-Inv ThreadPc.finished n s t e p h v = ground arith

main_move-Inv : (pc : MainPc) (s t : System) → s.main ≡ pc → main_move pc s ≡ some t → Inv s → Inv t
unfolding main_move
main_move-Inv MainPc.starting s t e h v = ground arith
main_move-Inv MainPc.looping s t e h v = ground arith
main_move-Inv MainPc.checking s t e h v = ground arith
main_move-Inv MainPc.shuts s t e h v = ground arith
main_move-Inv MainPc.closing s t e h v = ground arith
main_move-Inv MainPc.closes s t e h v = ground arith
main_move-Inv MainPc.resets s t e h v = ground arith
main_move-Inv MainPc.refusing s t e h v = ground arith
main_move-Inv MainPc.connecting s t e h v = ground arith
main_move-Inv MainPc.joining s t e h v = ground arith
main_move-Inv MainPc.ended s t e h v = ground arith

Step-Inv : {s t : System} → Step s t → Inv s → Inv t
Step-Inv {s} {t} (thread_step n p h) v = thread_move-Inv s.thread n s t refl p h v
Step-Inv {s} {t} (main_step h) v = main_move-Inv s.main s t refl h v
Step-Inv signal v = ground arith
Step-Inv connects v = ground arith
Step-Inv (requests e) v = ground arith
Step-Inv (leaves e) v = ground arith
Step-Inv (fails e) v = ground arith

begun-Inv : (running dummy : Bool) → Inv (begun running dummy)
begun-Inv running dummy = ground arith

pub Reach-Inv : {running dummy : Bool} {s : System} → Reach running dummy s → Inv s
Reach-Inv {running} {dummy} start = begun-Inv running dummy
Reach-Inv (next r st) = Step-Inv st (Reach-Inv r)

-- What the system answers to the temporary socket does not change.
thread_dummy :
    (pc : ThreadPc) (n : ℕ) (s t : System) → thread_move pc n s ≡ some t → t.dummy ≡ s.dummy
unfolding thread_move
thread_dummy ThreadPc.top n s t h = ground arith
thread_dummy ThreadPc.accepting n s t h = ground arith
thread_dummy ThreadPc.accepted n s t h = ground arith
thread_dummy ThreadPc.serving n s t h = ground arith
thread_dummy ThreadPc.testing n s t h = ground arith
thread_dummy ThreadPc.calling n s t h = ground arith
thread_dummy ThreadPc.reading n s t h = ground arith
thread_dummy ThreadPc.answering n s t h = ground arith
thread_dummy ThreadPc.closing n s t h = ground arith
thread_dummy ThreadPc.closes n s t h = ground arith
thread_dummy ThreadPc.resets n s t h = ground arith
thread_dummy ThreadPc.finished n s t h = ground arith

main_dummy : (pc : MainPc) (s t : System) → main_move pc s ≡ some t → t.dummy ≡ s.dummy
unfolding main_move
main_dummy MainPc.starting s t h = ground arith
main_dummy MainPc.looping s t h = ground arith
main_dummy MainPc.checking s t h = ground arith
main_dummy MainPc.shuts s t h = ground arith
main_dummy MainPc.closing s t h = ground arith
main_dummy MainPc.closes s t h = ground arith
main_dummy MainPc.resets s t h = ground arith
main_dummy MainPc.refusing s t h = ground arith
main_dummy MainPc.connecting s t h = ground arith
main_dummy MainPc.joining s t h = ground arith
main_dummy MainPc.ended s t h = ground arith

Step-dummy : {s t : System} → Step s t → t.dummy ≡ s.dummy
Step-dummy {s} {t} (thread_step n p h) = thread_dummy s.thread n s t h
Step-dummy {s} {t} (main_step h) = main_dummy s.main s t h
Step-dummy signal = refl
Step-dummy connects = refl
Step-dummy (requests e) = refl
Step-dummy (leaves e) = refl
Step-dummy (fails e) = refl

pub Reach-dummy : {running dummy : Bool} {s : System} → Reach running dummy s → s.dummy ≡ dummy
Reach-dummy start = refl
Reach-dummy (next r st) = Step-dummy st ∙ Reach-dummy r
