-- ===== src/Daemon/Shutdown/Progress.antt =====
-- The last `join` returns.
use hut_karish.Prelude.{
  ℕ, zero, suc, ◌-◌, ◌≤◌, ◌<◌, ◌≡◌, refl, ◌∙◌, ◌⊎◌, inl, inr, Bool, true, false, none, some, arith,
}
use hut_karish.Daemon.Shutdown.{ThreadPc, MainPc, System, thread_move, thread_step, Reach, next}
use hut_karish.Daemon.Shutdown.Invariant.{Inv, Reach-Inv, Reach-dummy}

-- How many steps the thread may still take, once `running` is false.
abbrev pub steps_left : ThreadPc → ℕ
steps_left ThreadPc.finished = 0
steps_left ThreadPc.top = 1
steps_left ThreadPc.resets = 2
steps_left ThreadPc.closes = 3
steps_left ThreadPc.closing = 4
steps_left ThreadPc.testing = 5
steps_left ThreadPc.serving = 6
steps_left ThreadPc.answering = 6
steps_left ThreadPc.accepted = 7
steps_left ThreadPc.reading = 7
steps_left ThreadPc.calling = 8
steps_left ThreadPc.accepting = 8

-- The thread is finished, or takes a step by itself and then has fewer left.
abbrev pub Progresses : ℕ → System → Type 0
Progresses n s =
    (s.thread ≡ ThreadPc.finished)
    ⊎ ((t : System) × (thread_move s.thread n s ≡ some t)
        × (steps_left t.thread < steps_left s.thread))

pub progress_at :
    (pc : ThreadPc) (n : ℕ) (s : System)
    → s.main ≡ MainPc.joining
    → s.dummy ≡ true
    → Inv s
    → s.thread ≡ pc
    → (pc ≡ ThreadPc.finished)
      ⊎ ((t : System) × (thread_move pc n s ≡ some t) × (steps_left t.thread < steps_left pc))
unfolding thread_move
progress_at ThreadPc.top n s m d v e = inr (_, refl, ground arith)
progress_at ThreadPc.accepting n s m d v e = inr (
  record s {
    client_fd = some n;
    shut = false;
    backlog = s.backlog - 1;
    thread = ThreadPc.accepted;
  },
  ground arith,
  ground arith,
)
progress_at ThreadPc.accepted n s m d v e = inr (_, refl, ground arith)
progress_at ThreadPc.serving n s m d v e = inr (_, refl, ground arith)
progress_at ThreadPc.testing n s m d v e = inr (_, refl, ground arith)
progress_at ThreadPc.calling n s m d v e = inr (_, refl, ground arith)
progress_at ThreadPc.reading n s m d v e =
    inr (record s { thread = ThreadPc.closing }, ground arith, ground arith)
progress_at ThreadPc.answering n s m d v e = inr (_, refl, ground arith)
progress_at ThreadPc.closing n s m d v e = inr (_, refl, ground arith)
progress_at ThreadPc.closes n s m d v e = inr (_, refl, ground arith)
progress_at ThreadPc.resets n s m d v e = inr (_, refl, ground arith)
progress_at ThreadPc.finished n s m d v e = inl refl

-- The thread by itself, as long as it can take a step. `accept` gives `n`.
pub thread_run : ℕ → ℕ → System → System
thread_run zero n s = s
thread_run (suc fuel) n s = elim (thread_move s.thread n s) [
  | none ↦ s
  | some t ↦ thread_run fuel n t
]

pub main_kept :
    (pc : ThreadPc) (n : ℕ) (s t : System) → thread_move pc n s ≡ some t → t.main ≡ s.main
unfolding thread_move
main_kept ThreadPc.top n s t h = ground arith
main_kept ThreadPc.accepting n s t h = ground arith
main_kept ThreadPc.accepted n s t h = ground arith
main_kept ThreadPc.serving n s t h = ground arith
main_kept ThreadPc.testing n s t h = ground arith
main_kept ThreadPc.calling n s t h = ground arith
main_kept ThreadPc.reading n s t h = ground arith
main_kept ThreadPc.answering n s t h = ground arith
main_kept ThreadPc.closing n s t h = ground arith
main_kept ThreadPc.closes n s t h = ground arith
main_kept ThreadPc.resets n s t h = ground arith
main_kept ThreadPc.finished n s t h = ground arith

finished_stays :
    (fuel n : ℕ) (s : System)
    → s.thread ≡ ThreadPc.finished
    → (thread_run (suc fuel) n s).thread ≡ ThreadPc.finished
unfolding thread_run thread_move
finished_stays fuel n s e = ground arith

thread_run_lem :
    {running : Bool} (fuel n : ℕ) (s : System)
    → 0 < n
    → Reach running true s
    → s.main ≡ MainPc.joining
    → steps_left s.thread ≤ fuel
    → (thread_run fuel n s).thread ≡ ThreadPc.finished
unfolding thread_run
thread_run_lem zero n s p r m le =
    elim (progress_at s.thread n s m (Reach-dummy r) (Reach-Inv r) refl) [
      | inl e ↦ e
      | inr (t, h, lt) ↦ absurd (omega arith)
    ]
thread_run_lem (suc fuel) n s p r m le =
    elim (progress_at s.thread n s m (Reach-dummy r) (Reach-Inv r) refl) [
      | inl e ↦ finished_stays fuel n s e
      | inr (t, h, lt) ↦
          rw (h, thread_run)
            (thread_run_lem fuel n t p (next r (thread_step n p h)) (main_kept s.thread n s t h ∙ m)
              (omega arith))
    ]

pub steps_left-le : (pc : ThreadPc) → steps_left pc ≤ 8
steps_left-le ThreadPc.top = omega arith
steps_left-le ThreadPc.accepting = omega arith
steps_left-le ThreadPc.accepted = omega arith
steps_left-le ThreadPc.serving = omega arith
steps_left-le ThreadPc.testing = omega arith
steps_left-le ThreadPc.calling = omega arith
steps_left-le ThreadPc.reading = omega arith
steps_left-le ThreadPc.answering = omega arith
steps_left-le ThreadPc.closing = omega arith
steps_left-le ThreadPc.closes = omega arith
steps_left-le ThreadPc.resets = omega arith
steps_left-le ThreadPc.finished = omega arith

pub finished_done :
    (n : ℕ) (s : System) {t : System}
    → s.thread ≡ ThreadPc.finished
    → ¬ (thread_move s.thread n s ≡ some t)
unfolding thread_move
finished_done n s e h = ground arith

-- When `main` waits in its last `join`, having connected to its own server, then whatever happened
-- before, in any order, the client thread is not blocked: it is finished, or takes a step by itself;
-- and eight steps by itself finish it, so that `join` returns.
pub join_returns :
    {running : Bool} {s : System} (n : ℕ)
    → 0 < n
    → Reach running true s
    → s.main ≡ MainPc.joining
    → Progresses n s × ((thread_run 8 n s).thread ≡ ThreadPc.finished)
join_returns {s} n p r m = (
  progress_at s.thread n s m (Reach-dummy r) (Reach-Inv r) refl,
  thread_run_lem 8 n s p r m (steps_left-le s.thread),
)
