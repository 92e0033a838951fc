-- ===== src/Daemon/Shutdown/Settling.antt =====
-- What follows while `main` waits in its last `join`.
use hut_karish.Prelude.{
  ℕ, ◌+◌, ◌≤◌, ◌<◌, ◌≡◌, refl, subst, ◌∙◌, ◌⊎◌, inl, inr, Bool, true, some, arith,
}
use hut_karish.Daemon.Shutdown.{
  ThreadPc, MainPc, System, thread_move, main_move, Step, thread_step, main_step, signal, connects,
  requests, leaves, fails, Reach, next,
}
use hut_karish.Daemon.Shutdown.Invariant.{Reach-Inv, Reach-dummy}
use hut_karish.Daemon.Shutdown.Progress.{
  steps_left, main_kept, finished_done, progress_at, steps_left-le,
}

thread_loses :
    {running : Bool} {s t : System} (n : ℕ)
    → Reach running true s
    → s.main ≡ MainPc.joining
    → thread_move s.thread n s ≡ some t
    → steps_left t.thread < steps_left s.thread
thread_loses {s = s} {t = t} n r m h =
    elim (progress_at s.thread n s m (Reach-dummy r) (Reach-Inv r) refl) [
      | inl e ↦ absurd (finished_done n s e h)
      | inr (t', h', lt) ↦
          let same : t' ≡ t = cc (h, h') in
          subst (λ (u : System). steps_left u.thread < steps_left s.thread) same lt
    ]

main_joins :
    (pc : MainPc) (s t : System)
    → pc ≡ MainPc.joining
    → main_move pc s ≡ some t
    → (t.main ≡ MainPc.ended) × (t.thread ≡ ThreadPc.finished)
unfolding main_move
main_joins pc s t e h = ground arith

-- `main` waits in its last `join`, or it has ended and the thread is finished.
abbrev Joins : System → Type 0
Joins s = (s.main ≡ MainPc.joining) ⊎ ((s.main ≡ MainPc.ended) × (s.thread ≡ ThreadPc.finished))

-- The steps that the thread takes by itself, and its calls that return, are its work.
abbrev pub work : {s t : System} → Step s t → ℕ
work (thread_step n p h) = 1
work (main_step h) = 0
work signal = 0
work connects = 0
work (requests e) = 1
work (leaves e) = 1
work (fails e) = 1

-- What follows on `s`, with the work of the thread that it takes.
pub data Later (s : System) : ℕ → System → Type 0 where
  now : Later s 0 s
  later : {n : ℕ} {t u : System} → Later s n t → (st : Step t u) → Later s (n + work st) u

joining_step :
    {running : Bool} {s t : System}
    → Reach running true s
    → s.main ≡ MainPc.joining
    → (st : Step s t) → Joins t × (work st + steps_left t.thread ≤ steps_left s.thread)
joining_step {s} {t} r m (thread_step n p h) =
    let lt = thread_loses n r m h in (inl (main_kept s.thread n s t h ∙ m), omega arith)
joining_step {s} {t} r m (main_step h) =
    let e = main_joins s.main s t m h in (inr e, ground (arith, e.1))
joining_step r m signal = (inl m, omega arith)
joining_step r m connects = (inl m, omega arith)
joining_step r m (requests e) = (inl m, ground arith)
joining_step r m (leaves e) = (inl m, ground arith)
joining_step r m (fails e) = (inl m, ground arith)

ended_stays :
    (pc : MainPc) (s : System) {t : System} → pc ≡ MainPc.ended → ¬ (main_move pc s ≡ some t)
unfolding main_move
ended_stays pc s e h = ground arith

ended_step :
    {s t : System}
    → s.main ≡ MainPc.ended
    → s.thread ≡ ThreadPc.finished
    → (st : Step s t) → Joins t × (work st + steps_left t.thread ≤ steps_left s.thread)
ended_step {s} m f (thread_step n p h) = absurd (finished_done n s f h)
ended_step {s} m f (main_step h) = absurd (ended_stays s.main s m h)
ended_step m f signal = (inr (m, f), omega arith)
ended_step m f connects = (inr (m, f), omega arith)
ended_step m f (requests e) = absurd (ground arith)
ended_step m f (leaves e) = absurd (ground arith)
ended_step m f (fails e) = absurd (ground arith)

Step-Joins :
    {running : Bool} {s t : System}
    → Reach running true s
    → Joins s
    → (st : Step s t) → Joins t × (work st + steps_left t.thread ≤ steps_left s.thread)
Step-Joins r (inl m) st = joining_step r m st
Step-Joins r (inr (m, f)) st = ended_step m f st

Later-Joins :
    {running : Bool} {s t : System} {n : ℕ}
    → Reach running true s
    → s.main ≡ MainPc.joining
    → Later s n t
    → Reach running true t × Joins t × (n + steps_left t.thread ≤ steps_left s.thread)
Later-Joins r m now = (r, inl m, omega arith)
Later-Joins r m (later l st) =
    let (r', j, le) = Later-Joins r m l in
    let (j', le') = Step-Joins r' j st in (next r' st, j', omega arith)

-- When `main` waits in its last `join`, having connected to its own server, then in whatever follows,
-- in any order, the client thread takes at most eight steps, its calls that return counted, and what
-- is left for it after them only shrinks; and `main` is still in `join`, or it has ended and the
-- thread is finished.
pub join_settles :
    {running : Bool} {s t : System} {n : ℕ}
    → Reach running true s
    → s.main ≡ MainPc.joining
    → Later s n t
    → (n + steps_left t.thread ≤ 8)
      × ((t.main ≡ MainPc.joining) ⊎ ((t.main ≡ MainPc.ended) × (t.thread ≡ ThreadPc.finished)))
join_settles {s} r m l =
    let (r', j, le) = Later-Joins r m l in let most = steps_left-le s.thread in (omega arith, j)
