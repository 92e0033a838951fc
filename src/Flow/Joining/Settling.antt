-- ===== src/Flow/Joining/Settling.antt =====
-- What follows while `main` waits for its receiver thread.
use hut_karish.Prelude.{
  ℕ, ◌+◌, ◌≤◌, ◌≡◌, ◌≢◌, refl, ap, sym, ◌∙◌, subst, ◌⊎◌, inl, inr, some, some-inj, Returns-at,
  arith,
}
use hut_karish.Kernel.State.{Env, Kernel}
use hut_karish.Kernel.Clients.{Client}
use hut_karish.Kernel.Delivery.{IsWorking}
use hut_karish.Kernel.Growing.{step-Grows}
use hut_karish.Flow.Joining.{
  ListenerPc, MainPc, System, listener_move, main_move, Step, listens, mains, stops, breaks, unsent,
  fails, happens, Reach, next,
}
use hut_karish.Flow.Joining.Waiting.{to_come, Grows-to_come}
use hut_karish.Flow.Joining.Steps.{Reach-Inv}
use hut_karish.Flow.Joining.Returning.{steps_at, steps_left, progress_at, joining-Comes}

-- `main` waits for the thread, or went on when it had ended.
abbrev pub Joins : System → Type 0
Joins s = (s.main ≡ MainPc.joining) ⊎ ((s.main ≡ MainPc.joined) × (s.listener ≡ ListenerPc.ended))

module _ (e : Env) (c : Client) (d : ℕ) where
  -- The steps that the thread takes by itself, and the times that `recv` fails.
  abbrev pub work : {s t : System} → Step e c d s t → ℕ
  work (listens h) = 1
  work _ = 0

  abbrev pub failures : {s t : System} → Step e c d s t → ℕ
  failures (fails l) = 1
  failures _ = 0

  -- What follows on `s`, with the work of the thread and its failures.
  pub data Later (s : System) : ℕ → ℕ → System → Type 0 where
    now : Later s 0 0 s
    later :
        {n f : ℕ} {t u : System}
        → Later s n f t
        → (st : Step e c d t u) → Later s (n + work st) (f + failures st) u

  ended_done :
      (l : ListenerPc) (s t : System) → l ≡ ListenerPc.ended → ¬ (listener_move d l s ≡ some t)
  unfolding listener_move
  ended_done l s t x h = ground arith

  joined_done :
      (pc : MainPc) (s t : System) → pc ≡ MainPc.joined → ¬ (main_move e c d pc s ≡ some t)
  unfolding main_move
  joined_done pc s t x h = ground arith

  main_joins :
      (pc : MainPc) (s t : System)
      → pc ≡ MainPc.joining
      → main_move e c d pc s ≡ some t
      → (t.main ≡ MainPc.joined) × (t.listener ≡ ListenerPc.ended)
  unfolding main_move
  main_joins pc s t x h = ground arith

abbrev Spends : {e : Env} {c : Client} {d : ℕ} {s t : System} → Step e c d s t → Type 0
Spends {e} {c} {d} {s} {t} st =
    Joins t × (work e c d st + steps_left d t ≤ steps_left d s + failures e c d st)

nothing_left : (d : ℕ) (s : System) → s.listener ≡ ListenerPc.ended → steps_left d s ≡ 0
nothing_left d s l = ap (λ x. steps_at x (to_come d s.taken s.kernel)) l

module _ (e : Env) (w : IsWorking e) (c : Client) (d : ℕ) (d_set : d ≢ 0) where
  same_left :
      (s : System) (k : Kernel)
      → (s.listener ≡ ListenerPc.ended) ⊎ (to_come d s.taken k ≡ to_come d s.taken s.kernel)
      → steps_at s.listener (to_come d s.taken k) ≡ steps_left d s
  same_left s k (inl l) = ap (λ x. steps_at x (to_come d s.taken k)) l ∙ sym (nothing_left d s l)
  same_left s k (inr same) = ap (steps_at s.listener) same

  joining_step :
      {s t : System} → Reach e c d s → s.main ≡ MainPc.joining → (st : Step e c d s t) → Spends st
  joining_step {s} {t} r m (listens h) =
      elim (progress_at d s.listener s refl (joining-Comes e w c d d_set r m)) [
        | inl l ↦ absurd (ended_done e c d s.listener s t l h)
        | inr (u, h', lt, same) ↦
            let one : u ≡ t = some-inj (sym h' ∙ h) in
            subst (λ x. Joins x × (1 + steps_left d x ≤ steps_left d s + 0)) one
              (inl (same ∙ m), omega arith)
      ]
  joining_step {s} {t} r m (mains h) =
      let (j, l) = main_joins e c d s.main s t m h in
      (inr (j, l), omega (arith, nothing_left d t l))
  joining_step r m stops = (inl m, omega arith)
  joining_step r m (breaks h l) = absurd (ground arith)
  joining_step r m (unsent l) = absurd (ground arith)
  joining_step {s} r m (fails l) =
      (inl m, omega (arith, ap (λ x. steps_at x (to_come d s.taken s.kernel)) l))
  joining_step {s} r m (happens ev {k} q h) =
      let g = Returns-at _ _ k h (step-Grows e w ev s.kernel) in
      let v = Reach-Inv e w c d d_set r in
      let same = same_left s k (elim (joining-Comes e w c d d_set r m) [
        | inl l ↦ inl l
        | inr p ↦ inr (Grows-to_come d s.taken s.kernel k g v.within p)
      ]) in
      (inl m, omega (arith, same))

  joined_step :
      {s t : System}
      → s.main ≡ MainPc.joined
      → s.listener ≡ ListenerPc.ended
      → (st : Step e c d s t) → Spends st
  joined_step {s} {t} j l (listens h) = absurd (ended_done e c d s.listener s t l h)
  joined_step {s} {t} j l (mains h) = absurd (joined_done e c d s.main s t j h)
  joined_step j l stops = (inr (j, l), omega arith)
  joined_step j l (breaks h x) = absurd (ground arith)
  joined_step j l (unsent x) = absurd (ground arith)
  joined_step j l (fails x) = absurd (ground arith)
  joined_step {s} j l (happens ev {k} q h) = (inr (j, l), omega (arith, same_left s k (inl l)))

  Step-Joins : {s t : System} → Reach e c d s → Joins s → (st : Step e c d s t) → Spends st
  Step-Joins r (inl m) st = joining_step r m st
  Step-Joins r (inr (j, l)) st = joined_step j l st

  Later-Joins :
      {s t : System} {n f : ℕ}
      → Reach e c d s
      → s.main ≡ MainPc.joining
      → Later e c d s n f t
      → Reach e c d t × Joins t × (n + steps_left d t ≤ steps_left d s + f)
  Later-Joins r m now = (r, inl m, omega arith)
  Later-Joins r m (later l st) =
      let (r', j, le) = Later-Joins r m l in
      let (j', le') = Step-Joins r' j st in (next r' st, j', omega arith)

  -- While all services work: a client is subscribed as its receiver thread starts, and whatever comes
  -- in any order, when `main` has sent the unsubscription and waits in `join`, then in whatever follows,
  -- in any order, the steps that the thread takes by itself and those that are left for it are together
  -- at most those that were left for it, and one for each time that `recv` fails; and `main` is still in
  -- `join`, or it went on and the thread has ended.
  pub listener_settles :
      {s t : System} {n f : ℕ}
      → Reach e c d s
      → s.main ≡ MainPc.joining
      → Later e c d s n f t
      → (n + steps_left d t ≤ steps_left d s + f)
        × ((t.main ≡ MainPc.joining) ⊎ ((t.main ≡ MainPc.joined) × (t.listener ≡ ListenerPc.ended)))
  listener_settles r m l = let (r', j, le) = Later-Joins r m l in (le, j)
