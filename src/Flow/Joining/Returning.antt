-- ===== src/Flow/Joining/Returning.antt =====
-- The `join` on the receiver thread returns.
use hut_karish.Prelude.{
  ℕ, zero, suc, ◌+◌, ◌≤◌, ◌<◌, ◌≡◌, ◌≢◌, refl, ap, ◌∙◌, subst, ◌⊎◌, inl, inr, Bool, true, false,
  List, [], ◌∷◌, none, some, Bool-cases, arith, if◌then◌else◌,
}
use hut_karish.Packet.{PcktInfo, is_stop}
use hut_karish.Kernel.State.{Env}
use hut_karish.Kernel.Clients.{Client}
use hut_karish.Kernel.Delivery.{IsWorking}
use hut_karish.Flow.Watch.{inbox}
use hut_karish.Flow.Joining.{
  ListenerPc, MainPc, System, waiting, takes, receive, listener_move, listens, Reach, next,
}
use hut_karish.Flow.Joining.Waiting.{until_stop, to_come, drop_one}
use hut_karish.Flow.Joining.Invariant.{Comes}
use hut_karish.Flow.Joining.Steps.{Reach-Inv}

-- How many steps the thread may still take, with `n` messages to the order to stop.
abbrev pub steps_at : ListenerPc → ℕ → ℕ
steps_at ListenerPc.ended n = 0
steps_at ListenerPc.receiving n = n + n
steps_at ListenerPc.testing n = n + n + 1

abbrev pub steps_left : ℕ → System → ℕ
steps_left d s = steps_at s.listener (to_come d s.taken s.kernel)

-- The thread has ended, or takes a step by itself and then has fewer left.
abbrev pub Progresses : ℕ → System → Type 0
Progresses d s =
    (s.listener ≡ ListenerPc.ended)
    ⊎ ((t : System) × (listener_move d s.listener s ≡ some t) × (steps_left d t < steps_left d s))

stop_first : (m : PcktInfo) (ms : List PcktInfo) → is_stop m ≡ true → until_stop (m ∷ ms) ≡ 1
stop_first m ms f = ground arith

stop_later :
    (m : PcktInfo) (ms : List PcktInfo)
    → is_stop m ≡ false
    → 0 < until_stop (m ∷ ms)
    → until_stop (m ∷ ms) ≡ suc (until_stop ms)
stop_later m ms f p = ground arith

receives :
    (d : ℕ) (s : System) (ms : List PcktInfo)
    → waiting d s ≡ ms
    → 0 < until_stop ms
    → (t : System) × (receive ms s ≡ some t)
      × (steps_left d t < until_stop ms + until_stop ms)
      × (t.main ≡ s.main)
receives d s [] e p = absurd (omega arith)
receives d s (m ∷ ms) e p =
    let (rest, le) = drop_one s.taken (inbox d s.kernel.sent) ms m e in
    elim (Bool-cases (is_stop m)) [
      | inl f ↦
          (takes true m s, ap (λ b. some (takes b m s)) f, omega (arith, stop_first m ms f), refl)
      | inr f ↦ (
        takes false m s,
        ap (λ b. some (takes b m s)) f,
        omega (arith, stop_later m ms f p, ap until_stop rest),
        refl,
      )
    ]

pub progress_at :
    (d : ℕ) (l : ListenerPc) (s : System)
    → s.listener ≡ l
    → (l ≡ ListenerPc.ended) ⊎ (0 < to_come d s.taken s.kernel)
    → (l ≡ ListenerPc.ended)
      ⊎ ((t : System) × (listener_move d l s ≡ some t)
          × (steps_left d t < steps_at l (to_come d s.taken s.kernel))
          × (t.main ≡ s.main))
unfolding listener_move
progress_at d ListenerPc.ended s l v = inl refl
progress_at d l s e (inl v) = inl v
progress_at d ListenerPc.testing s e (inr p) = inr (_, refl, tested s.running, refl)
  where
    tested :
        (b : Bool)
        → steps_at
            (if b then ListenerPc.receiving else ListenerPc.ended)
            (to_come d s.taken s.kernel)
          < steps_at ListenerPc.testing (to_come d s.taken s.kernel)
    tested true = omega arith
    tested false = omega arith
progress_at d ListenerPc.receiving s e (inr p) = inr (receives d s (waiting d s) refl p)

-- The thread by itself, as long as it can take a step.
pub listener_run : ℕ → ℕ → System → System
listener_run d zero s = s
listener_run d (suc fuel) s = elim (listener_move d s.listener s) [
  | none ↦ s
  | some t ↦ listener_run d fuel t
]

ended_stays :
    (d fuel : ℕ) (s : System)
    → s.listener ≡ ListenerPc.ended
    → (listener_run d (suc fuel) s).listener ≡ ListenerPc.ended
unfolding listener_run listener_move
ended_stays d fuel s l = ground arith

module _ (e : Env) (w : IsWorking e) (c : Client) (d : ℕ) (d_set : d ≢ 0) where
  pub joining-Comes :
      {s : System}
      → Reach e c d s
      → s.main ≡ MainPc.joining
      → (s.listener ≡ ListenerPc.ended) ⊎ (0 < to_come d s.taken s.kernel)
  joining-Comes {s} r m =
      let comes : Comes d MainPc.joining s.taken s.kernel s.listener =
        subst (λ pc. Comes d pc s.taken s.kernel s.listener) m (Reach-Inv e w c d d_set r).comes in
      comes

  listener_run_lem :
      (fuel : ℕ) (s : System)
      → Reach e c d s
      → s.main ≡ MainPc.joining
      → steps_left d s ≤ fuel
      → (listener_run d fuel s).listener ≡ ListenerPc.ended
  unfolding listener_run
  listener_run_lem zero s r m le = elim (progress_at d s.listener s refl (joining-Comes r m)) [
    | inl l ↦ l
    | inr (t, h, lt, same) ↦ absurd (omega arith)
  ]
  listener_run_lem (suc fuel) s r m le =
      elim (progress_at d s.listener s refl (joining-Comes r m)) [
        | inl l ↦ ended_stays d fuel s l
        | inr (t, h, lt, same) ↦
            rw (h, listener_run)
              (listener_run_lem fuel t (next r (listens h)) (same ∙ m) (omega arith))
      ]

  -- While all services work: a client, the daemon or the packet hunter, is subscribed as its receiver
  -- thread starts, and whatever comes in any order - packets, commands of other processes but for the
  -- client's unsubscription, a signal, a `recv` that fails, in the packet hunter a query that fails -
  -- when `main` has sent its unsubscription and waits in `join`, the thread is not blocked: it has
  -- ended, or takes a step by itself. By itself it ends, after two steps for each message up to the
  -- order to stop and one more at most, so that `join` returns.
  pub listener_joins :
      {s : System}
      → Reach e c d s
      → s.main ≡ MainPc.joining
      → Progresses d s
        × ((listener_run d (to_come d s.taken s.kernel + to_come d s.taken s.kernel + 1) s).listener
            ≡ ListenerPc.ended)
  listener_joins {s} r m = (
    elim (progress_at d s.listener s refl (joining-Comes r m)) [
      | inl l ↦ inl l
      | inr (t, h, lt, same) ↦ inr (t, h, lt)
    ],
    listener_run_lem _ s r m (most s.listener (to_come d s.taken s.kernel)),
  )
    where
      most : (l : ListenerPc) (n : ℕ) → steps_at l n ≤ n + n + 1
      most ListenerPc.testing n = omega arith
      most ListenerPc.receiving n = omega arith
      most ListenerPc.ended n = omega arith
