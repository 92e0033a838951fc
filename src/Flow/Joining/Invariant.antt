-- ===== src/Flow/Joining/Invariant.antt =====
-- What holds while `main` and its receiver thread run.
use hut_karish.Prelude.{
  ℕ, suc, ◌≤◌, ◌<◌, ◌≡◌, ◌≢◌, refl, sym, ◌∙◌, subst, ◌⊎◌, inl, inr, false, List, [], ◌∷◌, some,
  some-inj, Bool-cases, length, drop, arith,
}
use hut_karish.Packet.{PcktInfo, is_stop}
use hut_karish.Kernel.State.{Kernel}
use hut_karish.Kernel.Clients.{Client}
use hut_karish.Kernel.Hook.{Report}
use hut_karish.Flow.Watch.{inbox, Watching}
use hut_karish.Flow.Joining.{ListenerPc, MainPc, System, waiting, receive, listener_move}
use hut_karish.Flow.Joining.Waiting.{until_stop, to_come, drop_one}

-- Until the unsubscription the client is subscribed.
abbrev pub Served : Client → ℕ → MainPc → Kernel → Type 0
Served c d MainPc.looping k = (rs : List Report) × Watching c d rs k
Served c d MainPc.unsubscribing k = (rs : List Report) × Watching c d rs k
Served c d _ k = Unit {0}

-- In `join` the thread has ended, or an order to stop waits for it; after `join` it has ended.
abbrev pub Comes : ℕ → MainPc → ℕ → Kernel → ListenerPc → Type 0
Comes d MainPc.joining n k l = (l ≡ ListenerPc.ended) ⊎ (0 < to_come d n k)
Comes d MainPc.joined n k l = l ≡ ListenerPc.ended
Comes d _ n k l = Unit {0}

pub record Inv (c : Client) (d : ℕ) (s : System) : Type 0 where
  pub served : Served c d s.main s.kernel
  pub within : s.taken ≤ length (inbox d s.kernel.sent)
  pub comes : Comes d s.main s.taken s.kernel s.listener

-- The thread is not at its end, and an order to stop waits still.
pub Comes-on :
    (d : ℕ) (pc : MainPc) (n n' : ℕ) (k : Kernel) (l l' : ListenerPc)
    → l ≢ ListenerPc.ended
    → (0 < to_come d n k → 0 < to_come d n' k)
    → Comes d pc n k l
    → Comes d pc n' k l'
Comes-on d MainPc.joining n n' k l l' on f (inl e) = absurd (on e)
Comes-on d MainPc.joining n n' k l l' on f (inr p) = inr (f p)
Comes-on d MainPc.joined n n' k l l' on f v = absurd (on v)
Comes-on d MainPc.looping n n' k l l' on f v = tt
Comes-on d MainPc.unsubscribing n n' k l l' on f v = tt
Comes-on d MainPc.terminated n n' k l l' on f v = tt

Comes-ended : (d : ℕ) (pc : MainPc) (n : ℕ) (k : Kernel) → Comes d pc n k ListenerPc.ended
Comes-ended d MainPc.joining n k = inl refl
Comes-ended d MainPc.joined n k = refl
Comes-ended d MainPc.looping n k = tt
Comes-ended d MainPc.unsubscribing n k = tt
Comes-ended d MainPc.terminated n k = tt

not_testing : ListenerPc.testing ≢ ListenerPc.ended
not_testing h = ground arith

pub not_receiving : ListenerPc.receiving ≢ ListenerPc.ended
not_receiving h = ground arith

module _ (c : Client) (d : ℕ) where
  -- The first message is taken.
  received-Inv :
      (s t : System) (ms : List PcktInfo)
      → s.listener ≡ ListenerPc.receiving
      → waiting d s ≡ ms
      → receive ms s ≡ some t
      → Inv c d s
      → Inv c d t
  received-Inv s t [] l e h v = cc
  received-Inv s t (m ∷ ms) l e h v =
      let (rest, le) = drop_one s.taken (inbox d s.kernel.sent) ms m e in
      elim (Bool-cases (is_stop m)) [
        | inl f ↦ subst (Inv c d) (some-inj (rw f at h)) (record {
          served = v.served;
          within = le;
          comes = Comes-ended d s.main (suc s.taken) s.kernel;
        })
        | inr f ↦ subst (Inv c d) (some-inj (rw f at h)) (record {
          served = v.served;
          within = le;
          comes =
              Comes-on d s.main s.taken (suc s.taken) s.kernel s.listener ListenerPc.testing
                (λ x. not_receiving (sym l ∙ x))
                (λ p. later_stop m ms (inbox d s.kernel.sent) s.taken f e rest p) v.comes;
        })
      ]
    where
      later_stop :
          (m : PcktInfo) (ms l : List PcktInfo) (n : ℕ)
          → is_stop m ≡ false
          → drop n l ≡ m ∷ ms
          → drop (suc n) l ≡ ms
          → 0 < until_stop (drop n l)
          → 0 < until_stop (drop (suc n) l)
      later_stop m ms l n f e r p =
          subst (λ x. 0 < until_stop x) (sym r)
            (let q : 0 < until_stop (m ∷ ms) = subst (λ x. 0 < until_stop x) e p in ground arith)

  pub listener_move-Inv :
      (pc : ListenerPc) (s t : System)
      → s.listener ≡ pc
      → listener_move d pc s ≡ some t
      → Inv c d s
      → Inv c d t
  unfolding listener_move
  listener_move-Inv ListenerPc.testing s t l h v = subst (Inv c d) (some-inj h) (record {
    served = v.served;
    within = v.within;
    comes =
        Comes-on d s.main s.taken s.taken s.kernel s.listener _ (λ x. not_testing (sym l ∙ x))
          (λ p. p) v.comes;
  })
  listener_move-Inv ListenerPc.receiving s t l h v = received-Inv s t (waiting d s) l refl h v
  listener_move-Inv ListenerPc.ended s t l h v = cc
