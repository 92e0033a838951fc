-- ===== src/Flow/Joining/Steps.antt =====
-- Every step keeps what holds while `main` and its receiver thread run.
use hut_karish.Prelude.{
  ℕ, ◌≤◌, ◌<◌, ◌≡◌, ◌≢◌, refl, sym, ◌∙◌, subst, inl, inr, [], ◌++◌, Option, none, some, some-inj,
  >>=-eq-some, Bool-cases, Returns-at, length, arith,
}
use hut_karish.Kernel.State.{Env, Kernel}
use hut_karish.Kernel.Clients.{Client, unsubscribe_of}
use hut_karish.Kernel.Commands.{nl_recv_msg}
use hut_karish.Kernel.Delivery.{IsWorking}
use hut_karish.Kernel.Stop.{says, StopSent}
use hut_karish.Kernel.Growing.{Grows, step-Grows}
use hut_karish.Kernel.Run
use hut_karish.Kernel.Run.{Event}
use hut_karish.Flow.Watch.{inbox, step-Watching, report_of}
use hut_karish.Flow.Session.{stops_client}
use hut_karish.Flow.Joining.{
  ListenerPc, MainPc, System, main_move, IsAllowed, Step, listens, mains, stops, breaks, unsent,
  fails, happens, Reach, start, next,
}
use hut_karish.Flow.Joining.Waiting.{Grows-length, Grows-to_come, StopSent-to_come}
use hut_karish.Flow.Joining.Invariant.{
  Served, Comes, Inv, Comes-on, not_receiving, listener_move-Inv,
}

module _ (e : Env) (w : IsWorking e) (c : Client) (d : ℕ) (d_set : d ≢ 0) where
  -- The unsubscription: the order to stop comes.
  unsubscribed-Inv :
      (s : System) (k : Kernel)
      → s.main ≡ MainPc.unsubscribing
      → nl_recv_msg e (says d (unsubscribe_of c)) s.kernel ≡ some k
      → Inv c d s
      → Inv c d (record s { kernel = k; main = MainPc.joining })
  unsubscribed-Inv s k m h v =
      let served : Served c d MainPc.unsubscribing s.kernel =
        subst (λ pc. Served c d pc s.kernel) m v.served in
      let (rs, watching) = served in
      let sent = Returns-at _ _ k h (stops_client e w c d s.kernel) in
      let (comes, within) =
        StopSent-to_come d s.taken s.kernel k (subst (λ p. StopSent p s.kernel k) watching.pid sent)
          v.within in
      record { served = tt; within = within; comes = inr comes }

  main_move-Inv :
      (pc : MainPc) (s t : System)
      → s.main ≡ pc
      → main_move e c d pc s ≡ some t
      → Inv c d s
      → Inv c d t
  unfolding main_move
  main_move-Inv MainPc.looping s t m h v =
      let served : Served c d MainPc.looping s.kernel =
        subst (λ pc. Served c d pc s.kernel) m v.served in
      elim (Bool-cases s.running) [
        | inl f ↦
            subst (Inv c d) (some-inj (rw f at h))
              (record { served = served; within = v.within; comes = tt })
        | inr f ↦
            subst (Inv c d) (some-inj (rw f at h))
              (record { served = served; within = v.within; comes = tt })
      ]
  main_move-Inv MainPc.unsubscribing s t m h v =
      let (k, sends, same) =
        >>=-eq-some (nl_recv_msg e (says d (unsubscribe_of c)) s.kernel)
          (λ k. some (record s { kernel = k; main = MainPc.joining })) t h in
      subst (Inv c d) (some-inj same) (unsubscribed-Inv s k m sends v)
  main_move-Inv MainPc.joining s t m h v = joins s.listener refl h
    where
      joins :
          (l : ListenerPc)
          → s.listener ≡ l
          → (elim l as (λ _. Option System) [
            | ListenerPc.ended ↦ some (record s { main = MainPc.joined })
            | _ ↦ none
          ])
            ≡ some t
          → Inv c d t
      joins ListenerPc.testing l h = cc
      joins ListenerPc.receiving l h = cc
      joins ListenerPc.ended l h =
          subst (Inv c d) (some-inj h) (record { served = tt; within = v.within; comes = l })
  main_move-Inv MainPc.joined s t m h v = cc
  main_move-Inv MainPc.terminated s t m h v = cc

  Served-step :
      (pc : MainPc) (ev : Event) (k k' : Kernel)
      → IsAllowed c d pc ev
      → Run.step e ev k ≡ some k'
      → Served c d pc k
      → Served c d pc k'
  Served-step MainPc.looping ev k k' q h (rs, v) =
      (rs ++ report_of e ev, Returns-at _ _ k' h (step-Watching e w d d_set c ev rs k q v))
  Served-step MainPc.unsubscribing ev k k' q h (rs, v) =
      (rs ++ report_of e ev, Returns-at _ _ k' h (step-Watching e w d d_set c ev rs k q v))
  Served-step MainPc.joining ev k k' q h v = tt
  Served-step MainPc.joined ev k k' q h v = tt
  Served-step MainPc.terminated ev k k' q h v = tt

  Comes-Grows :
      (pc : MainPc) (n : ℕ) (k k' : Kernel) (l : ListenerPc)
      → Grows k k'
      → n ≤ length (inbox d k.sent)
      → Comes d pc n k l
      → Comes d pc n k' l
  Comes-Grows MainPc.joining n k k' l g le (inl x) = inl x
  Comes-Grows MainPc.joining n k k' l g le (inr p) =
      inr (subst (λ m. 0 < m) (sym (Grows-to_come d n k k' g le p)) p)
  Comes-Grows MainPc.joined n k k' l g le v = v
  Comes-Grows MainPc.looping n k k' l g le v = tt
  Comes-Grows MainPc.unsubscribing n k k' l g le v = tt
  Comes-Grows MainPc.terminated n k k' l g le v = tt

  Step-Inv : {s t : System} → Step e c d s t → Inv c d s → Inv c d t
  Step-Inv {s} {t} (listens h) v = listener_move-Inv c d s.listener s t refl h v
  Step-Inv {s} {t} (mains h) v = main_move-Inv s.main s t refl h v
  Step-Inv stops v = record { served = v.served; within = v.within; comes = v.comes }
  Step-Inv {s} (breaks h m) v = record {
    served =
        (let served : Served c d MainPc.looping s.kernel =
            subst (λ pc. Served c d pc s.kernel) m v.served in
          served);
    within = v.within;
    comes = tt;
  }
  Step-Inv (unsent m) v = record { served = tt; within = v.within; comes = tt }
  Step-Inv {s} (fails l) v = record {
    served = v.served;
    within = v.within;
    comes =
        Comes-on d s.main s.taken s.taken s.kernel s.listener ListenerPc.testing
          (λ x. not_receiving (sym l ∙ x)) (λ p. p) v.comes;
  }
  Step-Inv {s} (happens ev {k} q h) v =
      let g = Returns-at _ _ k h (step-Grows e w ev s.kernel) in
      record {
        served = Served-step s.main ev s.kernel k q h v.served;
        within = Grows-length d s.taken s.kernel k g v.within;
        comes = Comes-Grows s.main s.taken s.kernel k s.listener g v.within v.comes;
      }

  pub Reach-Inv : {s : System} → Reach e c d s → Inv c d s
  Reach-Inv (start running k v) = record { served = ([], v); within = omega arith; comes = tt }
  Reach-Inv (next r st) = Step-Inv st (Reach-Inv r)
