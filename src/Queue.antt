-- ===== src/Queue.antt =====
-- shared/message_queue/MessageQueue.{h,cpp}. Every method holds the mutex to its end, so what threads
-- see is a sequence of whole operations.
use hut_karish.Prelude.{
  ◌≡◌, ◌↔◌, sym, ◌∙◌, ap, Bool, true, false, List, [], ◌∷◌, ◌++◌, append-nil, append_assoc, Option,
  none, some, arith,
}

pub record MessageQueue {ℓ} (A : Type ℓ) : Type ℓ where
  pub queue : List A

module _ {ℓ} {A : Type ℓ} where
  abbrev pub new : MessageQueue A
  new = record { queue = [] }

  unfoldable pub push : A → MessageQueue A → MessageQueue A
  push pckt q = record { queue = q.queue ++ pckt ∷ [] }

  unfoldable pub pop_front : List A → Option A × MessageQueue A
  pop_front [] = (none, record { queue = [] })
  pop_front (pckt ∷ rest) = (some pckt, record { queue = rest })

  -- `none` is nullptr.
  unfoldable pub pop : MessageQueue A → Option A × MessageQueue A
  unfolding pop_front
  pop q = pop_front q.queue

  unfoldable pub empty : MessageQueue A → Bool
  empty q = elim q.queue [ [] ↦ true | _ ↦ false ]

  -- `pop` gives nullptr exactly when `empty` says so, and then changes nothing.
  pub pop-empty : (q : MessageQueue A) → ((pop q).0 ≡ none) ↔ (empty q ≡ true)
  unfolding pop empty
  pop-empty q = ground arith

-- The operations of the receiver and of the main loop, in the order in which they got the mutex.
pub data Op {ℓ} (A : Type ℓ) : Type ℓ where
  pushes : A → Op A
  pops : Op A

module _ {ℓ} {A : Type ℓ} where
  abbrev to_list : Option A → List A
  to_list none = []
  to_list (some a) = a ∷ []

  -- The queue at the end, and what was popped, in order.
  pub run : List (Op A) → MessageQueue A → List A × MessageQueue A
  run [] q = ([], q)
  run (pushes a ∷ ops) q = run ops (push a q)
  run (pops ∷ ops) q =
      let (a, q') = pop q in let (popped, q'') = run ops q' in (to_list a ++ popped, q'')

  abbrev pub pushed : List (Op A) → List A
  pushed [] = []
  pushed (pushes a ∷ ops) = a ∷ pushed ops
  pushed (pops ∷ ops) = pushed ops

  pop_lem : (q : MessageQueue A) → to_list (pop q).0 ++ (pop q).1.queue ≡ q.queue
  unfolding pop
  pop_lem q = ground arith

  -- For every sequence of pushes and pops, whichever threads they come from, what was popped, in
  -- order, and then what is left in the queue, is what was there and then what was pushed, in
  -- order: nothing is lost, made up, repeated or reordered.
  pub run_fifo :
      (ops : List (Op A)) (q : MessageQueue A)
      → (run ops q).0 ++ (run ops q).1.queue ≡ q.queue ++ pushed ops
  unfolding run
  run_fifo [] q = sym (append-nil q.queue)
  run_fifo (pushes a ∷ ops) q =
      run_fifo ops (push a q) ∙ (unfold push in append_assoc q.queue (a ∷ []) (pushed ops))
  run_fifo (pops ∷ ops) q =
      append_assoc (to_list (pop q).0) _ _
      ∙ ap (◌++◌ (to_list (pop q).0)) (run_fifo ops (pop q).1)
      ∙ sym (append_assoc (to_list (pop q).0) _ _)
      ∙ ap (λ l. l ++ pushed ops) (pop_lem q)
