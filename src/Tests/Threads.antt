-- ===== src/Tests/Threads.antt =====
-- What the threads of a client share, at concrete inputs.
use hut_karish.Prelude.{ℕ, ◌≡◌, ◌++◌, List, [], ◌∷◌}
use hut_karish.Queue
use hut_karish.Queue.{MessageQueue, Op, new, pushes, pops, pushed, run_fifo}

abbrev ops : List (Op ℕ)
ops = pushes 1 ∷ pops ∷ pops ∷ pushes 2 ∷ pushes 3 ∷ pops ∷ []

run_fifo_example : (Queue.run ops new).0 ++ (Queue.run ops new).1.queue ≡ 1 ∷ 2 ∷ 3 ∷ []
run_fifo_example = run_fifo ops new
