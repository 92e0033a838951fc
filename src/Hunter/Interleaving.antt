-- ===== src/Hunter/Interleaving.antt =====
-- packet_hunter/src/main.cpp: the map while the receiver works beside the main loop.
use hut_karish.Prelude.{arith, ◌&&◌, List, [], ◌∷◌, Bool-cases, inl, inr}
use hut_karish.Receiver.{Round as Reception}
use hut_karish.Hunter.Client.{UnixSocketClient}
use hut_karish.Hunter.Loop.{Round, Inv, main_round-Inv}
use hut_karish.Hunter.Threads.{
  Hunt, Event, receives, loops, receiver_step, loop_step, step, run_threads, started,
}

receiver_step-Inv : (r : Reception) (t : Hunt) → Inv t.hunter → Inv (receiver_step r t).hunter
unfolding receiver_step
receiver_step-Inv r t v = elim (Bool-cases (t.listening && r.running)) [
  | inl h ↦ rw h (record { unique = v.unique; known = v.known })
  | inr h ↦ rw h v
]

loop_step-Inv :
    (c : UnixSocketClient) (r : Round) (t : Hunt) → Inv t.hunter → Inv (loop_step c r t).hunter
unfolding loop_step
loop_step-Inv c r t v = elim (Bool-cases (t.looping && r.running)) [
  | inl h ↦ rw h (main_round-Inv c r t.hunter v)
  | inr h ↦ rw h v
]

step-Inv : (c : UnixSocketClient) (ev : Event) (t : Hunt) → Inv t.hunter → Inv (step c ev t).hunter
step-Inv c (receives r) t v = receiver_step-Inv r t v
step-Inv c (loops r) t v = loop_step-Inv c r t v

threads-Inv :
    (c : UnixSocketClient) (evs : List Event) (t : Hunt)
    → Inv t.hunter
    → Inv (run_threads c evs t).hunter
unfolding run_threads
threads-Inv c [] t v = v
threads-Inv c (ev ∷ evs) t v = threads-Inv c evs (step c ev t) (step-Inv c ev t v)

-- However the receiver and the main loop of the packet hunter interleave, whatever is received and
-- whatever the daemon answers, no two packets of the map agree in addresses, ports and protocol, and
-- none is filed under the pid -1.
pub run_threads-Inv :
    (c : UnixSocketClient) (evs : List Event) → Inv (run_threads c evs started).hunter
run_threads-Inv c evs =
    threads-Inv c evs started (record { unique = λ new. ground arith; known = tt })
