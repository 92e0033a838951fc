-- ===== src/Exit.antt =====
-- How the two programs end.
use hut_karish.Prelude.Int.{ℤ}

-- How `main` ends: it returns a code; the destructor of a thread that was not joined calls
-- std::terminate; SIGPIPE, which no program ignores, ends the process. Or it has not ended, and is in
-- its loop or waits in a join.
pub data Exit : Type 0 where
  returned : ℤ → Exit
  terminated by_signal still_runs : Exit
