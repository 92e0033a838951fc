-- ===== src/Sockets.antt =====
-- The descriptors that a process has open.
use hut_karish.Prelude.{ℕ, ◌≡◌, List, [], ◌∷◌, ◌==◌, if◌then◌else◌, ==_refl}
use hut_karish.Prelude.Int.{ℤ, pos, negsuc}

-- close(fd): a value that is no open descriptor is refused, with no effect.
unfoldable pub close_number : ℕ → List ℕ → List ℕ
close_number n [] = []
close_number n (m ∷ fds) = if m == n then fds else m ∷ close_number n fds

unfoldable pub close : ℤ → List ℕ → List ℕ
unfolding close_number
close (pos n) fds = close_number n fds
close (negsuc n) fds = fds

-- Closing the newest descriptor.
pub close-open : (n : ℕ) (fds : List ℕ) → close (pos n) (n ∷ fds) ≡ fds
unfolding close
close-open n fds = rw (==_refl n)
