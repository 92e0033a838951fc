-- ===== src/NetLink/Socket.antt =====
-- NetLinkClient.cpp: the constructor and the destructor.
use hut_karish.Prelude.{
  ℕ, ◌≡◌, refl, Bool, true, List, ◌∷◌, Option, none, some, arith, if◌then◌else◌,
}
use hut_karish.Prelude.Int.{ℤ, pos, minus_one, eq_ℤ, is_negative}
use hut_karish.Sockets.{close, close-open}

-- The client and the descriptors that its process has open.
pub record NetLinkClient : Type 0 where
  pub sock_fd : ℤ
  pub open_fds : List ℕ

-- The constructor: what `socket` gives, none for a failure, and whether `bind` succeeds.
unfoldable pub netlink_client : Option ℕ → Bool → List ℕ → NetLinkClient
netlink_client none binds fds = record { sock_fd = minus_one; open_fds = fds }
netlink_client (some n) binds fds =
    if binds
    then record { sock_fd = pos n; open_fds = n ∷ fds }
    else record { sock_fd = minus_one; open_fds = close (pos n) (n ∷ fds) }

-- The destructor.
unfoldable pub destroy : NetLinkClient → NetLinkClient
destroy c =
    if eq_ℤ c.sock_fd minus_one
    then c
    else record { sock_fd = minus_one; open_fds = close c.sock_fd c.open_fds }

-- Whatever the system answers, a netlink client that was made and destroyed leaves the descriptors
-- that were open before; and if its constructor leaves it without a socket, it has left no
-- descriptor open.
pub destroy-netlink_client :
    (made : Option ℕ) (binds : Bool) (fds : List ℕ)
    → ((destroy (netlink_client made binds fds)).open_fds ≡ fds)
      × ((is_negative (netlink_client made binds fds).sock_fd ≡ true)
          → (netlink_client made binds fds).open_fds ≡ fds)
unfolding netlink_client destroy
destroy-netlink_client none binds fds = (refl, λ h. refl)
destroy-netlink_client (some n) binds fds = ground (arith, close-open n fds)
