-- ===== src/Daemon/Daemonize.antt =====
-- daemon/src/main.cpp: daemonize, which the program does not call. What the system does with a process
-- is a parameter.
use hut_karish.Prelude.{
  ℕ, ◌≡◌, ◌≢◌, refl, sym, ◌∙◌, ◌⊎◌, inl, inr, Bool, true, false, List, [], ◌∷◌, Option, none, some,
  Option-cases, codes, any, arith,
}

-- A process `P` as the calls of daemonize leave it: fork gives the parent and the child.
pub record Posix (P : Type 0) : Type 0 where
  pub fork : P → Option (P × P)
  pub setsid : P → Option P
  pub chdir : List ℕ → P → P
  pub freopen : List ℕ → List ℕ → ℕ → P → P

-- exit, with a status, or a return from the function.
pub data Fate (P : Type 0) : Type 0 where
  exit_success exit_failure returns : P → Fate P

-- What one can see of a process.
pub record View (P : Type 0) : Type 0 where
  pub session : P → ℕ
  pub is_leader : P → Bool
  pub directory : P → List ℕ
  pub stream : ℕ → P → List ℕ

-- As POSIX has it: the child of a fork is in the session of its parent and does not lead it; setsid
-- gives a process another session; and chdir and freopen, which are taken to succeed here, change the
-- directory and the stream that they name and leave the rest alone.
pub record IsPosix {P : Type 0} (os : Posix P) (v : View P) : Type 0 where
  pub fork_session : (p q c : P) → os.fork p ≡ some (q, c) → v.session c ≡ v.session p
  pub fork_leader : (p q c : P) → os.fork p ≡ some (q, c) → v.is_leader c ≡ false
  pub setsid_session : (p q : P) → os.setsid p ≡ some q → v.session q ≢ v.session p
  pub chdir_session : (d : List ℕ) (p : P) → v.session (os.chdir d p) ≡ v.session p
  pub chdir_leader : (d : List ℕ) (p : P) → v.is_leader (os.chdir d p) ≡ v.is_leader p
  pub chdir_directory : (d : List ℕ) (p : P) → v.directory (os.chdir d p) ≡ d
  pub freopen_session :
      (f m : List ℕ) (n : ℕ) (p : P) → v.session (os.freopen f m n p) ≡ v.session p
  pub freopen_leader :
      (f m : List ℕ) (n : ℕ) (p : P) → v.is_leader (os.freopen f m n p) ≡ v.is_leader p
  pub freopen_directory :
      (f m : List ℕ) (n : ℕ) (p : P) → v.directory (os.freopen f m n p) ≡ v.directory p
  pub freopen_stream : (f m : List ℕ) (n : ℕ) (p : P) → v.stream n (os.freopen f m n p) ≡ f
  pub freopen_other :
      (f m : List ℕ) (n k : ℕ) (p : P) → n ≢ k → v.stream k (os.freopen f m n p) ≡ v.stream k p

module _ {P : Type 0} (os : Posix P) where
  -- From `chdir` on: the streams are stdin, stdout and stderr.
  unfoldable pub redirect : P → P
  redirect p = os.freopen (codes "/dev/null") (codes "w") 2 (
      os.freopen (codes "/dev/null") (codes "w") 1
        (os.freopen (codes "/dev/null") (codes "r") 0 (os.chdir (codes "/") p)))

  unfoldable pub second_fork : Option (P × P) → P → List (Fate P)
  unfolding redirect
  second_fork none p = exit_failure p ∷ []
  second_fork (some (parent, child)) p = exit_success parent ∷ returns (redirect child) ∷ []

  unfoldable pub new_session : Option P → P → List (Fate P)
  unfolding second_fork
  new_session none p = exit_failure p ∷ []
  new_session (some leader) p = second_fork (os.fork leader) leader

  unfoldable pub first_fork : Option (P × P) → P → List (Fate P)
  unfolding new_session
  first_fork none p = exit_failure p ∷ []
  first_fork (some (parent, child)) p = exit_success parent ∷ new_session (os.setsid child) child

  -- What becomes of the process and of those that it makes.
  unfoldable pub daemonize : P → List (Fate P)
  unfolding first_fork
  daemonize p = first_fork (os.fork p) p

module _ {P : Type 0} where
  abbrev pub returning : List (Fate P) → List P
  returning [] = []
  returning (exit_success p ∷ fs) = returning fs
  returning (exit_failure p ∷ fs) = returning fs
  returning (returns p ∷ fs) = p ∷ returning fs

  abbrev pub is_failure : Fate P → Bool
  is_failure (exit_failure p) = true
  is_failure _ = false

-- A process `q` that no terminal controls, unlike `p`, and that keeps nothing of where it was started.
pub record IsDetached {P : Type 0} (v : View P) (p q : P) : Type 0 where
  pub other_session : v.session q ≢ v.session p
  pub no_leader : v.is_leader q ≡ false
  pub at_root : v.directory q ≡ codes "/"
  pub stdin_null : v.stream 0 q ≡ codes "/dev/null"
  pub stdout_null : v.stream 1 q ≡ codes "/dev/null"
  pub stderr_null : v.stream 2 q ≡ codes "/dev/null"

module _ {P : Type 0} (os : Posix P) (v : View P) (posix : IsPosix os v) where
  redirect-IsDetached :
      (p q : P) → v.session q ≢ v.session p → v.is_leader q ≡ false → IsDetached v p (redirect os q)
  unfolding redirect
  redirect-IsDetached p q apart free =
      let a = os.chdir (codes "/") q in
      let b = os.freopen (codes "/dev/null") (codes "r") 0 a in
      let c = os.freopen (codes "/dev/null") (codes "w") 1 b in
      let same =
        posix.freopen_session (codes "/dev/null") (codes "w") 2 c
        ∙ posix.freopen_session (codes "/dev/null") (codes "w") 1 b
        ∙ posix.freopen_session (codes "/dev/null") (codes "r") 0 a
        ∙ posix.chdir_session (codes "/") q in
      record {
        other_session = λ e. apart (sym same ∙ e);
        no_leader =
            posix.freopen_leader (codes "/dev/null") (codes "w") 2 c
            ∙ posix.freopen_leader (codes "/dev/null") (codes "w") 1 b
            ∙ posix.freopen_leader (codes "/dev/null") (codes "r") 0 a
            ∙ posix.chdir_leader (codes "/") q
            ∙ free;
        at_root =
            posix.freopen_directory (codes "/dev/null") (codes "w") 2 c
            ∙ posix.freopen_directory (codes "/dev/null") (codes "w") 1 b
            ∙ posix.freopen_directory (codes "/dev/null") (codes "r") 0 a
            ∙ posix.chdir_directory (codes "/") q;
        stdin_null =
            posix.freopen_other (codes "/dev/null") (codes "w") 2 0 c (omega arith)
            ∙ posix.freopen_other (codes "/dev/null") (codes "w") 1 0 b (omega arith)
            ∙ posix.freopen_stream (codes "/dev/null") (codes "r") 0 a;
        stdout_null =
            posix.freopen_other (codes "/dev/null") (codes "w") 2 1 c (omega arith)
            ∙ posix.freopen_stream (codes "/dev/null") (codes "w") 1 b;
        stderr_null = posix.freopen_stream (codes "/dev/null") (codes "w") 2 c;
      }

  -- What the list of fates holds: one process goes on, or none does and one failed.
  abbrev pub IsDaemonized : P → List (Fate P) → Type 0
  IsDaemonized p fs =
      ((q : P) × (returning fs ≡ q ∷ []) × IsDetached v p q)
      ⊎ ((returning fs ≡ []) × (any is_failure fs ≡ true))

  second_fork-IsDaemonized :
      (p leader : P)
      → v.session leader ≢ v.session p
      → IsDaemonized p (second_fork os (os.fork leader) leader)
  unfolding second_fork
  second_fork-IsDaemonized p leader apart = elim (Option-cases (os.fork leader)) [
    | inl e ↦ rw e (inr (refl, refl))
    | inr ((parent, child), e) ↦ rw e (
        inl (
          redirect os child,
          refl,
          redirect-IsDetached p child
              (λ same. apart (sym (posix.fork_session leader parent child e) ∙ same))
              (posix.fork_leader leader parent child e),
        ))
  ]

  new_session-IsDaemonized :
      (p child : P)
      → v.session child ≡ v.session p
      → IsDaemonized p (new_session os (os.setsid child) child)
  unfolding new_session
  new_session-IsDaemonized p child same = elim (Option-cases (os.setsid child)) [
    | inl e ↦ rw e (inr (refl, refl))
    | inr (leader, e) ↦ rw e (
        second_fork-IsDaemonized p leader
          (λ stays. posix.setsid_session child leader e (stays ∙ sym same)))
  ]

  -- While fork, setsid, chdir and freopen do what POSIX says, and the last two succeed: of the process
  -- that calls daemonize and of those that come from it, either exactly one returns, which is in another
  -- session than the caller's and does not lead it, is in the root directory, and has /dev/null for its
  -- three standard streams; or none returns, and one has exited with EXIT_FAILURE.
  pub daemonize-IsDaemonized : (p : P) → IsDaemonized p (daemonize os p)
  unfolding daemonize first_fork
  daemonize-IsDaemonized p = elim (Option-cases (os.fork p)) [
    | inl e ↦ rw e (inr (refl, refl))
    | inr ((parent, child), e) ↦
        rw e (new_session-IsDaemonized p child (posix.fork_session p parent child e))
  ]
