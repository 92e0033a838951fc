-- ===== src/Tests/Daemonize.antt =====
-- daemonize at a concrete system.
use hut_karish.Prelude.{
  ℕ, ◌+◌, ◌≡◌, ◌≢◌, refl, sym, ap, ◌∙◌, Bool-cases, inl, inr, false, List, none, some, some-inj,
  codes, ◌==◌, ==_iff, if◌then◌else◌, arith,
}
use hut_karish.Daemon.Daemonize.{
  Posix, View, IsPosix, IsDaemonized, daemonize, daemonize-IsDaemonized,
}

record Process : Type 0 where
  number : ℕ
  session : ℕ
  directory : List ℕ
  stream : ℕ → List ℕ

-- A child has the number after that of its session.
abbrev system : Posix Process
system = record {
  fork = λ p. some (p, record p { number = p.session + 1 });
  setsid = λ p. if p.number == p.session then none else some (record p { session = p.number });
  chdir = λ d p. record p { directory = d };
  freopen = λ f m n p. record p { stream = λ k. if n == k then f else p.stream k };
}

abbrev view : View Process
view = record {
  session = λ p. p.session;
  is_leader = λ p. p.number == p.session;
  directory = λ p. p.directory;
  stream = λ n p. p.stream n;
}

new_session_differs : (p q : Process) → system.setsid p ≡ some q → view.session q ≢ view.session p
new_session_differs p q e = elim (Bool-cases (p.number == p.session)) [
  | inl f ↦ (let g = rw f at e in cc)
  | inr f ↦ λ same.
      ground (arith, ==_iff p.number p.session, f, same, ap (λ x. x.session) (some-inj (rw f at e)))
]

child_leads : (p q c : Process) → system.fork p ≡ some (q, c) → view.is_leader c ≡ false
child_leads p q c e =
    let same = some-inj e in
    ap (λ (x : Process × Process). x.1.number == x.1.session) (sym same) ∙ ground arith

system-IsPosix : IsPosix system view
system-IsPosix = record {
  fork_session = λ p q c e. ap (λ (x : Process × Process). x.1.session) (sym (some-inj e));
  fork_leader = child_leads;
  setsid_session = new_session_differs;
  chdir_session = λ d p. refl;
  chdir_leader = λ d p. refl;
  chdir_directory = λ d p. refl;
  freopen_session = λ f m n p. refl;
  freopen_leader = λ f m n p. refl;
  freopen_directory = λ f m n p. refl;
  freopen_stream = λ f m n p. ground arith;
  freopen_other = λ f m n k p apart. ground (arith, apart);
}

-- A shell's child calls it.
abbrev caller : Process
caller = record {
  number = 8;
  session = 7;
  directory = codes "/home";
  stream = λ n. codes "/dev/tty";
}

daemonize-IsDaemonized_example :
    IsDaemonized system view system-IsPosix caller (daemonize system caller)
daemonize-IsDaemonized_example = daemonize-IsDaemonized system view system-IsPosix caller
