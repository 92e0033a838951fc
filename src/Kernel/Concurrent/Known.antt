-- ===== src/Kernel/Concurrent/Known.antt =====
-- What a step of a run does to the pids of the clients.
use hut_karish.Prelude.{
  ℕ, ◌≡◌, refl, subst, ◌⊎◌, inl, Bool, true, false, ◌&&◌, List, none, some, some-inj, any, ◌==◌,
  if◌then◌else◌,
}
use hut_karish.Kernel.State.{Statics}
use hut_karish.Kernel.Clients.{Client, same_client, flag_of, pid_of, set_flag, set_pid}
use hut_karish.Kernel.Hook.{Report}
use hut_karish.Kernel.Concurrent.{
  Pc, Outcome, no_memory, unsent, posted, post, has_memory, idle, faulted, subscribing, marking,
  filing, stopping, clearing, forgetting, testing, looking, telling, Told, order, packet, client_of,
  next_client, Moved, move,
}

-- A process has asked to be a client.
abbrev pub has_asked : Client → ℕ → List (Client × ℕ) → Bool
has_asked c pid l = any (λ e. same_client e.0 c && e.1 == pid) l

-- The pid is that of a process that has asked, or 0.
abbrev pub Known : List (Client × ℕ) → Client → ℕ → Type 0
Known asked c pid = (pid ≡ 0) ⊎ (has_asked c pid asked ≡ true)

abbrev pub PcKnown : List (Client × ℕ) → Pc → Type 0
PcKnown asked (subscribing c pid) = Known asked c pid
PcKnown asked (marking c pid) = Known asked c pid
PcKnown asked (filing c pid) = Known asked c pid
PcKnown asked _ = Unit {0}

-- What a step gives.
pub record MovedKnown (asked : List (Client × ℕ)) (m : Moved) : Type 0 where
  pub daemon_after : Known asked Client.daemon m.statics.daemon_pid
  pub hunter_after : Known asked Client.packet_hunter m.statics.packet_hunter_pid
  pub run_after : PcKnown asked m.pc
  pub sends_known : (pid : ℕ) (t : Told) → m.sends ≡ some (pid, t) → Known asked (client_of t) pid

next-Known : (asked : List (Client × ℕ)) (c : Client) (r : Report) → PcKnown asked (next_client c r)
next-Known asked Client.daemon r = tt
next-Known asked Client.packet_hunter r = tt

module _ (asked : List (Client × ℕ)) where
  abbrev SafeMove : Statics → Moved → Type 0
  SafeMove s m =
      Known asked Client.daemon s.daemon_pid
      → Known asked Client.packet_hunter s.packet_hunter_pid
      → MovedKnown asked m

  pid_now :
      (c : Client) (s : Statics)
      → Known asked Client.daemon s.daemon_pid
      → Known asked Client.packet_hunter s.packet_hunter_pid
      → Known asked c (pid_of c s)
  pid_now Client.daemon s d h = d
  pid_now Client.packet_hunter s d h = h

  -- A step that writes no pid and sends nothing.
  silent :
      (s : Statics) (pc : Pc)
      → PcKnown asked pc
      → SafeMove s (record { statics = s; pc = pc; sends = none })
  silent s pc k d h = record {
    daemon_after = d;
    hunter_after = h;
    run_after = k;
    sends_known = λ pid t e. cc;
  }

  flag_set :
      (c : Client) (n : ℕ) (s : Statics) (pc : Pc)
      → PcKnown asked pc
      → SafeMove s (record { statics = set_flag c n s; pc = pc; sends = none })
  flag_set Client.daemon n s pc k d h = record {
    daemon_after = d;
    hunter_after = h;
    run_after = k;
    sends_known = λ pid t e. cc;
  }
  flag_set Client.packet_hunter n s pc k d h = record {
    daemon_after = d;
    hunter_after = h;
    run_after = k;
    sends_known = λ pid t e. cc;
  }

  pid_set :
      (c : Client) (n : ℕ) (s : Statics)
      → Known asked c n
      → SafeMove s (record { statics = set_pid c n s; pc = idle; sends = none })
  pid_set Client.daemon n s k d h = record {
    daemon_after = k;
    hunter_after = h;
    run_after = tt;
    sends_known = λ pid t e. cc;
  }
  pid_set Client.packet_hunter n s k d h = record {
    daemon_after = d;
    hunter_after = k;
    run_after = tt;
    sends_known = λ pid t e. cc;
  }

  -- A step that sends to the pid of a client.
  sending :
      (o : Outcome) (t : Told) (s : Statics) (pc : Pc)
      → PcKnown asked pc
      → SafeMove s (record { statics = s; pc = pc; sends = post o (pid_of (client_of t) s) t })
  sending o t s pc k d h = record {
    daemon_after = d;
    hunter_after = h;
    run_after = k;
    sends_known = λ pid t' e.
        posted-Known o t (pid_of (client_of t) s) pid t' (pid_now (client_of t) s d h) e;
  }
    where
      posted-Known :
          (o : Outcome) (t : Told) (p pid : ℕ) (t' : Told)
          → Known asked (client_of t) p
          → post o p t ≡ some (pid, t')
          → Known asked (client_of t') pid
      posted-Known no_memory t p pid t' k e = cc
      posted-Known unsent t p pid t' k e = cc
      posted-Known posted t p pid t' k e =
          subst (λ (m : ℕ × Told). Known asked (client_of m.1) m.0) (some-inj e) k

  pub choice :
      (b : Bool) (x y : Pc) → PcKnown asked x → PcKnown asked y → PcKnown asked (if b then x else y)
  choice true x y k l = k
  choice false x y k l = l

  pub move-Known :
      (o : Outcome) (pc : Pc) (s : Statics) → PcKnown asked pc → SafeMove s (move o pc s)
  unfolding move
  move-Known o idle s k = silent s idle tt
  move-Known o faulted s k = silent s faulted tt
  move-Known o (subscribing c pid) s k =
      silent s _ (choice (flag_of c s == 0) (marking c pid) idle k tt)
  move-Known o (marking c pid) s k = flag_set c 1 s (filing c pid) k
  move-Known o (filing c pid) s k = pid_set c pid s k
  move-Known o (stopping c) s k =
      sending o (order c) s _ (choice (has_memory o) (clearing c) faulted tt tt)
  move-Known o (clearing c) s k = flag_set c 0 s (forgetting c) tt
  move-Known o (forgetting c) s k = pid_set c 0 s (inl refl)
  move-Known o (testing c r) s k =
      silent s _
        (choice (flag_of c s == 0) (next_client c r) (looking c r) (next-Known asked c r) tt)
  move-Known o (looking c r) s k =
      silent s _
        (choice (pid_of c s == 0) (next_client c r) (telling c r) (next-Known asked c r) tt)
  move-Known o (telling c r) s k =
      sending o (packet c r) s _
        (choice (has_memory o) (next_client c r) idle (next-Known asked c r) tt)
