-- ===== src/Kernel/Concurrent/Deaf.antt =====
-- A client whose subscription was lost between a subscription and an unsubscription.
use hut_karish.Prelude.{
  ℕ, ◌≡◌, refl, ap, subst, ◌∙◌, ◌⊎◌, inl, inr, Bool, true, false, not, none, some, some-inj,
  Bool-cases, arith, ◌==◌, if◌then◌else◌,
}
use hut_karish.Kernel.State.{Statics}
use hut_karish.Kernel.Clients.{Client, same_client, flag_of, pid_of, set_flag, set_pid}
use hut_karish.Kernel.Hook.{Report}
use hut_karish.Kernel.Concurrent.{
  Pc, Outcome, no_memory, unsent, posted, post, has_memory, idle, faulted, subscribing, marking,
  filing, stopping, clearing, forgetting, testing, looking, telling, Told, order, packet, client_of,
  next_client, Moved, move, System,
}

-- A run that will not write the variables of the client.
abbrev pub is_harmless : Client → Pc → Bool
is_harmless c (marking d pid) = not (same_client c d)
is_harmless c (filing d pid) = not (same_client c d)
is_harmless c (stopping d) = not (same_client c d)
is_harmless c (clearing d) = not (same_client c d)
is_harmless c (forgetting d) = not (same_client c d)
is_harmless c _ = true

-- The client counts as subscribed, with pid 0.
pub record IsDeaf (c : Client) (s : System) : Type 0 where
  pub flag : flag_of c s.statics ≡ 1
  pub pid : pid_of c s.statics ≡ 0
  pub harmless : (i : ℕ) → is_harmless c (s.pc i) ≡ true

-- A message that is not for the client, or goes to no process.
abbrev pub PassesBy : Client → ℕ × Told → Type 0
PassesBy c (pid, t) = (same_client c (client_of t) ≡ false) ⊎ (pid ≡ 0)

pub record DeafMove (c : Client) (m : Moved) : Type 0 where
  pub flag_after : flag_of c m.statics ≡ 1
  pub pid_after : pid_of c m.statics ≡ 0
  pub harmless_after : is_harmless c m.pc ≡ true
  pub sends_past : (x : ℕ × Told) → m.sends ≡ some x → PassesBy c x

-- A write to a variable of the other client.
flag_elsewhere :
    (c d : Client) (n : ℕ) (s : Statics)
    → not (same_client c d) ≡ true
    → (flag_of c (set_flag d n s) ≡ flag_of c s) × (pid_of c (set_flag d n s) ≡ pid_of c s)
flag_elsewhere Client.daemon Client.daemon n s e = cc
flag_elsewhere Client.daemon Client.packet_hunter n s e = (refl, refl)
flag_elsewhere Client.packet_hunter Client.daemon n s e = (refl, refl)
flag_elsewhere Client.packet_hunter Client.packet_hunter n s e = cc

pid_elsewhere :
    (c d : Client) (n : ℕ) (s : Statics)
    → not (same_client c d) ≡ true
    → (flag_of c (set_pid d n s) ≡ flag_of c s) × (pid_of c (set_pid d n s) ≡ pid_of c s)
pid_elsewhere Client.daemon Client.daemon n s e = cc
pid_elsewhere Client.daemon Client.packet_hunter n s e = (refl, refl)
pid_elsewhere Client.packet_hunter Client.daemon n s e = (refl, refl)
pid_elsewhere Client.packet_hunter Client.packet_hunter n s e = cc

next_harmless : (c d : Client) (r : Report) → is_harmless c (next_client d r) ≡ true
next_harmless c Client.daemon r = refl
next_harmless c Client.packet_hunter r = refl

-- The pid of the client itself is 0.
sends_zero :
    (c d : Client) (s : Statics) → pid_of c s ≡ 0 → (same_client c d ≡ false) ⊎ (pid_of d s ≡ 0)
sends_zero Client.daemon Client.daemon s p = inr p
sends_zero Client.daemon Client.packet_hunter s p = inl refl
sends_zero Client.packet_hunter Client.daemon s p = inl refl
sends_zero Client.packet_hunter Client.packet_hunter s p = inr p

module _ (c : Client) where
  silent :
      (s : Statics) (pc : Pc)
      → is_harmless c pc ≡ true
      → flag_of c s ≡ 1
      → pid_of c s ≡ 0
      → DeafMove c (record { statics = s; pc = pc; sends = none })
  silent s pc h f p = record {
    flag_after = f;
    pid_after = p;
    harmless_after = h;
    sends_past = λ x e. cc;
  }

  posted_past :
      (o : Outcome) (t : Told) (s : Statics)
      → pid_of c s ≡ 0
      → (x : ℕ × Told) → post o (pid_of (client_of t) s) t ≡ some x
      → PassesBy c x
  posted_past no_memory t s p x e = cc
  posted_past unsent t s p x e = cc
  posted_past posted t s p x e = subst (PassesBy c) (some-inj e) (sends_zero c (client_of t) s p)

  pub choice :
      (b : Bool) (x y : Pc)
      → is_harmless c x ≡ true
      → is_harmless c y ≡ true
      → is_harmless c (if b then x else y) ≡ true
  choice true x y h k = h
  choice false x y h k = k

  flag_written :
      (d : Client) (n : ℕ) (s : Statics) (pc : Pc)
      → not (same_client c d) ≡ true
      → is_harmless c pc ≡ true
      → flag_of c s ≡ 1
      → pid_of c s ≡ 0
      → DeafMove c (record { statics = set_flag d n s; pc = pc; sends = none })
  flag_written d n s pc e h f p =
      let (same_flag, same_pid) = flag_elsewhere c d n s e in
      silent (set_flag d n s) pc h (same_flag ∙ f) (same_pid ∙ p)

  pid_written :
      (d : Client) (n : ℕ) (s : Statics)
      → not (same_client c d) ≡ true
      → flag_of c s ≡ 1
      → pid_of c s ≡ 0
      → DeafMove c (record { statics = set_pid d n s; pc = idle; sends = none })
  pid_written d n s e f p =
      let (same_flag, same_pid) = pid_elsewhere c d n s e in
      silent (set_pid d n s) idle refl (same_flag ∙ f) (same_pid ∙ p)

  posting :
      (o : Outcome) (t : Told) (s : Statics) (pc : Pc)
      → is_harmless c pc ≡ true
      → flag_of c s ≡ 1
      → pid_of c s ≡ 0
      → DeafMove c (record { statics = s; pc = pc; sends = post o (pid_of (client_of t) s) t })
  posting o t s pc h f p = record {
    flag_after = f;
    pid_after = p;
    harmless_after = h;
    sends_past = posted_past o t s p;
  }

  -- The test of the flag by a subscription of the client fails.
  refused :
      (d : Client) (pid : ℕ) (s : Statics)
      → flag_of c s ≡ 1
      → is_harmless c (if flag_of d s == 0 then marking d pid else idle) ≡ true
  refused d pid s f = elim (Bool-cases (same_client c d)) [
    | inr e ↦ choice (flag_of d s == 0) (marking d pid) idle (ap not e) refl
    | inl e ↦ own c d e f
  ]
    where
      own :
          (c d : Client)
          → same_client c d ≡ true
          → flag_of c s ≡ 1
          → is_harmless c (if flag_of d s == 0 then marking d pid else idle) ≡ true
      own Client.daemon Client.daemon e f = ground (arith, f)
      own Client.daemon Client.packet_hunter e f = cc
      own Client.packet_hunter Client.daemon e f = cc
      own Client.packet_hunter Client.packet_hunter e f = ground (arith, f)

  pub move_deaf :
      (o : Outcome) (pc : Pc) (s : Statics)
      → is_harmless c pc ≡ true
      → flag_of c s ≡ 1
      → pid_of c s ≡ 0
      → DeafMove c (move o pc s)
  unfolding move
  move_deaf o idle s h f p = silent s idle refl f p
  move_deaf o faulted s h f p = silent s faulted refl f p
  move_deaf o (subscribing d pid) s h f p = silent s _ (refused d pid s f) f p
  move_deaf o (marking d pid) s h f p = flag_written d 1 s (filing d pid) h h f p
  move_deaf o (filing d pid) s h f p = pid_written d pid s h f p
  move_deaf o (stopping d) s h f p =
      posting o (order d) s _ (choice (has_memory o) (clearing d) faulted h refl) f p
  move_deaf o (clearing d) s h f p = flag_written d 0 s (forgetting d) h h f p
  move_deaf o (forgetting d) s h f p = pid_written d 0 s h f p
  move_deaf o (testing d r) s h f p =
      silent s _
        (choice (flag_of d s == 0) (next_client d r) (looking d r) (next_harmless c d r) refl) f p
  move_deaf o (looking d r) s h f p =
      silent s _
        (choice (pid_of d s == 0) (next_client d r) (telling d r) (next_harmless c d r) refl) f p
  move_deaf o (telling d r) s h f p =
      posting o (packet d r) s _
        (choice (has_memory o) (next_client d r) idle (next_harmless c d r) refl) f p
