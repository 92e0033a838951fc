-- ===== src/Kernel/Concurrent/Alone.antt =====
-- A run of nl_recv_msg or of the hook that no other run gets in between.
use hut_karish.Prelude.{
  ℕ, zero, suc, ◌≡◌, refl, ap, sym, ◌∙◌, inl, inr, Bool, true, false, not, ◌&&◌, List, [], ◌∷◌,
  ◌++◌, map, map-append, append-nil, Option, some, some-inj, >>=-eq-some, Bool-cases, text_eq, ◌==◌,
  arith, if◌then◌else◌,
}
use hut_karish.Packet.{PcktInfo}
use hut_karish.Kernel.State.{Env, Kernel, Statics}
use hut_karish.Kernel.Messages.{send_stop_msg}
use hut_karish.Kernel.Sending.{send_stop_msg-cases}
use hut_karish.Kernel.Clients.{
  Client, flag_of, pid_of, set_flag, set_pid, subscribe_of, unsubscribe_of,
}
use hut_karish.Kernel.Commands.{nl_recv_msg}
use hut_karish.Kernel.Hook.{SkBuff, Report, parse_packet}
use hut_karish.Kernel.Reporting.{told, mask}
use hut_karish.Kernel.Stop.{says}
use hut_karish.Kernel.Run.{Event, command, packet}
use hut_karish.Kernel.Concurrent.{
  Pc, Outcome, unsent, posted, idle, subscribing, stopping, testing, telling, Told, order,
  packet as about, move, hand_over,
}

-- The steps of one run, with the outcome of each sending; what it sends, oldest first, where it stands,
-- and the variables.
unfoldable pub alone : (Pc → Outcome) → ℕ → Pc → Statics → List (ℕ × Told) × Pc × Statics
unfolding move
alone f zero pc s = ([], pc, s)
alone f (suc n) pc s =
    let m = move (f pc) pc s in
    let (ms, pc', s') = alone f n m.pc m.statics in (hand_over m.sends ms, pc', s')

-- The run that an event begins.
pub data Begins (e : Env) : Event → Pc → Type 0 where
  subscription :
      (c : Client) (pid : ℕ) → Begins e (command (says pid (subscribe_of c))) (subscribing c pid)
  unsubscription :
      (c : Client) (pid : ℕ) → Begins e (command (says pid (unsubscribe_of c))) (stopping c)
  arrival :
      (skb : Option SkBuff) (r : Report)
      → parse_packet e skb ≡ some r
      → Begins e (packet skb) (testing Client.daemon r)

abbrev pub pids {ℓ} : {A : Type ℓ} → List (ℕ × A) → List ℕ
pids [] = []
pids ((pid, m) ∷ ms) = pid ∷ pids ms

-- What the two kinds of command leave of the variables.
abbrev pub entered : Client → ℕ → Statics → Statics
entered c pid s = if flag_of c s == 0 then set_pid c pid (set_flag c 1 s) else s

abbrev pub left : Client → Statics → Statics
left c s = set_pid c 0 (set_flag c 0 s)

pub alone-subscribing :
    (c : Client) (pid : ℕ) (s : Statics)
    → alone (λ pc. posted) 6 (subscribing c pid) s ≡ ([], idle, entered c pid s)
unfolding alone move
alone-subscribing c pid s = elim (Bool-cases (flag_of c s == 0)) [
  | inl f ↦ rw f refl
  | inr f ↦ rw f refl
]

pub nl_recv_msg-subscribe :
    (e : Env) (c : Client) (pid : ℕ) (k k' : Kernel)
    → nl_recv_msg e (says pid (subscribe_of c)) k ≡ some k'
    → (k'.statics ≡ entered c pid k.statics) × (k'.sent ≡ k.sent)
unfolding nl_recv_msg text_eq
nl_recv_msg-subscribe e Client.daemon pid k k' h = ground arith
nl_recv_msg-subscribe e Client.packet_hunter pid k k' h = ground arith

-- Whether an order was sent.
abbrev pub outcome_of : Bool → Outcome
outcome_of true = posted
outcome_of false = unsent

abbrev pub orders : Bool → Client → Statics → List (ℕ × Told)
orders true c s = (pid_of c s, order c) ∷ []
orders false c s = []

pub alone-stopping :
    (b : Bool) (c : Client) (s : Statics)
    → alone (λ pc. outcome_of b) 6 (stopping c) s ≡ (orders b c s, idle, left c s)
unfolding alone move
alone-stopping true c s = refl
alone-stopping false c s = refl

pub nl_recv_msg-unsubscribe :
    (e : Env) (c : Client) (pid : ℕ) (k k' : Kernel)
    → nl_recv_msg e (says pid (unsubscribe_of c)) k ≡ some k'
    → (k'' : Kernel) × (send_stop_msg e (pid_of c k.statics) k ≡ some k'')
      × (k'.statics ≡ left c k''.statics)
      × (k'.sent ≡ k''.sent)
unfolding nl_recv_msg text_eq
nl_recv_msg-unsubscribe e Client.daemon pid k k' h =
    let (k'', s, same) = >>=-eq-some (send_stop_msg e k.daemon_pid k) _ k' h in
    (
      k'',
      s,
      ap (λ (l : Kernel). l.statics) (sym (some-inj same)),
      ap (λ (l : Kernel). l.sent) (sym (some-inj same)),
    )
nl_recv_msg-unsubscribe e Client.packet_hunter pid k k' h =
    let (k'', s, same) = >>=-eq-some (send_stop_msg e k.packet_hunter_pid k) _ k' h in
    (
      k'',
      s,
      ap (λ (l : Kernel). l.statics) (sym (some-inj same)),
      ap (λ (l : Kernel). l.sent) (sym (some-inj same)),
    )

-- The order to stop, with the outcome.
pub stop_outcome :
    (e : Env) (c : Client) (k k' : Kernel)
    → send_stop_msg e (pid_of c k.statics) k ≡ some k'
    → (b : Bool) × (new : List (ℕ × PcktInfo)) × (k'.sent ≡ k.sent ++ new)
      × (pids new ≡ pids (orders b c k.statics))
stop_outcome e c k k' h = elim (send_stop_msg-cases e (pid_of c k.statics) k k' h) [
  | inl same ↦ (false, [], same ∙ sym (append-nil k.sent), refl)
  | inr (m, made, sent) ↦ (true, _, sent, refl)
]

pub pids-mask : (ms : List (ℕ × PcktInfo)) → pids (map mask ms) ≡ pids ms
pids-mask [] = refl
pids-mask ((pid, m) ∷ ms) = ap (◌∷◌ pid) (pids-mask ms)

pub told-append :
    (k k' : Kernel) (new : List (ℕ × PcktInfo))
    → k'.sent ≡ k.sent ++ new
    → told k' ≡ told k ++ map mask new
told-append k k' new same = ap (map mask) same ∙ map-append mask k.sent new

-- The clients that are told of a packet, with their messages.
abbrev pub reported : Bool → Client → Report → Statics → List (ℕ × Told)
reported b c r s =
    if not (flag_of c s == 0) && not (pid_of c s == 0) && b
    then (pid_of c s, about c r) ∷ []
    else []

abbrev pub outcome_at : Bool → Bool → Pc → Outcome
outcome_at b b' (telling Client.daemon r) = outcome_of b
outcome_at b b' (telling Client.packet_hunter r) = outcome_of b'
outcome_at b b' _ = posted

alone-idle : (f : Pc → Outcome) (n : ℕ) (s : Statics) → alone f n idle s ≡ ([], idle, s)
unfolding alone move
alone-idle f zero s = refl
alone-idle f (suc n) s = rw (alone-idle f n s) refl

-- The hook with the packet hunter.
alone-hunter :
    (b b' : Bool) (n : ℕ) (r : Report) (s : Statics)
    → alone (outcome_at b b') (suc (suc (suc n))) (testing Client.packet_hunter r) s
      ≡ (reported b' Client.packet_hunter r s, idle, s)
unfolding alone move
alone-hunter b b' n r s = elim (Bool-cases (s.packet_hunter_subscribed == 0)) [
  | inl f ↦ rw (f, alone-idle (outcome_at b b') n s) refl
  | inr f ↦ elim (Bool-cases (s.packet_hunter_pid == 0)) [
    | inl g ↦ rw (f, g, alone-idle (outcome_at b b') n s) refl
    | inr g ↦ elim (Bool-cases b') [
      | inl h ↦ rw (f, g, h, alone-idle (outcome_at b b') n s) refl
      | inr h ↦ rw (f, g, h, alone-idle (outcome_at b b') n s) refl
    ]
  ]
]

pub alone-testing :
    (b b' : Bool) (r : Report) (s : Statics)
    → alone (outcome_at b b') 6 (testing Client.daemon r) s
      ≡ (reported b Client.daemon r s ++ reported b' Client.packet_hunter r s, idle, s)
unfolding alone move
alone-testing b b' r s = elim (Bool-cases (s.daemon_subscribed == 0)) [
  | inl f ↦ rw f (alone-hunter b b' 2 r s)
  | inr f ↦ elim (Bool-cases (s.daemon_pid == 0)) [
    | inl g ↦ rw (f, g) (alone-hunter b b' 1 r s)
    | inr g ↦ rw (f, g) (both b)
  ]
]
  where
    both :
        (b : Bool)
        → (let (ms, pc, s') = alone (outcome_at b b') 4 (telling Client.daemon r) s in
            ◌≡◌ {A = List (ℕ × Told) × Pc × Statics}
              (ms, pc, s')
              (
                (if b then (s.daemon_pid, about Client.daemon r) ∷ [] else [])
                    ++ reported b' Client.packet_hunter r s,
                idle,
                s,
              ))
    both true =
        ap
          (λ (x : List (ℕ × Told) × Pc × Statics).
            ((s.daemon_pid, about Client.daemon r) ∷ x.0, x.1, x.2))
          (alone-hunter true b' 0 r s)
    both false = alone-hunter false b' 0 r s
