-- ===== src/Kernel/Concurrent/Addressed.antt =====
-- Whom the module sends to, in any interleaving.
use hut_karish.Prelude.{
  ℕ, ◌≡◌, refl, inl, inr, true, List, [], ◌∷◌, Option, none, some, arith, All, ◌==◌, ==_refl,
}
use hut_karish.Kernel.Clients.{Client}
use hut_karish.Kernel.Concurrent.{
  Pc, idle, faulted, subscribing, marking, filing, stopping, clearing, forgetting, testing, looking,
  telling, Told, client_of, update, System, hand_over, Step, moves, subscribes, unsubscribes,
  arrives, Reach, begins, next,
}
use hut_karish.Kernel.Concurrent.Known.{has_asked, Known, PcKnown, choice, move-Known}

record Inv (s : System) : Type 0 where
  daemon_known : Known s.asked Client.daemon s.statics.daemon_pid
  hunter_known : Known s.asked Client.packet_hunter s.statics.packet_hunter_pid
  runs_known : (i : ℕ) → PcKnown s.asked (s.pc i)
  sent_known : All (λ m. Known s.asked (client_of m.1) m.0) s.sent

-- More have asked.
Known-more :
    (asked : List (Client × ℕ)) (new : Client × ℕ) (c : Client) (pid : ℕ)
    → Known asked c pid
    → Known (new ∷ asked) c pid
Known-more asked new c pid (inl e) = inl e
Known-more asked new c pid (inr e) = inr (ground (arith, e))

PcKnown-more :
    (asked : List (Client × ℕ)) (new : Client × ℕ) (pc : Pc)
    → PcKnown asked pc
    → PcKnown (new ∷ asked) pc
PcKnown-more asked new (subscribing c pid) k = Known-more asked new c pid k
PcKnown-more asked new (marking c pid) k = Known-more asked new c pid k
PcKnown-more asked new (filing c pid) k = Known-more asked new c pid k
PcKnown-more asked new idle k = tt
PcKnown-more asked new faulted k = tt
PcKnown-more asked new (stopping c) k = tt
PcKnown-more asked new (clearing c) k = tt
PcKnown-more asked new (forgetting c) k = tt
PcKnown-more asked new (testing c r) k = tt
PcKnown-more asked new (looking c r) k = tt
PcKnown-more asked new (telling c r) k = tt

sent-more :
    (asked : List (Client × ℕ)) (new : Client × ℕ) (ms : List (ℕ × Told))
    → All (λ m. Known asked (client_of m.1) m.0) ms
    → All (λ m. Known (new ∷ asked) (client_of m.1) m.0) ms
sent-more asked new [] h = tt
sent-more asked new ((pid, t) ∷ ms) h =
    (Known-more asked new (client_of t) pid h.0, sent-more asked new ms h.1)

update-Known :
    (asked : List (Client × ℕ)) (f : ℕ → Pc) (i : ℕ) (pc : Pc)
    → ((j : ℕ) → PcKnown asked (f j))
    → PcKnown asked pc
    → (j : ℕ) → PcKnown asked (update f i pc j)
update-Known asked f i pc all k j = choice asked (i == j) pc (f j) k (all j)

handed-Known :
    (asked : List (Client × ℕ)) (o : Option (ℕ × Told)) (ms : List (ℕ × Told))
    → ((pid : ℕ) (t : Told) → o ≡ some (pid, t) → Known asked (client_of t) pid)
    → All (λ m. Known asked (client_of m.1) m.0) ms
    → All (λ m. Known asked (client_of m.1) m.0) (hand_over o ms)
handed-Known asked none ms k h = h
handed-Known asked (some (pid, t)) ms k h = (k pid t refl, h)

asked_first :
    (c : Client) (pid : ℕ) (asked : List (Client × ℕ)) → has_asked c pid ((c, pid) ∷ asked) ≡ true
asked_first Client.daemon pid asked = rw (==_refl pid) refl
asked_first Client.packet_hunter pid asked = rw (==_refl pid) refl

Step-Inv : {s t : System} → Step s t → Inv s → Inv t
Step-Inv {s} (moves i o) v =
    let m =
      move-Known s.asked o (s.pc i) s.statics (v.runs_known i) v.daemon_known v.hunter_known in
    record {
      daemon_known = m.daemon_after;
      hunter_known = m.hunter_after;
      runs_known = update-Known s.asked s.pc i _ v.runs_known m.run_after;
      sent_known = handed-Known s.asked _ s.sent m.sends_known v.sent_known;
    }
Step-Inv {s} (subscribes i c pid e) v = record {
  daemon_known = Known-more s.asked (c, pid) Client.daemon _ v.daemon_known;
  hunter_known = Known-more s.asked (c, pid) Client.packet_hunter _ v.hunter_known;
  runs_known =
      update-Known ((c, pid) ∷ s.asked) s.pc i (subscribing c pid)
        (λ j. PcKnown-more s.asked (c, pid) (s.pc j) (v.runs_known j))
        (inr (asked_first c pid s.asked));
  sent_known = sent-more s.asked (c, pid) s.sent v.sent_known;
}
Step-Inv {s} (unsubscribes i c e) v = record {
  daemon_known = v.daemon_known;
  hunter_known = v.hunter_known;
  runs_known = update-Known s.asked s.pc i (stopping c) v.runs_known tt;
  sent_known = v.sent_known;
}
Step-Inv {s} (arrives i r e) v = record {
  daemon_known = v.daemon_known;
  hunter_known = v.hunter_known;
  runs_known = update-Known s.asked s.pc i (testing Client.daemon r) v.runs_known tt;
  sent_known = v.sent_known;
}

Reach-Inv : {s : System} → Reach s → Inv s
Reach-Inv begins = record {
  daemon_known = inl refl;
  hunter_known = inl refl;
  runs_known = λ i. tt;
  sent_known = tt;
}
Reach-Inv (next r st) = Step-Inv st (Reach-Inv r)

-- However any number of commands and of packets are worked on at the same time, every message that the
-- module sends on behalf of a client goes to a process that has asked to be that client, or to 0.
pub Reach-Known : {s : System} → Reach s → All (λ m. Known s.asked (client_of m.1) m.0) s.sent
Reach-Known r = (Reach-Inv r).sent_known
