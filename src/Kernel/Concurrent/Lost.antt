-- ===== src/Kernel/Concurrent/Lost.antt =====
-- What follows when a subscription was lost, and how it is.
use hut_karish.Prelude.{
  ℕ, ◌≡◌, refl, sym, ap, ◌∙◌, true, false, not, List, [], ◌∷◌, ◌++◌, append_assoc, All-append,
  Option, none, some, arith, All, ◌==◌,
}
use hut_karish.Kernel.Clients.{Client, same_client}
use hut_karish.Kernel.Concurrent.{
  Pc, posted, subscribing, stopping, testing, Told, move, update, System, hand_over, Step, moves,
  subscribes, unsubscribes, arrives, Reach, begins, next,
}
use hut_karish.Kernel.Concurrent.Deaf.{is_harmless, IsDeaf, PassesBy, choice, move_deaf}

-- No unsubscription of the client begins.
abbrev pub IsCalm : Client → {s t : System} → Step s t → Type 0
IsCalm c (unsubscribes i d e) = same_client c d ≡ false
IsCalm c _ = Unit {0}

-- What follows on `s` as long as none does.
pub data Since (c : Client) (s : System) : System → Type 0 where
  now : Since c s s
  later : {t u : System} → Since c s t → (st : Step t u) → IsCalm c st → Since c s u

-- The messages of a step.
abbrev Unheard : Client → System → System → Type 0
Unheard c s t = (new : List (ℕ × Told)) × (t.sent ≡ new ++ s.sent) × All (PassesBy c) new

updated :
    (c : Client) (f : ℕ → Pc) (i : ℕ) (pc : Pc)
    → ((j : ℕ) → is_harmless c (f j) ≡ true)
    → is_harmless c pc ≡ true
    → (j : ℕ) → is_harmless c (update f i pc j) ≡ true
updated c f i pc all h j = choice c (i == j) pc (f j) h (all j)

handed :
    (c : Client) (o : Option (ℕ × Told)) (ms : List (ℕ × Told))
    → ((x : ℕ × Told) → o ≡ some x → PassesBy c x)
    → (new : List (ℕ × Told)) × (hand_over o ms ≡ new ++ ms) × All (PassesBy c) new
handed c none ms h = ([], refl, tt)
handed c (some x) ms h = (x ∷ [], refl, (h x refl, tt))

Step-IsDeaf :
    (c : Client) {s t : System}
    → IsDeaf c s
    → (st : Step s t) → IsCalm c st
    → IsDeaf c t × Unheard c s t
Step-IsDeaf c {s} v (moves i o) calm =
    let m = move_deaf c o (s.pc i) s.statics (v.harmless i) v.flag v.pid in
    (
      record {
        flag = m.flag_after;
        pid = m.pid_after;
        harmless = updated c s.pc i _ v.harmless m.harmless_after;
      },
      handed c _ s.sent m.sends_past,
    )
Step-IsDeaf c {s} v (subscribes i d pid e) calm = (
  record {
    flag = v.flag;
    pid = v.pid;
    harmless = updated c s.pc i (subscribing d pid) v.harmless refl;
  },
  ([], refl, tt),
)
Step-IsDeaf c {s} v (unsubscribes i d e) calm = (
  record {
    flag = v.flag;
    pid = v.pid;
    harmless = updated c s.pc i (stopping d) v.harmless (ap not calm);
  },
  ([], refl, tt),
)
Step-IsDeaf c {s} v (arrives i r e) calm = (
  record {
    flag = v.flag;
    pid = v.pid;
    harmless = updated c s.pc i (testing Client.daemon r) v.harmless refl;
  },
  ([], refl, tt),
)

-- If a client counts as subscribed with pid 0, and no run is about to write its variables, then however
-- commands and packets are worked on, as long as no unsubscription of the client begins, this stays so,
-- whoever tries to subscribe, and no message is sent to a process on behalf of the client.
pub Since-IsDeaf :
    {c : Client} {s t : System}
    → IsDeaf c s
    → Since c s t
    → IsDeaf c t × ((new : List (ℕ × Told)) × (t.sent ≡ new ++ s.sent) × All (PassesBy c) new)
Since-IsDeaf v now = (v, ([], refl, tt))
Since-IsDeaf {c} {s} v (later l st calm) =
    let (w, (old, sent, past)) = Since-IsDeaf v l in
    let (x, (new, more, passed)) = Step-IsDeaf c w st calm in
    (
      x,
      (
        new ++ old,
        more ∙ ap (λ l. new ++ l) sent ∙ sym (append_assoc new old s.sent),
        All-append (PassesBy c) new old passed past,
      ),
    )

-- And this comes about: a process `p` subscribes while somebody unsubscribes the client, and the last
-- reset of the unsubscription comes after the subscription.
pub lost_in : (c : Client) (p : ℕ) → (s : System) × Reach s × IsDeaf c s
unfolding move
lost_in Client.daemon p =
    let clearing = next (next begins (unsubscribes 0 Client.daemon refl)) (moves 0 posted) in
    let asking = next (next clearing (moves 0 posted)) (subscribes 1 Client.daemon p refl) in
    let filing = next (next asking (moves 1 posted)) (moves 1 posted) in
    let last = next (next filing (moves 1 posted)) (moves 0 posted) in
    (_, last, record { flag = refl; pid = refl; harmless = λ i. ground arith })
lost_in Client.packet_hunter p =
    let clearing = next (next begins (unsubscribes 0 Client.packet_hunter refl)) (moves 0 posted) in
    let asking = next (next clearing (moves 0 posted)) (subscribes 1 Client.packet_hunter p refl) in
    let filing = next (next asking (moves 1 posted)) (moves 1 posted) in
    let last = next (next filing (moves 1 posted)) (moves 0 posted) in
    (_, last, record { flag = refl; pid = refl; harmless = λ i. ground arith })
