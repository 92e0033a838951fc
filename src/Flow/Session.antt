-- ===== src/Flow/Session.antt =====
-- What a client is sent while it is subscribed, to the order to stop.
use hut_karish.Prelude.{
  true, ℕ, ◌≡◌, ◌≢◌, refl, ap, sym, subst, ◌∙◌, false, List, [], ◌∷◌, ◌++◌, map, ◌>>=◌,
  Option-cases, Bool-cases, inl, inr, arith, Returns, Returns-with, Returns-bind, Returns-mono,
  ◌==◌, ==_refl, if◌then◌else◌, All, All-append, text_eq,
}
use hut_karish.Packet.{PcktInfo, InRange, is_stop}
use hut_karish.Kernel.State.{Env, Kernel, init}
use hut_karish.Kernel.Commands.{nl_recv_msg}
use hut_karish.Kernel.Hook.{Report}
use hut_karish.Kernel.Reporting.{mask, info}
use hut_karish.Kernel.Delivery.{IsWorking}
use hut_karish.Kernel.Stop.{
  says, StopSent, daemon_unsubscribe-StopSent, packet_hunter_unsubscribe-StopSent,
}
use hut_karish.Kernel.Run.{Event, command, step, run}
use hut_karish.Kernel.Widths.{SentInRange, EventFits, IsBytes}
use hut_karish.Kernel.Range.{run-SentInRange}
use hut_karish.Kernel.Clients.{Client, pid_of, subscribe_of, unsubscribe_of}
use hut_karish.Flow.Watch.{inbox, inbox-append, reports, IsQuiet, Watching, run-Watching}
use hut_karish.Flow.Reception.{IsPlain}

-- Packet information without the field that the module does not write.
abbrev pub unpaid : PcktInfo → PcktInfo
unpaid i = record i { payload_size = 0 }

pub inbox-mask :
    (d : ℕ) (ms : List (ℕ × PcktInfo)) → inbox d (map mask ms) ≡ map unpaid (inbox d ms)
inbox-mask d [] = refl
inbox-mask d ((pid, m) ∷ ms) = ground (arith, inbox-mask d ms)

inbox-InRange :
    (d : ℕ) (ms : List (ℕ × PcktInfo)) → All (λ m. InRange m.1) ms → All InRange (inbox d ms)
inbox-InRange d [] h = tt
inbox-InRange d ((pid, m) ∷ ms) h = elim (Bool-cases (pid == d)) [
  | inl e ↦ rw e (h.0, inbox-InRange d ms h.1)
  | inr e ↦ rw e (inbox-InRange d ms h.1)
]

IsPlain-unpaid :
    (is : List PcktInfo)
    → All InRange is
    → All (λ i. is_stop i ≡ false) (map unpaid is)
    → All IsPlain is
unfolding is_stop
IsPlain-unpaid [] r h = tt
IsPlain-unpaid (i ∷ is) r h = ((r.0, h.0), IsPlain-unpaid is r.1 h.1)

All-info :
    (rs : List Report)
    → All (λ r. is_stop (info r) ≡ false) rs
    → All (λ i. is_stop i ≡ false) (map info rs)
All-info [] h = tt
All-info (r ∷ rs) h = (h.0, All-info rs h.1)

All-front :
    {A : Type 0} (P : A → Type 0) (xs : List A) (y : A) → All P (xs ++ y ∷ []) → All P xs × P y
All-front P [] y h = (tt, h.0)
All-front P (x ∷ xs) y h = let t = All-front P xs y h.1 in ((h.0, t.0), t.1)

pub run-append :
    (e : Env) (evs later : List Event) (k : Kernel)
    → run e (evs ++ later) k ≡ (run e evs k >>= run e later)
unfolding run
run-append e [] later k = refl
run-append e (ev ∷ evs) later k = elim (Option-cases (step e ev k)) [
  | inl s ↦ rw s refl
  | inr (k', s) ↦ rw s (run-append e evs later k')
]

-- The client `c`, a process `d`, subscribes, things happen, and `sender` unsubscribes it.
abbrev pub session : Client → ℕ → ℕ → List Event → List Event
session c d sender evs =
    command (says d (subscribe_of c)) ∷ evs ++ command (says sender (unsubscribe_of c)) ∷ []

abbrev Watched : Client → ℕ → List Report → Kernel → Type 0
Watched c d rs k' = (k : Kernel) × Watching c d rs k × StopSent d k k'

-- The inbox of a client, a process `d`: packets that say what the reports `rs` say, and an order to stop.
pub record Delivered (d : ℕ) (rs : List Report) (k : Kernel) : Type 0 where
  pub packets : List PcktInfo
  pub stop : PcktInfo
  pub split : inbox d k.sent ≡ packets ++ stop ∷ []
  pub plain : All IsPlain packets
  pub stop_fits : InRange stop
  pub stops : is_stop stop ≡ true
  pub heard : map unpaid packets ≡ map info rs

subscribe_first :
    (e : Env) (d : ℕ)
    → d ≢ 0
    → (c : Client) → Returns (nl_recv_msg e (says d (subscribe_of c)) init) (Watching c d [])
unfolding nl_recv_msg text_eq
subscribe_first e d d_set Client.daemon = record {
  subscribed = refl;
  pid = refl;
  apart = λ h. d_set (sym h);
  heard = refl;
}
subscribe_first e d d_set Client.packet_hunter = record {
  subscribed = refl;
  pid = refl;
  apart = λ h. d_set (sym h);
  heard = refl;
}

pub stops_client :
    (e : Env) (w : IsWorking e) (c : Client) (sender : ℕ) (k : Kernel)
    → Returns (nl_recv_msg e (says sender (unsubscribe_of c)) k) (StopSent (pid_of c k.statics) k)
stops_client e w Client.daemon sender k =
    Returns-mono _ (StopSent k.daemon_pid k) _ (λ k' t. t.0)
      (daemon_unsubscribe-StopSent e w sender k)
stops_client e w Client.packet_hunter sender k =
    Returns-mono _ (StopSent k.packet_hunter_pid k) _ (λ k' t. t.0)
      (packet_hunter_unsubscribe-StopSent e w sender k)

module _ (e : Env) (w : IsWorking e) (c : Client) (d : ℕ) (d_set : d ≢ 0) where
  stop_last :
      (sender : ℕ) (rs : List Report) (k : Kernel)
      → Watching c d rs k
      → Returns (run e (command (says sender (unsubscribe_of c)) ∷ []) k) (Watched c d rs)
  unfolding run
  stop_last sender rs k v =
      Returns-bind (StopSent (pid_of c k.statics) k) (Watched c d rs) _ _
        (stops_client e w c sender k) λ k' t. (k, v, subst (λ p. StopSent p k k') v.pid t)

  session-Watched :
      (sender : ℕ) (evs : List Event)
      → All (IsQuiet c d) evs
      → Returns (run e (session c d sender evs) init) (Watched c d (reports e evs))
  unfolding run
  session-Watched sender evs quiet =
      Returns-bind (Watching c d []) (Watched c d (reports e evs)) _ _ (subscribe_first e d d_set c)
        λ k v. rw (run-append e evs (command (says sender (unsubscribe_of c)) ∷ []) k) (
          Returns-bind (Watching c d (reports e evs)) (Watched c d (reports e evs)) _ _
            (run-Watching e w d d_set c evs [] k quiet v)
            λ k' t. stop_last sender (reports e evs) k' t)

  inbox-stop :
      (k k' : Kernel) (m : PcktInfo)
      → k'.sent ≡ k.sent ++ (d, m) ∷ []
      → inbox d k'.sent ≡ inbox d k.sent ++ m ∷ []
  inbox-stop k k' m h =
      ap (inbox d) h
      ∙ inbox-append d k.sent ((d, m) ∷ [])
      ∙ ap (λ b. inbox d k.sent ++ (if b then m ∷ [] else [])) (==_refl d)

  Watched-Delivered :
      (rs : List Report) (k' : Kernel)
      → All (λ r. is_stop (info r) ≡ false) rs
      → SentInRange k'
      → Watched c d rs k'
      → Delivered d rs k'
  Watched-Delivered rs k' reported range (k, v, (m, sent, stops)) =
      let split = inbox-stop k k' m sent in
      let heard = sym (inbox-mask d k.sent) ∙ v.heard in
      let (fits, fits_stop) =
        All-front InRange (inbox d k.sent) m
          (subst (All InRange) split (inbox-InRange d k'.sent range)) in
      record {
        packets = inbox d k.sent;
        stop = m;
        split = split;
        plain =
            IsPlain-unpaid (inbox d k.sent) fits
              (subst (All λ i. is_stop i ≡ false) (sym heard) (All-info rs reported));
        stop_fits = fits_stop;
        stops = stops;
        heard = heard;
      }

  pub session-Delivered :
      (b : IsBytes e) (sender : ℕ) (evs : List Event)
      → All (IsQuiet c d) evs
      → All EventFits evs
      → All (λ r. is_stop (info r) ≡ false) (reports e evs)
      → Returns (run e (session c d sender evs) init) (Delivered d (reports e evs))
  session-Delivered b sender evs quiet fits reported =
      Returns-with (Watched c d (reports e evs)) (Delivered d (reports e evs)) _
        (λ k' ran t.
          Watched-Delivered (reports e evs) k' reported
            (run-SentInRange e b (session c d sender evs) init k' ran session_fits tt) t)
        (session-Watched sender evs quiet)
    where
      session_fits : All EventFits (session c d sender evs)
      session_fits = (
        tt,
        All-append EventFits evs (command (says sender (unsubscribe_of c)) ∷ []) fits (tt, tt),
      )
