-- ===== src/Hunter/Hunted.antt =====
-- packet_hunter/src/main.cpp: what becomes of the packets that are received.
use mathlib.Core.List.{Sublistᴰ}
use hut_karish.Prelude.{
  ◌≡◌, refl, sym, subst, ◌∙◌, Bool, true, false, not, ◌||◌, List, [], ◌∷◌, ◌++◌, map, map-append,
  Option, none, some, Bool-cases, inl, inr, arith, any, if◌then◌else◌, All, All-append, ==_refl,
}
use hut_karish.Prelude.Int.{ℤ}
use hut_karish.Packet.{PcktInfo}
use hut_karish.Heap.{Pckt}
use hut_karish.Receiver.Delivery.{infos}
use hut_karish.Receiver.Taking.{reception}
use hut_karish.Hunter.PacketMap.{equals, compare_packet_info, contains_packet}
use hut_karish.Hunter.Client.{UnixSocketClient, is_killed, send_port, receive_pid}
use hut_karish.Hunter.Filing.{IsFiled, agrees, insert-IsFiled}
use hut_karish.Hunter.Loop.{
  Hunter, Round, End, goes_on, breaks, killed, keep_packet, handle_packet, ends,
}
use hut_karish.Hunter.Threads.{Hunt, Event, receives, loops, shared_of}

-- The packets that the receiver puts into the queue.
abbrev pub arrival : Bool → Event → Bool × List PcktInfo
arrival listening (receives r) = reception listening r
arrival listening (loops r) = (listening, [])

abbrev pub arrived : Bool → List Event → List PcktInfo
arrived listening [] = []
arrived listening (ev ∷ evs) = (arrival listening ev).1 ++ arrived (arrival listening ev).0 evs

-- A packet that compares equal to one that was printed.
abbrev pub is_covered : List (ℤ × Pckt) → PcktInfo → Bool
is_covered printed i = any (λ e. equals i e.1) printed

abbrev pub printed_infos : List (ℤ × Pckt) → List PcktInfo
printed_infos = map λ e. e.1.info

-- The packets that came were taken out of the queue in order, or wait in it. The map holds what was
-- printed with a known pid; what was printed is a part of what was taken out, in order, and covers all
-- of it as long as the loop goes on.
pub record Hunted (came : List PcktInfo) (t : Hunt) : Type 0 where
  pub popped : List PcktInfo
  pub in_order : popped ++ infos (shared_of t) ≡ came
  pub filed : IsFiled t.hunter.map t.hunter.printed
  pub ordered : Sublistᴰ (printed_infos t.hunter.printed) popped
  pub covered : t.looping ≡ true → All (λ i. is_covered t.hunter.printed i ≡ true) popped

module _ {ℓ} {A : Type ℓ} where
  Sublist-skip : {xs ys : List A} (y : A) → Sublistᴰ xs ys → Sublistᴰ xs (ys ++ y ∷ [])
  Sublist-skip y Sublistᴰ.slnil = Sublistᴰ.cons Sublistᴰ.slnil
  Sublist-skip y (Sublistᴰ.cons s) = Sublistᴰ.cons (Sublist-skip y s)
  Sublist-skip y (Sublistᴰ.cons-cons e s) = Sublistᴰ.cons-cons e (Sublist-skip y s)

  Sublist-keep : {xs ys : List A} (y : A) → Sublistᴰ xs ys → Sublistᴰ (xs ++ y ∷ []) (ys ++ y ∷ [])
  Sublist-keep y Sublistᴰ.slnil = Sublistᴰ.cons-cons refl Sublistᴰ.slnil
  Sublist-keep y (Sublistᴰ.cons s) = Sublistᴰ.cons (Sublist-keep y s)
  Sublist-keep y (Sublistᴰ.cons-cons e s) = Sublistᴰ.cons-cons e (Sublist-keep y s)

equals_self : (p : Pckt) → equals p.info p ≡ true
unfolding compare_packet_info
equals_self p = ground (arith, ==_refl p.info.src_ip)

is_covered-append :
    (i : PcktInfo) (e : ℤ × Pckt) (printed : List (ℤ × Pckt))
    → is_covered (printed ++ e ∷ []) i ≡ is_covered printed i || equals i e.1
is_covered-append i e [] = ground arith
is_covered-append i e (x ∷ printed) = ground (arith, is_covered-append i e printed)

covered-append :
    (e : ℤ × Pckt) (printed : List (ℤ × Pckt)) (is : List PcktInfo)
    → All (λ i. is_covered printed i ≡ true) is
    → All (λ i. is_covered (printed ++ e ∷ []) i ≡ true) is
covered-append e printed [] h = tt
covered-append e printed (i ∷ is) h =
    (ground (arith, is_covered-append i e printed, h.0), covered-append e printed is h.1)

agrees_covers :
    (i : PcktInfo) (printed : List (ℤ × Pckt))
    → any (agrees i) printed ≡ true
    → is_covered printed i ≡ true
agrees_covers i [] h = h
agrees_covers i ((q, p) ∷ printed) h = ground (arith, agrees_covers i printed, h)

-- A round after it took a packet out of the queue.
pub record Handled (p : Pckt) (popped : List PcktInfo) (h : Hunter) (s : End × Hunter)
    : Type 0 where
  pub same_queue : s.1.message_queue ≡ h.message_queue
  pub still_filed : IsFiled s.1.map s.1.printed
  pub still_ordered : Sublistᴰ (printed_infos s.1.printed) (popped ++ p.info ∷ [])
  pub now_covered :
      ends s.0 ≡ false → All (λ i. is_covered s.1.printed i ≡ true) (popped ++ p.info ∷ [])

killed_ends : (b : Bool) → ends (if b then killed else breaks) ≡ true
killed_ends true = refl
killed_ends false = refl

module _ (p : Pckt) (popped : List PcktInfo) (h : Hunter) (filed : IsFiled h.map h.printed)
    (ordered : Sublistᴰ (printed_infos h.printed) popped)
    (covered : All (λ i. is_covered h.printed i ≡ true) popped) where
  left_off : (end : End) → ends end ≡ true → Handled p popped h (end, h)
  left_off end ended = record {
    same_queue = refl;
    still_filed = filed;
    still_ordered = Sublist-skip p.info ordered;
    now_covered = λ e. cc (ended, e);
  }

  passed_over : contains_packet p.info h.map ≡ true → Handled p popped h (goes_on, h)
  passed_over e = record {
    same_queue = refl;
    still_filed = filed;
    still_ordered = Sublist-skip p.info ordered;
    now_covered = λ _.
        All-append (λ i. is_covered h.printed i ≡ true) popped (p.info ∷ []) covered
          (agrees_covers p.info h.printed (sym (filed.found p.info) ∙ e), tt);
  }

  kept_packet : (answer : Option ℤ) → Handled p popped h (keep_packet p answer h)
  unfolding keep_packet
  kept_packet none = left_off breaks refl
  kept_packet (some pid) = record {
    same_queue = refl;
    still_filed = insert-IsFiled pid p h.map h.printed filed;
    still_ordered =
        subst (λ l. Sublistᴰ l (popped ++ p.info ∷ []))
          (sym (map-append (λ e. e.1.info) h.printed ((pid, p) ∷ [])))
          (Sublist-keep p.info ordered);
    now_covered = λ _.
        All-append (λ i. is_covered (h.printed ++ (pid, p) ∷ []) i ≡ true) popped (p.info ∷ [])
          (covered-append (pid, p) h.printed popped covered)
          (ground (arith, is_covered-append p.info (pid, p) h.printed, equals_self p), tt);
  }

  pub handled :
      (c : UnixSocketClient) (r : Round) → Handled p popped h (handle_packet c r (some p) h)
  unfolding handle_packet
  handled c r = elim (Bool-cases (contains_packet p.info h.map)) [
    | inl e ↦ rw e (passed_over e)
    | inr e ↦ elim (Bool-cases (not (send_port c r.sent p.info.dst_port).0)) [
      | inl f ↦
          rw (e, f)
            (left_off (if is_killed c r.sent then killed else breaks)
              (killed_ends (is_killed c r.sent)))
      | inr f ↦
          rw (e, f) (kept_packet (receive_pid c (r.bytes (send_port c r.sent p.info.dst_port).1)))
    ]
  ]
