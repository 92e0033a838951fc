-- ===== src/Flow/Prefix.antt =====
-- A receiver that has not read its whole inbox yet.
use hut_karish.Prelude.{
  ℕ, zero, suc, ◌+◌, ◌≡◌, refl, ap, ◌∙◌, map, Bool, true, false, List, [], ◌∷◌, ◌++◌, All, take,
}
use hut_karish.Packet.{PcktInfo, InRange, is_stop}
use hut_karish.Kernel.State.{Kernel}
use hut_karish.Kernel.Hook.{Report}
use hut_karish.NetLink.Wire.{receive_packet_info-message_of}
use hut_karish.Receiver.{Round}
use hut_karish.Receiver.Taking.{reception}
use hut_karish.Flow.Watch.{inbox}
use hut_karish.Flow.Reception.{Noise, received_from, IsPlain}
use hut_karish.Kernel.Reporting.{info}
use hut_karish.Flow.Session.{unpaid, Delivered}

-- What the rounds of a receiver add to the queue.
abbrev pub taken_all : Bool → List Round → List PcktInfo
taken_all listening [] = []
taken_all listening (r ∷ rs) = (reception listening r).1 ++ taken_all (reception listening r).0 rs

-- After the order to stop nothing is taken.
taken_after : (rs : List Round) → taken_all false rs ≡ []
taken_after [] = refl
taken_after (r ∷ rs) = taken_after rs

map-take :
    (f : PcktInfo → PcktInfo) (n : ℕ) (is : List PcktInfo) → map f (take n is) ≡ take n (map f is)
map-take f zero [] = refl
map-take f zero (i ∷ is) = refl
map-take f (suc n) [] = refl
map-take f (suc n) (i ∷ is) = ap (◌∷◌ (f i)) (map-take f n is)

-- What is taken is the first of what was sent, as much as there were rounds.
prefix_taken :
    (rounds : ℕ) (z : Noise) (n : ℕ) (is : List PcktInfo) (stop : PcktInfo) (later : List Round)
    → All IsPlain is
    → InRange stop
    → is_stop stop ≡ true
    → taken_all true (take rounds (received_from z n (is ++ stop ∷ []) ++ later)) ≡ take rounds is
prefix_taken zero z n [] stop later plain fits stops = refl
prefix_taken zero z n (i ∷ is) stop later plain fits stops = refl
prefix_taken (suc rounds) z n [] stop later plain fits stops =
    rw (receive_packet_info-message_of stop (z.padding n) (z.buffer n) fits, stops)
      (taken_after (take rounds later))
prefix_taken (suc rounds) z n (i ∷ is) stop later plain fits stops =
    rw (receive_packet_info-message_of i (z.padding n) (z.buffer n) plain.0.0, plain.0.1)
      (ap (◌∷◌ i) (prefix_taken rounds z (n + 1) is stop later plain.1 fits stops))

-- A client that has had so many rounds of its receiver for what it was sent.
pub inbox_taken :
    (d : ℕ) (z : Noise) (rounds : ℕ) (later : List Round) (rs : List Report) (k : Kernel)
    → Delivered d rs k
    → map unpaid (taken_all true (take rounds (received_from z 0 (inbox d k.sent) ++ later)))
      ≡ take rounds (map info rs)
inbox_taken d z rounds later rs k v =
    ap (λ l. map unpaid (taken_all true (take rounds (received_from z 0 l ++ later)))) v.split
    ∙ ap (map unpaid) (prefix_taken rounds z 0 v.packets v.stop later v.plain v.stop_fits v.stops)
    ∙ map-take unpaid rounds v.packets
    ∙ ap (take rounds) v.heard
