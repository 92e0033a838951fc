-- ===== src/Flow/Reception.antt =====
-- The receiver thread of a client on the messages of its netlink socket.
use hut_karish.Prelude.{ℕ, ◌+◌, ◌≡◌, refl, ap, ◌∙◌, true, false, List, [], ◌∷◌, ◌++◌, map, All}
use hut_karish.Packet.{PcktInfo, InRange, is_stop}
use hut_karish.NetLink.Wire.{Padding}
use hut_karish.Receiver.{Shared, Round, recv_packet_info_thread}
use hut_karish.Receiver.Delivery.{Message, rounds, round_of, infos, IsReport, thread_delivers}

-- What nobody sets: the padding of the n-th message, and what the buffer holds that receives it.
pub record Noise : Type 0 where
  pub padding : ℕ → Padding
  pub buffer : ℕ → List ℕ

abbrev message : Noise → ℕ → PcktInfo → Message
message z n i = record { info = i; padding = z.padding n; buffer = z.buffer n }

-- The rounds that receive the messages of an inbox.
abbrev pub received_from : Noise → ℕ → List PcktInfo → List Round
received_from z n [] = []
received_from z n (i ∷ is) = round_of i (z.padding n) (z.buffer n) ∷ received_from z (n + 1) is

abbrev messages : Noise → ℕ → List PcktInfo → List Message
messages z n [] = []
messages z n (i ∷ is) = message z n i ∷ messages z (n + 1) is

abbrev end_of : ℕ → List PcktInfo → ℕ
end_of n [] = n
end_of n (i ∷ is) = end_of (n + 1) is

rounds-messages :
    (z : Noise) (n : ℕ) (is : List PcktInfo) (stop : PcktInfo) (later : List Round)
    → received_from z n (is ++ stop ∷ []) ++ later
      ≡ rounds (messages z n is)
        ++ round_of stop (z.padding (end_of n is)) (z.buffer (end_of n is)) ∷ later
rounds-messages z n [] stop later = refl
rounds-messages z n (i ∷ is) stop later =
    ap (◌∷◌ (round_of i (z.padding n) (z.buffer n))) (rounds-messages z (n + 1) is stop later)

infos-messages : (z : Noise) (n : ℕ) (is : List PcktInfo) → map (λ m. m.info) (messages z n is) ≡ is
infos-messages z n [] = refl
infos-messages z n (i ∷ is) = ap (◌∷◌ i) (infos-messages z (n + 1) is)

abbrev pub IsPlain : PcktInfo → Type 0
IsPlain i = InRange i × (is_stop i ≡ false)

IsReport-messages :
    (z : Noise) (n : ℕ) (is : List PcktInfo) → All IsPlain is → All IsReport (messages z n is)
IsReport-messages z n [] h = tt
IsReport-messages z n (i ∷ is) h = (h.0, IsReport-messages z (n + 1) is h.1)

-- The receiver on an inbox that ends in an order to stop.
pub receive_inbox :
    (z : Noise) (is : List PcktInfo) (stop : PcktInfo) (later : List Round) (s : Shared)
    → All IsPlain is
    → InRange stop
    → is_stop stop ≡ true
    → infos (recv_packet_info_thread (received_from z 0 (is ++ stop ∷ []) ++ later) s)
      ≡ infos s ++ is
receive_inbox z is stop later s plain range stops =
    ap (λ l. infos (recv_packet_info_thread l s)) (rounds-messages z 0 is stop later)
    ∙ thread_delivers (messages z 0 is) (message z (end_of 0 is) stop) later s
        (IsReport-messages z 0 is plain) range stops
    ∙ ap (λ l. infos s ++ l) (infos-messages z 0 is)
