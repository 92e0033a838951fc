-- ===== src/Flow/Joining/Waiting.antt =====
-- The messages that wait in the socket, up to the first order to stop.
use hut_karish.Prelude.{
  ℕ, zero, suc, ◌≤◌, ◌<◌, ◌≡◌, refl, ap, sym, ◌∙◌, subst, true, List, [], ◌∷◌, ◌++◌, map, drop,
  length, length-append, arith, ◌==◌, ==_refl, if◌then◌else◌,
}
use hut_karish.Packet.{PcktInfo, is_stop}
use hut_karish.Kernel.State.{Kernel}
use hut_karish.Kernel.Reporting.{mask}
use hut_karish.Kernel.Stop.{StopSent}
use hut_karish.Kernel.Growing.{Grows}
use hut_karish.Flow.Watch.{inbox, inbox-append}
use hut_karish.Flow.Session.{unpaid, inbox-mask}

-- The position of the first order to stop, counted from 1; 0 if there is none.
abbrev pub until_stop : List PcktInfo → ℕ
until_stop [] = 0
until_stop (m ∷ ms) =
    let rest = until_stop ms in if is_stop m then 1 else if rest == 0 then 0 else suc rest

abbrev pub to_come : ℕ → ℕ → Kernel → ℕ
to_come d taken k = until_stop (drop taken (inbox d k.sent))

until_stop-unpaid : (ms : List PcktInfo) → until_stop (map unpaid ms) ≡ until_stop ms
unfolding is_stop
until_stop-unpaid [] = refl
until_stop-unpaid (m ∷ ms) = ground (arith, until_stop-unpaid ms)

until_stop-append :
    (ms ns : List PcktInfo) → 0 < until_stop ms → until_stop (ms ++ ns) ≡ until_stop ms
until_stop-append [] ns h = absurd (omega arith)
until_stop-append (m ∷ ms) ns h = ground (arith, until_stop-append ms ns)

until_stop-last :
    (ms : List PcktInfo) (m : PcktInfo) → is_stop m ≡ true → 0 < until_stop (ms ++ m ∷ [])
until_stop-last [] m h = ground arith
until_stop-last (x ∷ ms) m h = ground (arith, until_stop-last ms m h)

drop-map :
    (f : PcktInfo → PcktInfo) (n : ℕ) (ms : List PcktInfo) → drop n (map f ms) ≡ map f (drop n ms)
drop-map f n [] = refl
drop-map f zero (m ∷ ms) = refl
drop-map f (suc n) (m ∷ ms) = drop-map f n ms

drop-append : (n : ℕ) (ms ns : List PcktInfo) → n ≤ length ms → drop n (ms ++ ns) ≡ drop n ms ++ ns
drop-append zero [] [] h = refl
drop-append zero [] (x ∷ ns) h = refl
drop-append (suc n) [] ns h = absurd (omega arith)
drop-append zero (m ∷ ms) ns h = refl
drop-append (suc n) (m ∷ ms) ns h = drop-append n ms ns (omega arith)

-- The masked messages, as the theorems on the hook have them.
abbrev heard : ℕ → List (ℕ × PcktInfo) → List PcktInfo
heard d ms = inbox d (map mask ms)

heard_until :
    (d n : ℕ) (ms : List (ℕ × PcktInfo))
    → until_stop (drop n (heard d ms)) ≡ until_stop (drop n (inbox d ms))
heard_until d n ms =
    ap (λ l. until_stop (drop n l)) (inbox-mask d ms)
    ∙ ap until_stop (drop-map unpaid n (inbox d ms))
    ∙ until_stop-unpaid (drop n (inbox d ms))

length-unpaid : (ms : List PcktInfo) → length (map unpaid ms) ≡ length ms
length-unpaid [] = refl
length-unpaid (m ∷ ms) = ap suc (length-unpaid ms)

heard_length : (d : ℕ) (ms : List (ℕ × PcktInfo)) → length (heard d ms) ≡ length (inbox d ms)
heard_length d ms = ap length (inbox-mask d ms) ∙ length-unpaid (inbox d ms)

module _ (d n : ℕ) (k k' : Kernel) where
  -- More was sent.
  pub Grows-length : Grows k k' → n ≤ length (inbox d k.sent) → n ≤ length (inbox d k'.sent)
  Grows-length (new, more) le =
      let longer = ap length (ap (inbox d) more ∙ inbox-append d (map mask k.sent) new) in
      let both = length-append (heard d k.sent) (inbox d new) in
      omega (arith, longer, both, heard_length d k.sent, heard_length d k'.sent)

  pub Grows-to_come :
      Grows k k' → n ≤ length (inbox d k.sent) → 0 < to_come d n k → to_come d n k' ≡ to_come d n k
  Grows-to_come (new, more) le some_stop =
      sym (heard_until d n k'.sent)
      ∙ ap (λ l. until_stop (drop n l)) (ap (inbox d) more ∙ inbox-append d (map mask k.sent) new)
      ∙ ap until_stop
          (drop-append n (heard d k.sent) (inbox d new) (omega (arith, heard_length d k.sent)))
      ∙ until_stop-append (drop n (heard d k.sent)) (inbox d new)
          (omega (arith, heard_until d n k.sent))
      ∙ heard_until d n k.sent

  -- The order to stop comes last.
  pub StopSent-to_come :
      StopSent d k k'
      → n ≤ length (inbox d k.sent)
      → (0 < to_come d n k') × (n ≤ length (inbox d k'.sent))
  StopSent-to_come (m, sent, stops) le =
      let whole : inbox d k'.sent ≡ inbox d k.sent ++ m ∷ [] =
        ap (inbox d) sent
        ∙ inbox-append d k.sent ((d, m) ∷ [])
        ∙ ap (λ b. inbox d k.sent ++ (if b then m ∷ [] else [])) (==_refl d) in
      (
        subst (λ l. 0 < until_stop l)
            (sym (ap (drop n) whole ∙ drop-append n (inbox d k.sent) (m ∷ []) le))
            (until_stop-last (drop n (inbox d k.sent)) m stops),
        omega (arith, ap length whole, length-append (inbox d k.sent) (m ∷ [])),
      )

drop_zero : (l : List PcktInfo) → drop 0 l ≡ l
drop_zero [] = refl
drop_zero (x ∷ l) = refl

-- The first message is received.
pub drop_one :
    (n : ℕ) (l ms : List PcktInfo) (m : PcktInfo)
    → drop n l ≡ m ∷ ms
    → (drop (suc n) l ≡ ms) × (suc n ≤ length l)
drop_one n [] ms m h = cc
drop_one zero (x ∷ l) ms m h = ground (arith, h, drop_zero l)
drop_one (suc n) (x ∷ l) ms m h = let (rest, le) = drop_one n l ms m h in (rest, omega arith)
