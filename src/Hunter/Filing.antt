-- ===== src/Hunter/Filing.antt =====
-- The map of the packet hunter and the packets that it printed.
use hut_karish.Prelude.{
  ◌≡◌, refl, ap, sym, ◌∙◌, Bool, false, not, ◌&&◌, ◌||◌, List, [], ◌∷◌, ◌++◌, append-nil, arith,
  any, if◌then◌else◌,
}
use hut_karish.Prelude.Int.{ℤ, minus_one, eq_ℤ, eq_ℤ_iff}
use hut_karish.Prelude.Assoc.{find, find-assign, int_eq}
use hut_karish.Packet.{PcktInfo}
use hut_karish.Heap.{Pckt}
use hut_karish.Hunter.PacketMap.{
  PacketMap, equals, contains_packet, insert_packet_info, vector_or_empty,
}
use hut_karish.Hunter.Unique.{contains_packet-count, count-insert_packet_info}

-- The packets that were printed with a pid, in order.
abbrev pub printed_for : ℤ → List (ℤ × Pckt) → List Pckt
printed_for pid [] = []
printed_for pid ((q, p) ∷ ps) =
    let rest = printed_for pid ps in if eq_ℤ q pid then p ∷ rest else rest

-- A packet that was printed with a known pid and compares equal to `new`.
abbrev pub agrees : PcktInfo → ℤ × Pckt → Bool
agrees new (q, p) = not (eq_ℤ q minus_one) && equals new p

-- The map holds what was printed with a known pid: the vector of each pid, in order, and no packet
-- besides.
pub record IsFiled (m : PacketMap) (printed : List (ℤ × Pckt)) : Type 0 where
  pub vectors :
      (pid : ℤ)
      → eq_ℤ pid minus_one ≡ false
      → vector_or_empty (find pid m) ≡ printed_for pid printed
  pub found : (new : PcktInfo) → contains_packet new m ≡ any (agrees new) printed

printed_for-append :
    (pid q : ℤ) (p : Pckt) (ps : List (ℤ × Pckt))
    → printed_for pid (ps ++ (q, p) ∷ [])
      ≡ printed_for pid ps ++ (if eq_ℤ q pid then p ∷ [] else [])
printed_for-append pid q p [] = ground arith
printed_for-append pid q p ((j, x) ∷ ps) = ground (arith, printed_for-append pid q p ps)

any-append_one {ℓ} :
    {A : Type ℓ} (f : A → Bool) (xs : List A) (y : A) → any f (xs ++ y ∷ []) ≡ any f xs || f y
any-append_one f [] y = ground arith
any-append_one f (x ∷ xs) y = ground (arith, any-append_one f xs y)

vector_of_insert :
    (pid q : ℤ) (p : Pckt) (m : PacketMap)
    → eq_ℤ pid minus_one ≡ false
    → vector_or_empty (find pid (insert_packet_info q p m))
      ≡ vector_or_empty (find pid m) ++ (if eq_ℤ q pid then p ∷ [] else [])
unfolding insert_packet_info
vector_of_insert pid q p m known = ground (
  arith,
  eq_ℤ_iff q minus_one,
  eq_ℤ_iff q pid,
  find-assign q pid (vector_or_empty (find q m) ++ p ∷ []) m,
  append-nil (vector_or_empty (find pid m)),
)

contains-insert :
    (new : PcktInfo) (q : ℤ) (p : Pckt) (m : PacketMap)
    → contains_packet new (insert_packet_info q p m) ≡ contains_packet new m || agrees new (q, p)
contains-insert new q p m = ground (
  arith,
  contains_packet-count new m,
  contains_packet-count new (insert_packet_info q p m),
  count-insert_packet_info new q p m,
)

-- A packet is printed and inserted, whatever its pid.
pub insert-IsFiled :
    (q : ℤ) (p : Pckt) (m : PacketMap) (printed : List (ℤ × Pckt))
    → IsFiled m printed
    → IsFiled (insert_packet_info q p m) (printed ++ (q, p) ∷ [])
insert-IsFiled q p m printed v = record {
  vectors = λ pid known.
      vector_of_insert pid q p m known
      ∙ ap (λ l. l ++ (if eq_ℤ q pid then p ∷ [] else [])) (v.vectors pid known)
      ∙ sym (printed_for-append pid q p printed);
  found = λ new.
      contains-insert new q p m
      ∙ ap (λ b. b || agrees new (q, p)) (v.found new)
      ∙ sym (any-append_one (agrees new) printed (q, p));
}

pub nothing-IsFiled : IsFiled [] []
unfolding find contains_packet
nothing-IsFiled = record { vectors = λ pid known. refl; found = λ new. refl }
