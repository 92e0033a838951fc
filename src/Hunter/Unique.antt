-- ===== src/Hunter/Unique.antt =====
-- No two packets of the map compare equal.
use hut_karish.Prelude.{
  ℕ, ◌+◌, ◌≤◌, ◌≡◌, refl, true, false, ◌&&◌, not, List, [], ◌∷◌, ◌++◌, Bool-cases, inl, inr, arith,
  ◌==◌, if◌then◌else◌, any,
}
use hut_karish.Prelude.Int.{ℤ, minus_one, eq_ℤ}
use hut_karish.Prelude.Assoc.{find, assign, int_eq}
use hut_karish.Packet.{PcktInfo}
use hut_karish.Heap.{Pckt}
use hut_karish.Hunter.PacketMap.{
  PacketMap, compare_packet_info, equals, contains_packet, vector_or_empty, insert_packet_info,
}

-- How many packets of a vector, and of the map, compare equal to one.
abbrev count_in : PcktInfo → List Pckt → ℕ
count_in new [] = 0
count_in new (p ∷ ps) = (if equals new p then 1 else 0) + count_in new ps

abbrev pub count : PcktInfo → PacketMap → ℕ
count new [] = 0
count new ((pid, packets) ∷ m) = count_in new packets + count new m

count_in-any : (new : PcktInfo) (ps : List Pckt) → any (equals new) ps ≡ not (count_in new ps == 0)
count_in-any new [] = refl
count_in-any new (p ∷ ps) = ground (arith, count_in-any new ps)

-- `containsPacket` says whether there is one.
pub contains_packet-count :
    (new : PcktInfo) (m : PacketMap) → contains_packet new m ≡ not (count new m == 0)
unfolding contains_packet
contains_packet-count new [] = refl
contains_packet-count new ((pid, ps) ∷ m) =
    ground (arith, count_in-any new ps, contains_packet-count new m)

count_in-append :
    (new : PcktInfo) (ps qs : List Pckt)
    → count_in new (ps ++ qs) ≡ count_in new ps + count_in new qs
count_in-append new [] qs = omega arith
count_in-append new (p ∷ ps) qs = omega (arith, count_in-append new ps qs)

count-assign :
    (new : PcktInfo) (pid : ℤ) (ps : List Pckt) (m : PacketMap)
    → count new (assign pid ps m) + count_in new (vector_or_empty (find pid m))
      ≡ count new m + count_in new ps
unfolding find assign
count-assign new pid ps [] = omega arith
count-assign new pid ps ((j, qs) ∷ m) = ground (arith, count-assign new pid ps m)

count-push :
    (new : PcktInfo) (pid : ℤ) (p : Pckt) (m : PacketMap)
    → count new (assign pid (vector_or_empty (find pid m) ++ p ∷ []) m)
      ≡ count new m + (if equals new p then 1 else 0)
count-push new pid p m = omega (
  arith,
  count-assign new pid (vector_or_empty (find pid m) ++ p ∷ []) m,
  count_in-append new (vector_or_empty (find pid m)) (p ∷ []),
)

-- An insertion adds one to the number of packets that agree with a given one if its own packet does
-- and its pid is not -1, and changes the number in no other case.
pub count-insert_packet_info :
    (new : PcktInfo) (pid : ℤ) (p : Pckt) (m : PacketMap)
    → count new (insert_packet_info pid p m)
      ≡ count new m + (if not (eq_ℤ pid minus_one) && equals new p then 1 else 0)
unfolding insert_packet_info
count-insert_packet_info new pid p m = elim (Bool-cases (eq_ℤ pid minus_one)) [
  | inl h ↦ rw h (omega arith)
  | inr h ↦ rw h (count-push new pid p m)
]

-- The fields that are compared.
record SameFields (a b : PcktInfo) : Type 0 where
  src_ip : a.src_ip ≡ b.src_ip
  dst_ip : a.dst_ip ≡ b.dst_ip
  src_port : a.src_port ≡ b.src_port
  dst_port : a.dst_port ≡ b.dst_port
  proto : a.proto ≡ b.proto

compare-SameFields : (a b : PcktInfo) → compare_packet_info a b ≡ true → SameFields a b
unfolding compare_packet_info
compare-SameFields a b h = ground arith

compare_same :
    (c a b : PcktInfo) → SameFields a b → compare_packet_info c a ≡ compare_packet_info c b
unfolding compare_packet_info
compare_same c a b s = λ i.
    c.src_ip == s.src_ip i
    && (c.dst_ip == s.dst_ip i
        && (c.src_port == s.src_port i && (c.dst_port == s.dst_port i && c.proto == s.proto i)))

count_in-same : (a b : PcktInfo) (ps : List Pckt) → SameFields a b → count_in a ps ≡ count_in b ps
count_in-same a b [] s = refl
count_in-same a b (p ∷ ps) s = rw (compare_same p.info a b s, count_in-same a b ps s) refl

count-same : (a b : PcktInfo) (m : PacketMap) → SameFields a b → count a m ≡ count b m
count-same a b [] s = refl
count-same a b ((pid, ps) ∷ m) s = rw (count_in-same a b ps s, count-same a b m s) refl

abbrev pub IsUnique : PacketMap → Type 0
IsUnique m = (new : PcktInfo) → count new m ≤ 1

-- A packet that the map does not contain can be inserted.
pub insert-IsUnique :
    (pid : ℤ) (p : Pckt) (m : PacketMap)
    → contains_packet p.info m ≡ false
    → IsUnique m
    → IsUnique (insert_packet_info pid p m)
insert-IsUnique pid p m absent u new = elim (Bool-cases (equals new p)) [
  | inl h ↦
      let none_yet = contains_packet-count p.info m in
      let same = count-same p.info new m (compare-SameFields p.info new h) in
      ground (arith, none_yet, same, count-insert_packet_info new pid p m)
  | inr h ↦ ground (arith, u new, count-insert_packet_info new pid p m)
]
