-- ===== src/Hunter/PacketMap.antt =====
-- packet_hunter/src/PidToPacketsInfoMap.cpp.
use hut_karish.Prelude.{
  Bool, false, ◌&&◌, ◌||◌, List, [], ◌∷◌, ◌++◌, Option, none, some, ◌==◌, if◌then◌else◌, any,
}
use hut_karish.Prelude.Int.{ℤ, minus_one, eq_ℤ}
use hut_karish.Prelude.Assoc.{find, assign, int_eq}
use hut_karish.Packet.{PcktInfo}
use hut_karish.Heap.{Pckt}

-- The vector of each pid, oldest packet first.
abbrev pub PacketMap : Type 0
PacketMap = List (ℤ × List Pckt)

unfoldable pub compare_packet_info : PcktInfo → PcktInfo → Bool
compare_packet_info a b =
    a.src_ip == b.src_ip
    && (a.dst_ip == b.dst_ip
        && (a.src_port == b.src_port && (a.dst_port == b.dst_port && a.proto == b.proto)))

abbrev pub equals : PcktInfo → Pckt → Bool
equals new p = compare_packet_info p.info new

unfoldable pub contains_packet : PcktInfo → PacketMap → Bool
contains_packet new [] = false
contains_packet new ((pid, packets) ∷ m) = any (equals new) packets || contains_packet new m

abbrev pub vector_or_empty : Option (List Pckt) → List Pckt
vector_or_empty none = []
vector_or_empty (some packets) = packets

-- map[pid].push_back(packet), after an empty vector was put where there was none.
unfoldable pub insert_packet_info : ℤ → Pckt → PacketMap → PacketMap
insert_packet_info pid new m =
    if eq_ℤ pid minus_one then m else assign pid (vector_or_empty (find pid m) ++ new ∷ []) m
