-- ===== src/Hunter/Freeing.antt =====
-- packet_hunter/src/main.cpp: the freeing of the map when it is not saved.
use hut_karish.Prelude.{
  ◌≡◌, refl, List, [], ◌∷◌, ◌++◌, map, append_assoc, map-append, Option, some, ◌>>=◌, Returns,
  Returns-bind, subst, ap, ◌∙◌,
}
use hut_karish.Heap.{Pckt, Heap, Holds, free_packet_info, free_packet_info-Holds}
use hut_karish.Hunter.PacketMap.{PacketMap}
use hut_karish.Hunter.Save.{entries, pointers, pointers_of}

-- The loops of `main` that free the map when it is not saved.
unfoldable pub free_packets : List Pckt → Heap → Option Heap
free_packets [] h = some h
free_packets (p ∷ ps) h = free_packet_info p h >>= free_packets ps

unfoldable pub free_entries : PacketMap → Heap → Option Heap
unfolding free_packets
free_entries [] h = some h
free_entries ((pid, packets) ∷ m) h = free_packets packets h >>= free_entries m

free_packets-Holds :
    (ps others : List Pckt) (h : Heap)
    → Holds h (ps ++ others)
    → Returns (free_packets ps h) (λ h'. Holds h' others)
unfolding free_packets
free_packets-Holds [] others h v = v
free_packets-Holds (p ∷ ps) others h v =
    Returns-bind (λ h'. Holds h' (ps ++ others) × (h'.next ≡ h.next)) (λ h'. Holds h' others) _ _
      (free_packet_info-Holds p h (ps ++ others) v) λ h' t. free_packets-Holds ps others h' t.0

-- The pointers of the map.
abbrev pub kept : PacketMap → List Pckt
kept [] = []
kept ((pid, packets) ∷ m) = packets ++ kept m

pub free_entries-Holds :
    (m : PacketMap) (others : List Pckt) (h : Heap)
    → Holds h (kept m ++ others)
    → Returns (free_entries m h) (λ h'. Holds h' others)
unfolding free_entries
free_entries-Holds [] others h v = v
free_entries-Holds ((pid, packets) ∷ m) others h v =
    Returns-bind (λ h'. Holds h' (kept m ++ others)) (λ h'. Holds h' others) _ _
      (free_packets-Holds packets (kept m ++ others) h
        (subst (Holds h) (append_assoc packets (kept m) others) v))
      λ h' t. free_entries-Holds m others h' t

pub pointers-entries : (m : PacketMap) → pointers (entries m) ≡ kept m
pointers-entries [] = refl
pointers-entries ((pid, packets) ∷ m) =
    map-append _ (map (λ p. (pid, p)) packets) (entries m)
    ∙ ap (λ l. l ++ pointers (entries m)) (pointers_of pid packets)
    ∙ ap (λ l. packets ++ l) (pointers-entries m)
