-- ===== src/Hunter/Save.antt =====
-- packet_hunter/src/main.cpp: the lines that are printed and saved. `inet_ntoa`, from the C library,
-- is an argument.
use hut_karish.Prelude.{
  ℕ, zero, suc, ◌+◌, ◌/◌, ◌%◌, ◌≡◌, refl, Bool, true, false, List, [], ◌∷◌, ◌++◌, map, append_assoc,
  map-append, Option, some, ◌>>=◌, ltb, ◌==◌, codes, Returns, Returns-bind, Returns-mono,
  append-nil, if◌then◌else◌, subst, sym, ap, ◌∙◌,
}
use hut_karish.Prelude.Int.{ℤ, pos, negsuc, minus_one, eq_ℤ}
use hut_karish.Packet.{PcktInfo, proto_tcp, proto_udp}
use hut_karish.Heap.{Pckt, Heap, Holds, free_packet_info, free_packet_info-Holds}
use hut_karish.Hunter.PacketMap.{PacketMap}

-- The decimal digits of a number, at most as many as the first argument and one more: nine are enough
-- for 32 bits.
unfoldable pub digits : ℕ → ℕ → List ℕ
digits zero n = (48 + n % 10) ∷ []
digits (suc more) n =
    let front = digits more (n / 10) in
    if ltb n 10 then (48 + n) ∷ [] else front ++ (48 + n % 10) ∷ []

abbrev decimal_ℤ : ℤ → List ℕ
decimal_ℤ (pos n) = digits 9 n
decimal_ℤ (negsuc n) = b'-' ∷ digits 9 (n + 1)

abbrev proto_name : ℕ → List ℕ → List ℕ
proto_name proto other =
    if proto == proto_tcp then codes "TCP" else if proto == proto_udp then codes "UDP" else other

-- An arrow between spaces, in UTF-8.
abbrev arrow : List ℕ
arrow = 32 ∷ 226 ∷ 134 ∷ 146 ∷ 32 ∷ []

abbrev endpoint : (ℕ → List ℕ) → ℕ → ℕ → List ℕ
endpoint inet_ntoa ip port = inet_ntoa ip ++ b':' ∷ digits 9 port

abbrev ends : (ℕ → List ℕ) → List ℕ → PcktInfo → List ℕ
ends inet_ntoa proto p =
    codes "Proto: "
    ++ proto
    ++ codes " | Src: "
    ++ endpoint inet_ntoa p.src_ip p.src_port
    ++ arrow
    ++ codes "Dst: "
    ++ endpoint inet_ntoa p.dst_ip p.dst_port

-- The line on the console.
unfoldable pub print_packet_info : (ℕ → List ℕ) → PcktInfo → ℤ → List ℕ
unfolding digits
print_packet_info inet_ntoa p pid =
    if eq_ℤ pid minus_one
    then codes "PID: unknown  | " ++ ends inet_ntoa (proto_name p.proto (codes "other")) p
    else codes "PID: "
      ++ decimal_ℤ pid
      ++ codes " | "
      ++ ends inet_ntoa (proto_name p.proto (codes "other")) p

-- The line of the file.
unfoldable pub saved_line : (ℕ → List ℕ) → ℤ → PcktInfo → List ℕ
unfolding digits
saved_line inet_ntoa pid p =
    codes "PID: "
    ++ decimal_ℤ pid
    ++ codes " | "
    ++ ends inet_ntoa (proto_name p.proto (codes "Other")) p

-- The inner loop: the lines that are written, and the heap after each packet was freed.
unfoldable pub save_packets :
    (ℕ → List ℕ) → ℤ → List Pckt → List (List ℕ) × Heap → Option (List (List ℕ) × Heap)
save_packets inet_ntoa pid [] (out, h) = some (out, h)
save_packets inet_ntoa pid (p ∷ ps) (out, h) = free_packet_info p h >>= λ h'.
    save_packets inet_ntoa pid ps (out ++ saved_line inet_ntoa pid p.info ∷ [], h')

unfoldable pub save_entries :
    (ℕ → List ℕ) → PacketMap → List (List ℕ) × Heap → Option (List (List ℕ) × Heap)
unfolding save_packets
save_entries inet_ntoa [] s = some s
save_entries inet_ntoa ((pid, packets) ∷ m) s =
    save_packets inet_ntoa pid packets s >>= save_entries inet_ntoa m

-- `opens` tells whether the file can be opened: if not, nothing is written and nothing freed.
unfoldable pub save_packet_map_to_file :
    (ℕ → List ℕ) → Bool → PacketMap → Heap → Option (List (List ℕ) × Heap)
unfolding save_entries
save_packet_map_to_file inet_ntoa opens m h =
    if opens then save_entries inet_ntoa m ([], h) else some ([], h)

-- The packets of the map with their pids, in the order of the loops, and their pointers.
abbrev pub entries : PacketMap → List (ℤ × Pckt)
entries [] = []
entries ((pid, packets) ∷ m) = map (λ p. (pid, p)) packets ++ entries m

abbrev pub pointers : List (ℤ × Pckt) → List Pckt
pointers = map λ e. e.1

abbrev pub line_of_entry : (ℕ → List ℕ) → ℤ × Pckt → List ℕ
line_of_entry inet_ntoa (pid, p) = saved_line inet_ntoa pid p.info

abbrev Saved :
    (ℕ → List ℕ) → List (ℤ × Pckt) → List Pckt → List (List ℕ) → List (List ℕ) × Heap → Type 0
Saved inet_ntoa es others out (out', h') =
    (out' ≡ out ++ map (line_of_entry inet_ntoa) es) × Holds h' others

pub pointers_of : (pid : ℤ) (ps : List Pckt) → pointers (map (λ p. (pid, p)) ps) ≡ ps
pointers_of pid [] = refl
pointers_of pid (p ∷ ps) = ap (◌∷◌ p) (pointers_of pid ps)

module _ (inet_ntoa : ℕ → List ℕ) where
  save_packets-Saved :
      (pid : ℤ) (ps others : List Pckt) (out : List (List ℕ)) (h : Heap)
      → Holds h (ps ++ others)
      → Returns
          (save_packets inet_ntoa pid ps (out, h))
          (Saved inet_ntoa (map (λ p. (pid, p)) ps) others out)
  unfolding save_packets
  save_packets-Saved pid [] others out h v = (sym (append-nil out), v)
  save_packets-Saved pid (p ∷ ps) others out h v =
      Returns-bind (λ h'. Holds h' (ps ++ others) × (h'.next ≡ h.next))
        (Saved inet_ntoa (map (λ q. (pid, q)) (p ∷ ps)) others out) _ _
        (free_packet_info-Holds p h (ps ++ others) v)
        λ h' t.
          Returns-mono
            (Saved inet_ntoa (map (λ q. (pid, q)) ps) others
              (out ++ saved_line inet_ntoa pid p.info ∷ []))
            (Saved inet_ntoa (map (λ q. (pid, q)) (p ∷ ps)) others out) _
            (λ s u. (u.0 ∙ append_assoc out _ _, u.1))
            (save_packets-Saved pid ps others (out ++ saved_line inet_ntoa pid p.info ∷ []) h' t.0)

  save_entries-Saved :
      (m : PacketMap) (others : List Pckt) (out : List (List ℕ)) (h : Heap)
      → Holds h (pointers (entries m) ++ others)
      → Returns (save_entries inet_ntoa m (out, h)) (Saved inet_ntoa (entries m) others out)
  unfolding save_entries
  save_entries-Saved [] others out h v = (sym (append-nil out), v)
  save_entries-Saved ((pid, ps) ∷ m) others out h v =
      Returns-bind (Saved inet_ntoa (map (λ p. (pid, p)) ps) (pointers (entries m) ++ others) out)
        (Saved inet_ntoa (entries ((pid, ps) ∷ m)) others out) _ _
        (save_packets-Saved pid ps (pointers (entries m) ++ others) out h (
          subst (Holds h)
            (ap (λ l. l ++ others) (map-append _ (map (λ p. (pid, p)) ps) (entries m))
              ∙ append_assoc (pointers (map (λ p. (pid, p)) ps)) _ others
              ∙ ap (λ l. l ++ (pointers (entries m) ++ others)) (pointers_of pid ps))
            v))
        λ s t.
          Returns-mono (Saved inet_ntoa (entries m) others s.0)
            (Saved inet_ntoa (entries ((pid, ps) ∷ m)) others out) _
            (λ s' u. (
              u.0
                  ∙ ap (λ l. l ++ map (line_of_entry inet_ntoa) (entries m)) t.0
                  ∙ append_assoc out _ _
                  ∙ ap (λ l. out ++ l)
                      (sym (
                        map-append (line_of_entry inet_ntoa) (map (λ p. (pid, p)) ps) (entries m))),
              u.1,
            ))
            (save_entries-Saved m others s.0 s.1 t.1)

  -- If the live memory is that of the packets of the map and of some others, saving to a file that
  -- can be opened returns without a fault, has written the line of each packet, with its pid, in the
  -- order of the map, and has freed the packets of the map and no others. To a file that cannot be
  -- opened nothing is written, and nothing is freed.
  pub save_packet_map_to_file-Holds :
      (opens : Bool) (m : PacketMap) (others : List Pckt) (h : Heap)
      → Holds h (pointers (entries m) ++ others)
      → Returns (save_packet_map_to_file inet_ntoa opens m h) (λ s.
        (s.0 ≡ (if opens then map (line_of_entry inet_ntoa) (entries m) else []))
        × Holds s.1 (if opens then others else pointers (entries m) ++ others))
  unfolding save_packet_map_to_file
  save_packet_map_to_file-Holds true m others h v = save_entries-Saved m others [] h v
  save_packet_map_to_file-Holds false m others h v = (refl, v)
