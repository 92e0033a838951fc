-- ===== src/Hunter/Order.antt =====
-- packet_hunter/src/main.cpp and PidToPacketsInfoMap.cpp: what the order of the map's entries changes.
use mathlib.Core.List.{Permᴰ}
use mathlib.Core.List.Permᴰ
use hut_karish.Prelude.{
  ◌≡◌, refl, sym, subst, ◌∙◌, not, List, [], ◌∷◌, ◌++◌, map, append_assoc, Option, none, some,
  Bool-cases, inl, inr, arith,
}
use hut_karish.Prelude.Int.{ℤ, minus_one, eq_ℤ}
use hut_karish.Prelude.Assoc.{find, int_eq}
use hut_karish.Prelude.Reorder.{IsDistinct, Permᴰ-IsDistinct, assign-IsDistinct, assign-Permᴰ}
use hut_karish.Packet.{PcktInfo}
use hut_karish.Heap.{Pckt}
use hut_karish.Hunter.PacketMap.{PacketMap, contains_packet, insert_packet_info, vector_or_empty}
use hut_karish.Hunter.Client.{UnixSocketClient, send_port, receive_pid}
use hut_karish.Hunter.Loop.{Hunter, Round, End, goes_on, breaks, keep_packet, handle_packet}
use hut_karish.Hunter.Save.{entries}

pub contains_packet-Permᴰ :
    (new : PcktInfo) {m n : PacketMap} → Permᴰ m n → contains_packet new m ≡ contains_packet new n
unfolding contains_packet
contains_packet-Permᴰ new Permᴰ.nil = refl
contains_packet-Permᴰ new (Permᴰ.cons same p) = ground (arith, contains_packet-Permᴰ new p, same)
contains_packet-Permᴰ new (Permᴰ.swap f g) = ground (arith, f, g)
contains_packet-Permᴰ new (Permᴰ.trans p q) =
    contains_packet-Permᴰ new p ∙ contains_packet-Permᴰ new q

insert_packet_info-Permᴰ :
    (pid : ℤ) (p : Pckt) {m n : PacketMap}
    → Permᴰ m n
    → IsDistinct m
    → Permᴰ (insert_packet_info pid p m) (insert_packet_info pid p n)
      × IsDistinct (insert_packet_info pid p m)
unfolding insert_packet_info
insert_packet_info-Permᴰ pid p {m} {n} q d = elim (Bool-cases (eq_ℤ pid minus_one)) [
  | inl e ↦ rw e (q, d)
  | inr e ↦
      rw (e, sym ((Permᴰ-IsDistinct q d).1 pid))
        (
          assign-Permᴰ pid (vector_or_empty (find pid m) ++ p ∷ []) q d,
          assign-IsDistinct pid (vector_or_empty (find pid m) ++ p ∷ []) m d,
        )
]

abbrev pub with_map : PacketMap → Hunter → Hunter
with_map m h = record h { map = m }

-- `s'` is `s` but for the order of the map.
pub record Alike (s s' : End × Hunter) : Type 0 where
  pub map_after : PacketMap
  pub reorders : Permᴰ s.1.map map_after
  pub distinct : IsDistinct s.1.map
  pub same : s' ≡ (s.0, with_map map_after s.1)

module _ (h : Hunter) (m : PacketMap) (q : Permᴰ h.map m) (d : IsDistinct h.map) where
  unchanged : (e : End) → Alike (e, h) (e, with_map m h)
  unchanged e = record { map_after = m; reorders = q; distinct = d; same = refl }

  keep_packet-Alike :
      (p : Pckt) (answer : Option ℤ)
      → Alike (keep_packet p answer h) (keep_packet p answer (with_map m h))
  unfolding keep_packet
  keep_packet-Alike p none = unchanged breaks
  keep_packet-Alike p (some pid) =
      let (r, u) = insert_packet_info-Permᴰ pid p q d in
      record { map_after = insert_packet_info pid p m; reorders = r; distinct = u; same = refl }

  pub handle_packet-Alike :
      (c : UnixSocketClient) (r : Round) (o : Option Pckt)
      → Alike (handle_packet c r o h) (handle_packet c r o (with_map m h))
  unfolding handle_packet
  handle_packet-Alike c r none = unchanged _
  handle_packet-Alike c r (some p) = elim (Bool-cases (contains_packet p.info h.map)) [
    | inl e ↦ rw (sym (contains_packet-Permᴰ p.info q), e) (unchanged goes_on)
    | inr e ↦ elim (Bool-cases (not (send_port c r.sent p.info.dst_port).0)) [
      | inl f ↦ rw (sym (contains_packet-Permᴰ p.info q), e, f) (unchanged _)
      | inr f ↦
          rw (sym (contains_packet-Permᴰ p.info q), e, f)
            (keep_packet-Alike p (receive_pid c (r.bytes (send_port c r.sent p.info.dst_port).1)))
    ]
  ]

swap_entries :
    (a b : ℤ × List Pckt) (l : PacketMap) → Permᴰ (entries (a ∷ b ∷ l)) (entries (b ∷ a ∷ l))
swap_entries (i, ps) (j, qs) l =
    let xs = map (λ p. (i, p)) ps in
    let ys = map (λ p. (j, p)) qs in
    subst (λ x. Permᴰ (xs ++ (ys ++ entries l)) x) (append_assoc ys xs (entries l))
      (subst (λ x. Permᴰ x ((ys ++ xs) ++ entries l)) (append_assoc xs ys (entries l))
        (Permᴰ.append_right (entries l) (Permᴰ.append_comm xs ys)))

pub entries-Permᴰ : {m n : PacketMap} → Permᴰ m n → Permᴰ (entries m) (entries n)
entries-Permᴰ Permᴰ.nil = Permᴰ.nil
entries-Permᴰ (Permᴰ.cons {a} {b} {l₁} {l₂} same p) =
    subst (λ x. Permᴰ (entries (a ∷ l₁)) (entries (x ∷ l₂))) same
      (Permᴰ.append_left _ (entries-Permᴰ p))
entries-Permᴰ (Permᴰ.swap {a} {b} {a'} {b'} {l} f g) =
    subst (λ x. Permᴰ (entries (a ∷ b ∷ l)) (entries (a' ∷ x ∷ l))) f
      (subst (λ x. Permᴰ (entries (a ∷ b ∷ l)) (entries (x ∷ a ∷ l))) g (swap_entries a b l))
entries-Permᴰ (Permᴰ.trans p q) = Permᴰ.trans (entries-Permᴰ p) (entries-Permᴰ q)
