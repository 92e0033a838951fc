-- ===== src/Heap.antt =====
-- The packet information that a client allocates with `new` and frees with `delete`.
use hut_karish.Prelude.{
  append-nil, append_assoc, ℕ, ◌+◌, ◌≤◌, ◌≡◌, refl, sym, subst, ◌∙◌, Bool, true, false, ◌||◌, List,
  [], ◌∷◌, ◌++◌, Option, none, some, arith, ◌==◌, any, Returns, if◌then◌else◌,
}
use hut_karish.Packet.{PcktInfo}

-- A pointer to an allocated `pckt_info`, with what it points to: it is not written after `new`.
pub record Pckt : Type 0 where
  pub addr : ℕ
  pub info : PcktInfo

pub record Heap : Type 0 where
  pub live : ℕ → Bool
  pub next : ℕ

abbrev pub no_heap : Heap
no_heap = record { live = λ _. false; next = 0 }

-- new pckt_info, filled with what was received.
unfoldable pub allocate : PcktInfo → Heap → Pckt × Heap
allocate info h = (
  record { addr = h.next; info = info },
  record { live = λ a. if a == h.next then true else h.live a; next = h.next + 1 },
)

-- delete pckt: `none` is a fault, memory that is not live.
unfoldable pub free_packet_info : Pckt → Heap → Option Heap
free_packet_info p h =
    if h.live p.addr
    then some (record h { live = λ a. if a == p.addr then false else h.live a })
    else none

abbrev pub points : ℕ → List Pckt → Bool
points a = any λ p. p.addr == a

abbrev pub Distinct : List Pckt → Type 0
Distinct [] = Unit
Distinct (p ∷ ps) = (points p.addr ps ≡ false) × Distinct ps

-- The live memory is what the pointers of a list point to, each to memory of its own.
pub record Holds (h : Heap) (ps : List Pckt) : Type 0 where
  pub exact : (a : ℕ) → h.live a ≡ points a ps
  pub distinct : Distinct ps
  pub fresh : (a : ℕ) → h.next ≤ a → h.live a ≡ false

pub Holds-no_heap : Holds no_heap []
Holds-no_heap = record { exact = λ a. refl; distinct = tt; fresh = λ a h. refl }

points-append : (a : ℕ) (ps qs : List Pckt) → points a (ps ++ qs) ≡ (points a ps || points a qs)
points-append a [] qs = refl
points-append a (p ∷ ps) qs = ground (arith, points-append a ps qs)

-- A new pointer, at any place of the list.
Distinct-insert :
    (ps : List Pckt) (p : Pckt) (qs : List Pckt)
    → points p.addr (ps ++ qs) ≡ false
    → Distinct (ps ++ qs)
    → Distinct (ps ++ p ∷ qs)
Distinct-insert [] p qs new d = (new, d)
Distinct-insert (q ∷ ps) p qs new d = (
  ground (arith, points-append q.addr ps qs, points-append q.addr ps (p ∷ qs)),
  Distinct-insert ps p qs (ground arith) d.1,
)

-- Allocation adds one pointer, wherever the program keeps it.
pub allocate-Holds :
    (info : PcktInfo) (h : Heap) (ps qs : List Pckt)
    → Holds h (ps ++ qs)
    → Holds (allocate info h).1 (ps ++ (allocate info h).0 ∷ qs)
unfolding allocate
allocate-Holds info h ps qs v = record {
  exact = λ a. ground (
    arith,
    v.exact a,
    points-append a ps qs,
    points-append a ps (record { addr = h.next; info = info } ∷ qs),
  );
  distinct =
      Distinct-insert ps _ qs (sym (v.exact h.next) ∙ v.fresh h.next (omega arith)) v.distinct;
  fresh = λ a le. ground (arith, v.fresh a);
}

-- Freeing the first pointer does not fault, and the others stay live.
pub free_packet_info-Holds :
    (p : Pckt) (h : Heap) (ps : List Pckt)
    → Holds h (p ∷ ps)
    → Returns (free_packet_info p h) (λ h'. Holds h' ps × (h'.next ≡ h.next))
unfolding free_packet_info
free_packet_info-Holds p h ps v =
    rw (alive, free_packet_info)
      (
        record {
          exact = λ a. ground (arith, v.exact a, gone a);
          distinct = v.distinct.1;
          fresh = λ a le. ground (arith, v.fresh a);
        },
        refl,
      )
  where
    alive : h.live p.addr ≡ true
    alive = ground (arith, v.exact p.addr)

    gone : (a : ℕ) → a ≡ p.addr → points a ps ≡ false
    gone a e = subst (λ b. points b ps ≡ false) (sym e) v.distinct.0

-- The order of the pointers does not matter: the first may stand at any place.
pub Holds-move :
    (p : Pckt) (ps qs : List Pckt) (h : Heap) → Holds h (p ∷ (ps ++ qs)) → Holds h (ps ++ p ∷ qs)
Holds-move p ps qs h v = record {
  exact = λ a. ground (arith, v.exact a, points-append a ps qs, points-append a ps (p ∷ qs));
  distinct = Distinct-insert ps p qs v.distinct.0 v.distinct.1;
  fresh = v.fresh;
}

pub Holds-append_comm : (ps qs : List Pckt) (h : Heap) → Holds h (ps ++ qs) → Holds h (qs ++ ps)
Holds-append_comm [] qs h v = rw append-nil v
Holds-append_comm (p ∷ ps) qs h v = subst (Holds h) (append_assoc qs (p ∷ []) ps) (
    Holds-append_comm ps (qs ++ p ∷ []) h (
      subst (Holds h) (append_assoc ps qs (p ∷ []))
        (Holds-move p (ps ++ qs) [] h (rw append-nil v))))
