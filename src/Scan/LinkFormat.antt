-- ===== src/Scan/LinkFormat.antt =====
-- Which links findPidBySockInode accepts.
use hut_karish.Prelude.{
  ℕ, ◌+◌, ◌-◌, ◌%◌, ◌^◌, ◌<◌, ◌≡◌, ◌↔◌, refl, ap, Bool, true, false, not, ◌&&◌, List, [], ◌∷◌, ◌++◌,
  arith, text_eq, text_eq_sound, text_eq_refl, length, take, drop, all, length-append,
}
use hut_karish.Scan.Chars.{is_digit}
use hut_karish.Scan.Links.{starts_with, contains, socket_prefix, inode_of_link, link_names}

-- A link to a socket, with any character in the place of the closing bracket.
abbrev pub IsSocketLink : List ℕ → List ℕ → Type 0
IsSocketLink inode link = (c : ℕ) × (link ≡ socket_prefix ++ inode ++ c ∷ [])

drop-zero : (xs : List ℕ) → drop 0 xs ≡ xs
drop-zero [] = refl
drop-zero (x ∷ xs) = refl

take_front : (xs : List ℕ) (c : ℕ) → take (length xs) (xs ++ c ∷ []) ≡ xs
take_front [] c = refl
take_front (x ∷ xs) c = ap (◌∷◌ x) (take_front xs c)

inode_of_socket_link :
    (inode : List ℕ) (c : ℕ)
    → length inode + 9 < 2 ^ 64
    → inode_of_link (socket_prefix ++ inode ++ c ∷ []) ≡ inode
unfolding inode_of_link
inode_of_socket_link inode c h = rw (drop-zero (inode ++ c ∷ []), counted) (take_front inode c)
  where
    counted : (length (socket_prefix ++ inode ++ c ∷ []) + (2 ^ 64 - 9)) % 2 ^ 64 ≡ length inode
    counted = omega (arith, length-append inode (c ∷ []))

-- The link of a socket with this inode is accepted.
link_names_complete :
    (inode : List ℕ) (c : ℕ)
    → length inode + 9 < 2 ^ 64
    → link_names inode (socket_prefix ++ inode ++ c ∷ []) ≡ true
unfolding link_names
link_names_complete inode c h = rw (inode_of_socket_link inode c h) (text_eq_refl inode)

abbrev none_digit : List ℕ → Bool
none_digit = all λ c. not (is_digit c)

abbrev IsShorter : List ℕ → List ℕ → Type 0
IsShorter xs ys = length xs < length ys

starts_with_short :
    (ps bs : List ℕ) (d : ℕ) (t : List ℕ)
    → none_digit ps ≡ true
    → is_digit d ≡ true
    → IsShorter bs ps
    → starts_with ps (bs ++ d ∷ t) ≡ false
unfolding starts_with
starts_with_short [] bs d t np nd h = absurd (omega arith)
starts_with_short (p ∷ ps) [] d t np nd h = ground arith
starts_with_short (p ∷ ps) (b ∷ bs) d t np nd h = ground (arith, starts_with_short ps bs d t)

contains_digits :
    (ps ds : List ℕ) (c : ℕ)
    → none_digit ps ≡ true
    → all is_digit ds ≡ true
    → 1 < length ps
    → contains ps (ds ++ c ∷ []) ≡ false
unfolding contains
contains_digits [] ds c np nd h = absurd (omega arith)
contains_digits (p ∷ []) ds c np nd h = absurd (omega arith)
contains_digits (p ∷ q ∷ ps) [] c np nd h = ground arith
contains_digits (p ∷ q ∷ ps) (d ∷ ds) c np nd h = ground (arith, contains_digits (p ∷ q ∷ ps) ds c)

contains_short :
    (ps bs : List ℕ) (d : ℕ) (t : List ℕ)
    → none_digit ps ≡ true
    → is_digit d ≡ true
    → IsShorter bs ps
    → contains ps (d ∷ t) ≡ false
    → contains ps (bs ++ d ∷ t) ≡ false
unfolding contains
contains_short ps [] d t np nd h later = later
contains_short ps (b ∷ bs) d t np nd h later =
    ground (arith, contains_short ps bs d t, starts_with_short ps (b ∷ bs) d t)

starts_with_whole :
    (ps bs t : List ℕ) → length bs ≡ length ps → starts_with ps (bs ++ t) ≡ true → bs ≡ ps
unfolding starts_with
starts_with_whole [] [] t e h = refl
starts_with_whole [] (b ∷ bs) t e h = absurd (omega arith)
starts_with_whole (p ∷ ps) [] t e h = absurd (omega arith)
starts_with_whole (p ∷ ps) (b ∷ bs) t e h = ground (arith, starts_with_whole ps bs t)

contains_front :
    (ps : List ℕ) (b : ℕ) (bs : List ℕ) (d : ℕ) (t : List ℕ)
    → none_digit ps ≡ true
    → is_digit d ≡ true
    → length bs + 1 ≡ length ps
    → contains ps (d ∷ t) ≡ false
    → contains ps (b ∷ bs ++ d ∷ t) ≡ true
    → b ∷ bs ≡ ps
unfolding contains
contains_front ps b bs d t np nd e later h =
    starts_with_whole ps (b ∷ bs) (d ∷ t) (omega arith)
      (let rest = contains_short ps bs d t np nd (omega arith) later in ground (arith, rest))

-- A list whose length says that it has a first part of eight.
split_last :
    (r : ℕ) (rs inode : List ℕ)
    → take (length rs) (r ∷ rs) ≡ inode
    → (c : ℕ) × (r ∷ rs ≡ inode ++ c ∷ [])
split_last r [] inode e = (r, rw (← e))
split_last r (q ∷ rs) inode e =
    let (c, same) = split_last q rs (take (length rs) (q ∷ rs)) refl in
    (c, rw (← e) (ap (◌∷◌ r) same))

nine_or_more :
    (inode link : List ℕ) (d : ℕ) (ds : List ℕ)
    → inode ≡ d ∷ ds
    → all is_digit inode ≡ true
    → length link < 2 ^ 64
    → contains socket_prefix link ≡ true
    → inode_of_link link ≡ inode
    → IsSocketLink inode link
unfolding inode_of_link
nine_or_more inode (a ∷ b ∷ c ∷ d ∷ e ∷ f ∷ g ∷ h ∷ r ∷ rs) i is start digits small has same =
    let (last, ends) = split_last r rs inode taken in
    let digits' : all is_digit (i ∷ is) ≡ true = rw start at digits in
    let ends' : r ∷ rs ≡ i ∷ is ++ last ∷ [] = rw start at ends in
    let front =
      contains_front socket_prefix a (b ∷ c ∷ d ∷ e ∷ f ∷ g ∷ h ∷ []) i (is ++ last ∷ []) refl
        (ground arith) refl (contains_digits socket_prefix (i ∷ is) last refl digits' (omega arith))
        (rw ends' at has) in
    (last, cc (front, ends))
  where
    counted : (length (a ∷ b ∷ c ∷ d ∷ e ∷ f ∷ g ∷ h ∷ r ∷ rs) + (2 ^ 64 - 9)) % 2 ^ 64 ≡ length rs
    counted = omega arith

    taken : take (length rs) (r ∷ rs) ≡ inode
    taken = rw counted at same
nine_or_more inode _ i is start digits small has same = cc (start, same)

-- For an inode of at least one digit, and lengths below 2^64, findPidBySockInode accepts exactly
-- the links that are `socket:[`, the inode and one more character: that it searches for the prefix
-- anywhere in the link, and then cuts at fixed places, lets no other link pass.
pub link_names_iff :
    (inode link : List ℕ) (d : ℕ) (ds : List ℕ)
    → inode ≡ d ∷ ds
    → all is_digit inode ≡ true
    → length inode + 9 < 2 ^ 64
    → length link < 2 ^ 64
    → (link_names inode link ≡ true) ↔ IsSocketLink inode link
unfolding link_names
link_names_iff inode link d ds start digits short small = (
  λ h.
      nine_or_more inode link d ds start digits small (both h).0
        (text_eq_sound (inode_of_link link) inode (both h).1),
  λ (c, e). rw e (link_names_complete inode c short),
)
  where
    both :
        (contains socket_prefix link && text_eq (inode_of_link link) inode) ≡ true
        → (contains socket_prefix link ≡ true) × (text_eq (inode_of_link link) inode ≡ true)
    both h = ground arith
