-- ===== src/Scan/LineFormat.antt =====
-- What parseListeningSockets reads of a line as the kernel prints it.
use hut_karish.Prelude.{
  ℕ, ◌/◌, ◌%◌, ◌^◌, ◌<◌, ◌≡◌, refl, ap, ◌∙◌, Bool, true, false, ◌&&◌, List, [], ◌∷◌, ◌++◌, map,
  subst, append_assoc, Option, some, arith, codes, text_eq, all, length, replicate,
}
use hut_karish.Scan.Chars.{is_digit, is_space, is_upper_hex, is_word}
use hut_karish.Scan.Regex.{
  Item, star, one, grouped, Captured, keep, match_items, regex_search, char, state_regex,
  remote_regex, address_regex, sock_regex,
}
use hut_karish.Scan.Numbers.{upper_hex, print_port}

-- A star over characters of its class, in front of one that is not: whatever the rest matches, the
-- star takes them all if the rest then matches.
match-star :
    (p : ℕ → Bool) (items : List Item) (cs : List ℕ) (d : ℕ) (t : List ℕ) (r : Captured)
    → all p cs ≡ true
    → p d ≡ false
    → match_items items (d ∷ t) ≡ some r
    → match_items (star p ∷ items) (cs ++ d ∷ t) ≡ some r
unfolding match_items
match-star p items [] d t r hc hd h = rw (hd, h)
match-star p items (c ∷ cs) d t r hc hd h = ground (arith, match-star p items cs d t r)

-- A fixed number of characters.
match-one :
    (p : ℕ → Bool) (items : List Item) (cs t : List ℕ)
    → all p cs ≡ true
    → match_items (replicate (length cs) (one p) ++ items) (cs ++ t) ≡ match_items items t
unfolding match_items
match-one p items [] t h = refl
match-one p items (c ∷ cs) t h = ground (arith, match-one p items cs t)

abbrev keep_all : ℕ → List ℕ → Option Captured → Option Captured
keep_all n [] o = o
keep_all n (c ∷ cs) o = keep (n, c) (keep_all n cs o)

match-grouped :
    (n : ℕ) (p : ℕ → Bool) (items : List Item) (cs t : List ℕ)
    → all p cs ≡ true
    → match_items (replicate (length cs) (grouped n p) ++ items) (cs ++ t)
      ≡ keep_all n cs (match_items items t)
unfolding match_items
match-grouped n p items [] t h = refl
match-grouped n p items (c ∷ cs) t h = ground (arith, match-grouped n p items cs t)

pub regex_search_front :
    (items : List Item) (t : List ℕ) (r : Captured)
    → match_items items t ≡ some r
    → regex_search items t ≡ some r
unfolding regex_search
regex_search_front items [] r h = h
regex_search_front items (c ∷ t) r h = rw h

-- A line of /proc/net/tcp or /proc/net/udp, up to the inode and what follows a space behind it.
pub record ProcLine : Type 0 where
  pub indent : List ℕ
  pub slot : ℕ
  pub slots : List ℕ
  pub address : List ℕ
  pub port : ℕ
  pub remote : List ℕ
  pub remote_port : List ℕ
  pub state_high : ℕ
  pub state_low : ℕ
  pub fields : List (List ℕ × List ℕ)
  pub gap : List ℕ
  pub inode : List ℕ
  pub rest : List ℕ

-- Words with a space and perhaps more spaces in front of each.
abbrev pub padded : List (List ℕ × List ℕ) → List ℕ → List ℕ
padded [] t = t
padded ((gap, w) ∷ ws) t = 32 ∷ gap ++ (w ++ padded ws t)

abbrev pub first_words : ProcLine → List ℕ → List ℕ
first_words l t =
    (l.slot ∷ l.slots ++ b':' ∷ [])
    ++ padded
        (([], l.address ++ b':' ∷ print_port l.port)
          ∷ ([], l.remote ++ b':' ∷ l.remote_port)
          ∷ ([], l.state_high ∷ l.state_low ∷ [])
          ∷ [])
        t

abbrev pub last_words : ProcLine → List ℕ
last_words l = padded l.fields (padded ((l.gap, l.inode) ∷ []) (32 ∷ l.rest))

abbrev pub print_line : ProcLine → List ℕ
print_line l = l.indent ++ first_words l (last_words l)

-- The fields are of the form that the kernel prints.
pub record IsProcLine (l : ProcLine) : Type 0 where
  pub spaces : all is_space l.indent ≡ true
  pub numbered : all is_digit (l.slot ∷ l.slots) ≡ true
  pub address_hex : all is_upper_hex l.address ≡ true
  pub address_long : length l.address ≡ 8
  pub port_fits : l.port < 2 ^ 16
  pub remote_hex : all is_upper_hex l.remote ≡ true
  pub remote_long : length l.remote ≡ 8
  pub remote_port_word : all is_word l.remote_port ≡ true
  pub remote_port_long : length l.remote_port ≡ 4
  pub state_word : all is_word (l.state_high ∷ l.state_low ∷ []) ≡ true
  pub five_fields : length l.fields ≡ 5
  pub inode_number : all is_digit l.inode ≡ true
  pub inode_set : text_eq l.inode (codes "0") ≡ false

match-times :
    (n : ℕ) (p : ℕ → Bool) (items : List Item) (cs t : List ℕ)
    → length cs ≡ n
    → all p cs ≡ true
    → match_items (replicate n (one p) ++ items) (cs ++ t) ≡ match_items items t
match-times n p items cs t e h =
    subst (λ m. match_items (replicate m (one p) ++ items) (cs ++ t) ≡ match_items items t) e
      (match-one p items cs t h)

digit_is_word : (d : ℕ) → d < 16 → is_word (upper_hex d) ≡ true
digit_is_word d h = ground arith

pub port_is_word : (n : ℕ) → all is_word (print_port n) ≡ true
port_is_word n = rw (
  digit_is_word (n / 4096 % 16) (omega arith),
  digit_is_word (n / 256 % 16) (omega arith),
  digit_is_word (n / 16 % 16) (omega arith),
  digit_is_word (n % 16) (omega arith),
)

-- The groups of a match.
abbrev pub groups : ProcLine → Captured
groups l = map (λ c. (1, c)) (print_port l.port) ++ (2, l.state_high) ∷ (2, l.state_low) ∷ []

module _ (l : ProcLine) (v : IsProcLine l) (t : List ℕ) where
  match_state :
      match_items state_regex (l.state_high ∷ l.state_low ∷ t)
      ≡ some ((2, l.state_high) ∷ (2, l.state_low) ∷ [])
  unfolding match_items
  match_state = match-grouped 2 is_word [] (l.state_high ∷ l.state_low ∷ []) t v.state_word

  match_remote :
      match_items remote_regex
        (l.remote ++ b':' ∷ (l.remote_port ++ 32 ∷ l.state_high ∷ l.state_low ∷ t))
      ≡ some ((2, l.state_high) ∷ (2, l.state_low) ∷ [])
  unfolding match_items
  match_remote =
      match-times 8 is_upper_hex
        (one (char b':') ∷ (replicate 4 (one is_word) ++ (one is_space ∷ state_regex))) l.remote _
        v.remote_long v.remote_hex
      ∙ match-times 4 is_word (one is_space ∷ state_regex) l.remote_port _ v.remote_port_long
          v.remote_port_word
      ∙ match_state

  match_address :
      match_items address_regex (
        l.address
        ++ b':'
          ∷ (print_port l.port
              ++ 32 ∷ (l.remote ++ b':' ∷ (l.remote_port ++ 32 ∷ l.state_high ∷ l.state_low ∷ t))))
      ≡ some (groups l)
  unfolding match_items
  match_address =
      match-times 8 is_upper_hex
        (one (char b':') ∷ (replicate 4 (grouped 1 is_word) ++ (one is_space ∷ remote_regex)))
        l.address _ v.address_long v.address_hex
      ∙ match-grouped 1 is_word (one is_space ∷ remote_regex) (print_port l.port)
          (32 ∷ (l.remote ++ b':' ∷ (l.remote_port ++ 32 ∷ l.state_high ∷ l.state_low ∷ t)))
          (port_is_word l.port)
      ∙ ap (keep_all 1 (print_port l.port)) match_remote

  match_numbered :
      match_items (one is_digit ∷ star is_digit ∷ one (char b':') ∷ one is_space ∷ address_regex) (
        l.slot
        ∷ (l.slots
            ++ b':'
              ∷ 32
              ∷ (l.address
                  ++ b':'
                    ∷ (print_port l.port
                        ++ 32
                          ∷ (l.remote
                              ++ b':' ∷ (l.remote_port ++ 32 ∷ l.state_high ∷ l.state_low ∷ t))))))
      ≡ some (groups l)
  unfolding match_items
  match_numbered =
      let slots =
        match-star is_digit (one (char b':') ∷ one is_space ∷ address_regex) l.slots b':' _
          (groups l) (both v.numbered).1 refl match_address in
      rw (both v.numbered).0 slots
    where
      both :
          (is_digit l.slot && all is_digit l.slots) ≡ true
          → (is_digit l.slot ≡ true) × (all is_digit l.slots ≡ true)
      both h = ground arith

  pub match_line : match_items sock_regex (l.indent ++ first_words l t) ≡ some (groups l)
  match_line = simp append_assoc (
      match-star is_space
        (one is_digit ∷ star is_digit ∷ one (char b':') ∷ one is_space ∷ address_regex) l.indent
        l.slot _ (groups l) v.spaces no_space match_numbered)
    where
      no_space : is_space l.slot ≡ false
      no_space = let n = v.numbered in ground arith
