-- ===== src/Scan/Regex.antt =====
-- std::regex_search for a sequence of items, each a class of characters, with backtracking.
use hut_karish.Prelude.{
  ℕ, Bool, List, [], ◌∷◌, ◌++◌, Option, none, some, ◌==◌, if◌then◌else◌, replicate,
}
use hut_karish.Scan.Chars.{is_digit, is_upper_hex, is_space, is_word}

-- `c*`, `c`, and `c` within a numbered group.
pub data Item : Type 0 where
  star : (ℕ → Bool) → Item
  one : (ℕ → Bool) → Item
  grouped : ℕ → (ℕ → Bool) → Item

-- The characters that groups have matched.
abbrev pub Captured : Type 0
Captured = List (ℕ × ℕ)

abbrev pub or_else : Option Captured → Option Captured → Option Captured
or_else none m = m
or_else (some c) m = some c

abbrev pub keep : ℕ × ℕ → Option Captured → Option Captured
keep g none = none
keep g (some c) = some (g ∷ c)

-- A match at the front of the text. A star takes as much as it can and gives back.
unfoldable pub match_items : List Item → List ℕ → Option Captured
match_items [] text = some []
match_items (star p ∷ items) [] = match_items items []
match_items (star p ∷ items) (c ∷ text) =
    let longer = match_items (star p ∷ items) text in
    let done = match_items items (c ∷ text) in if p c then or_else longer done else done
match_items (one p ∷ items) [] = none
match_items (one p ∷ items) (c ∷ text) =
    let rest = match_items items text in if p c then rest else none
match_items (grouped n p ∷ items) [] = none
match_items (grouped n p ∷ items) (c ∷ text) =
    let rest = keep (n, c) (match_items items text) in if p c then rest else none

-- The first match anywhere in the text.
unfoldable pub regex_search : List Item → List ℕ → Option Captured
unfolding match_items
regex_search items [] = match_items items []
regex_search items (c ∷ text) =
    let later = regex_search items text in or_else (match_items items (c ∷ text)) later

-- match[n]
unfoldable pub submatch : ℕ → Captured → List ℕ
submatch n [] = []
submatch n ((m, c) ∷ rest) = let cs = submatch n rest in if m == n then c ∷ cs else cs

abbrev pub char : ℕ → ℕ → Bool
char a c = c == a

-- (\w{2})
abbrev pub state_regex : List Item
state_regex = replicate 2 (grouped 2 is_word)

-- [0-9A-F]{8}:\w{4}\s(\w{2})
abbrev pub remote_regex : List Item
remote_regex =
    replicate 8 (one is_upper_hex)
    ++ (one (char b':') ∷ (replicate 4 (one is_word) ++ (one is_space ∷ state_regex)))

-- [0-9A-F]{8}:(\w{4})\s[0-9A-F]{8}:\w{4}\s(\w{2})
abbrev pub address_regex : List Item
address_regex =
    replicate 8 (one is_upper_hex)
    ++ (one (char b':') ∷ (replicate 4 (grouped 1 is_word) ++ (one is_space ∷ remote_regex)))

-- \s*\d+:\s[0-9A-F]{8}:(\w{4})\s[0-9A-F]{8}:\w{4}\s(\w{2})
abbrev pub sock_regex : List Item
sock_regex =
    star is_space ∷ one is_digit ∷ star is_digit ∷ one (char b':') ∷ one is_space ∷ address_regex
