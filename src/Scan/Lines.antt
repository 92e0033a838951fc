-- ===== src/Scan/Lines.antt =====
-- ScanFiles.cpp: parseListeningSockets. An exception that nobody catches is `none`.
use hut_karish.Prelude.{
  ℕ, zero, suc, ◌%◌, ◌^◌, ◌≡◌, ◌≢◌, refl, sym, ap, ◌&&◌, not, List, [], ◌∷◌, ◌++◌, Option, none,
  some, ◌>>=◌, arith, ◌==◌, if◌then◌else◌, codes, text_eq, all,
}
use hut_karish.Scan.Chars.{is_digit, is_space}
use hut_karish.Scan.Regex.{Captured, sock_regex, regex_search, submatch}
use hut_karish.Scan.Numbers.{stoul_16}

-- An element of sockInodePortVec.
pub record Socket : Type 0 where
  pub inode : List ℕ
  pub port : ℕ

abbrev push_word : List ℕ → List (List ℕ) → List (List ℕ)
push_word [] ws = ws
push_word (c ∷ cs) ws = (c ∷ cs) ∷ ws

-- The word that the text begins with, and the words after it.
unfoldable pub split_words : List ℕ → List ℕ × List (List ℕ)
split_words [] = ([], [])
split_words (c ∷ cs) =
    let (word, words) = split_words cs in
    if is_space c then ([], push_word word words) else (c ∷ word, words)

-- What `iss >> token` gives, until it fails.
unfoldable pub tokens : List ℕ → List (List ℕ)
unfolding split_words
tokens line = let (word, words) = split_words line in push_word word words

unfoldable pub token_at : ℕ → List (List ℕ) → Option (List ℕ)
token_at i [] = none
token_at zero (t ∷ ts) = some t
token_at (suc i) (t ∷ ts) = token_at i ts

-- The tenth field, if it is a number other than 0.
unfoldable pub inode_field : ℕ → Option (List ℕ) → List Socket
inode_field port none = []
inode_field port (some token) =
    if not (text_eq token (codes "0")) && all is_digit token
    then record { inode = token; port = port } ∷ []
    else []

unfoldable pub sockets_of : ℕ → ℕ → List ℕ → List Socket
unfolding tokens token_at inode_field
sockets_of filter_port port line =
    if not (filter_port == 0) && not (port == filter_port)
    then []
    else inode_field port (token_at 9 (tokens line))

unfoldable pub parse_match : ℕ → List ℕ → Option Captured → Option (List Socket)
unfolding sockets_of
parse_match filter_port line none = some []
parse_match filter_port line (some m) =
    stoul_16 (submatch 1 m) >>= λ port. some (sockets_of filter_port (port % 2 ^ 16) line)

-- The body of the loop over the lines.
unfoldable pub parse_line : ℕ → List ℕ → Option (List Socket)
unfolding parse_match
parse_line filter_port line = parse_match filter_port line (regex_search sock_regex line)

-- The lines are those of the file, none if it cannot be opened; `filter_port` 0 keeps every port.
unfoldable pub parse_listening_sockets : List (List ℕ) → ℕ → Option (List Socket)
unfolding parse_line
parse_listening_sockets [] filter_port = some []
parse_listening_sockets (line ∷ lines) filter_port =
    let rest = parse_listening_sockets lines filter_port in
    parse_line filter_port line >>= λ here. rest >>= λ others. some (here ++ others)

-- The sockets of one port.
abbrev pub of_port : ℕ → List Socket → List Socket
of_port port [] = []
of_port port (s ∷ ss) = if s.port == port then s ∷ of_port port ss else of_port port ss

abbrev pub filtered : ℕ → Option (List Socket) → Option (List Socket)
filtered port o = o >>= λ ss. some (of_port port ss)

of_port-append :
    (port : ℕ) (ss ts : List Socket) → of_port port (ss ++ ts) ≡ of_port port ss ++ of_port port ts
of_port-append port [] ts = refl
of_port-append port (s ∷ ss) ts = ground (arith, of_port-append port ss ts)

of_port-inode_field :
    (port p : ℕ) (o : Option (List ℕ))
    → of_port port (inode_field p o) ≡ (if p == port then inode_field p o else [])
unfolding inode_field
of_port-inode_field port p none = ground arith
of_port-inode_field port p (some token) = ground arith

sockets_of_filter :
    (port p : ℕ) (line : List ℕ)
    → port ≢ 0
    → sockets_of port p line ≡ of_port port (sockets_of 0 p line)
unfolding sockets_of
sockets_of_filter port p line h =
    rw (of_port-inode_field port p (token_at 9 (tokens line))) (ground arith)

parse_match_filter :
    (port : ℕ) (line : List ℕ) (o : Option Captured)
    → port ≢ 0
    → parse_match port line o ≡ filtered port (parse_match 0 line o)
unfolding parse_match
parse_match_filter port line none h = refl
parse_match_filter port line (some m) h = go (stoul_16 (submatch 1 m))
  where
    go :
        (o : Option ℕ)
        → (o >>= λ n. some (sockets_of port (n % 2 ^ 16) line))
          ≡ filtered port (o >>= λ n. some (sockets_of 0 (n % 2 ^ 16) line))
    go none = refl
    go (some n) = ap some (sockets_of_filter port (n % 2 ^ 16) line h)

filtered-append :
    (port : ℕ) (o p : Option (List Socket))
    → (filtered port o >>= λ here. filtered port p >>= λ others. some (here ++ others))
      ≡ filtered port (o >>= λ here. p >>= λ others. some (here ++ others))
filtered-append port none p = refl
filtered-append port (some ss) none = refl
filtered-append port (some ss) (some ts) = ap some (sym (of_port-append port ss ts))

-- A scan for one port other than 0 finds what a full scan finds of that port, in the same order,
-- and throws exactly when the full scan does.
pub parse_listening_sockets-filtered :
    (lines : List (List ℕ)) (port : ℕ)
    → port ≢ 0
    → parse_listening_sockets lines port ≡ filtered port (parse_listening_sockets lines 0)
unfolding parse_listening_sockets parse_line
parse_listening_sockets-filtered [] port h = refl
parse_listening_sockets-filtered (line ∷ lines) port h =
    rw
      (
        parse_match_filter port line (regex_search sock_regex line) h,
        parse_listening_sockets-filtered lines port h,
      )
      (filtered-append port (parse_match 0 line (regex_search sock_regex line))
        (parse_listening_sockets lines 0))
