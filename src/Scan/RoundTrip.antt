-- ===== src/Scan/RoundTrip.antt =====
-- A line as the kernel prints it gives the socket that it describes.
use hut_karish.Prelude.{
  ℕ, zero, suc, ◌≡◌, ◌≢◌, refl, ap, ◌∙◌, Bool, true, ◌||◌, List, [], ◌∷◌, ◌++◌, map-append,
  append_assoc, some, arith, ◌==◌, if◌then◌else◌, All-append, all, length,
}
use native.Mathlib.Nat.{mod-eq_of_lt}
use hut_karish.Scan.Chars.{is_digit, is_space, is_upper_hex, is_word}
use hut_karish.Scan.Regex.{submatch, sock_regex}
use hut_karish.Scan.Numbers.{stoul_16, print_port, stoul_16-print_port}
use hut_karish.Scan.Lines.{
  Socket, tokens, token_at, inode_field, sockets_of, parse_match, parse_line,
}
use hut_karish.Scan.LineFormat.{
  ProcLine, IsProcLine, padded, print_line, last_words, groups, port_is_word, match_line,
  regex_search_front,
}
use hut_karish.Scan.Words.{IsWord, IsPadded, no_space, tokens-padded, words_of}

all_mono :
    (p q : ℕ → Bool) (cs : List ℕ)
    → ((c : ℕ) → p c ≡ true → q c ≡ true)
    → all p cs ≡ true
    → all q cs ≡ true
all_mono p q [] f h = refl
all_mono p q (c ∷ cs) f h = ground (arith, f c, all_mono p q cs f)

all-append :
    (p : ℕ → Bool) (cs ds : List ℕ) → all p cs ≡ true → all p ds ≡ true → all p (cs ++ ds) ≡ true
all-append p [] ds h k = k
all-append p (c ∷ cs) ds h k = ground (arith, all-append p cs ds)

digit_no_space : (c : ℕ) → is_digit c ≡ true → no_space c ≡ true
digit_no_space c h = ground arith

hex_no_space : (c : ℕ) → is_upper_hex c ≡ true → no_space c ≡ true
hex_no_space c h = ground arith

word_no_space : (c : ℕ) → is_word c ≡ true → no_space c ≡ true
word_no_space c h = ground arith

padded-append :
    (fs gs : List (List ℕ × List ℕ)) (t : List ℕ) → padded (fs ++ gs) t ≡ padded fs (padded gs t)
padded-append [] gs t = refl
padded-append ((gap, w) ∷ fs) gs t = ap (λ u. 32 ∷ gap ++ (w ++ u)) (padded-append fs gs t)

token_at-append :
    (n : ℕ) (ws : List (List ℕ)) (w : List ℕ) (vs : List (List ℕ))
    → length ws ≡ n
    → token_at n (ws ++ w ∷ vs) ≡ some w
unfolding token_at
token_at-append zero [] w vs e = refl
token_at-append zero (v ∷ ws) w vs e = absurd (omega arith)
token_at-append (suc n) [] w vs e = absurd (omega arith)
token_at-append (suc n) (v ∷ ws) w vs e = token_at-append n ws w vs (omega arith)

-- A word that ends in a part of at least one character.
joined :
    (u : List ℕ) (c : ℕ) (w : List ℕ)
    → all no_space u ≡ true
    → all no_space (c ∷ w) ≡ true
    → IsWord (u ++ c ∷ w)
joined [] c w hu hw = (λ e. cc, hw)
joined (d ∷ u) c w hu hw = (λ e. cc, all-append no_space (d ∷ u) (c ∷ w) hu hw)

-- The gaps and fields of a line, beside what the match looks at.
pub record IsSpaced (l : ProcLine) : Type 0 where
  pub fields_padded : IsPadded l.fields
  pub gap_spaces : all is_space l.gap ≡ true
  pub inode_some : l.inode ≢ []

abbrev all_fields : ProcLine → List (List ℕ × List ℕ)
all_fields l =
    ([], l.address ++ b':' ∷ print_port l.port)
    ∷ ([], l.remote ++ b':' ∷ l.remote_port)
    ∷ ([], l.state_high ∷ l.state_low ∷ [])
    ∷ (l.fields ++ (l.gap, l.inode) ∷ [])

length-words_of : (fs : List (List ℕ × List ℕ)) → length (words_of fs) ≡ length fs
length-words_of [] = refl
length-words_of (f ∷ fs) = ap suc (length-words_of fs)

module _ (l : ProcLine) (v : IsProcLine l) (g : IsSpaced l) where
  all_fields-IsPadded : IsPadded (all_fields l)
  all_fields-IsPadded = (
    (
      refl,
      joined l.address b':' (print_port l.port)
          (all_mono is_upper_hex no_space l.address hex_no_space v.address_hex)
          (all_mono is_word no_space (print_port l.port) word_no_space (port_is_word l.port)),
    ),
    (
      (
        refl,
        joined l.remote b':' l.remote_port
            (all_mono is_upper_hex no_space l.remote hex_no_space v.remote_hex)
            (all_mono is_word no_space l.remote_port word_no_space v.remote_port_word),
      ),
      (
        (
          refl,
          (
            (λ e. cc),
            all_mono is_word no_space (l.state_high ∷ l.state_low ∷ []) word_no_space v.state_word,
          ),
        ),
        All-append (λ f. (all is_space f.0 ≡ true) × IsWord f.1) l.fields ((l.gap, l.inode) ∷ [])
            g.fields_padded
            (
              (
                g.gap_spaces,
                (g.inode_some, all_mono is_digit no_space l.inode digit_no_space v.inode_number),
              ),
              tt,
            ),
      ),
    ),
  )

  words :
      tokens (print_line l)
      ≡ (l.slot ∷ l.slots ++ b':' ∷ []) ∷ (words_of (all_fields l) ++ tokens l.rest)
  words = rw (← padded-append l.fields ((l.gap, l.inode) ∷ []) (32 ∷ l.rest)) (
      tokens-padded l.indent (l.slot ∷ l.slots ++ b':' ∷ []) l.rest (all_fields l) v.spaces
        (joined (l.slot ∷ l.slots) b':' []
          (all_mono is_digit no_space (l.slot ∷ l.slots) digit_no_space v.numbered) refl)
        all_fields-IsPadded)

  tenth : token_at 9 (tokens (print_line l)) ≡ some l.inode
  unfolding token_at
  tenth = rw words (
      simp (map-append, append_assoc)
        (token_at-append 5 (words_of l.fields) l.inode (tokens l.rest)
          (length-words_of l.fields ∙ v.five_fields)))

  abbrev socket : Socket
  socket = record { inode = l.inode; port = l.port }

  read_port : stoul_16 (submatch 1 (groups l)) ≡ some l.port
  unfolding submatch
  read_port = stoul_16-print_port l.port v.port_fits

  sockets :
      (filter_port : ℕ)
      → sockets_of filter_port l.port (print_line l)
        ≡ (if filter_port == 0 || filter_port == l.port then socket ∷ [] else [])
  unfolding sockets_of inode_field
  sockets filter_port = rw (tenth, v.inode_set, v.inode_number) (ground arith)

  -- A line of the form that the kernel prints, for a socket with an inode other than 0, is read as
  -- that socket if its port is wanted or the filter is 0, and as no socket otherwise. Neither the
  -- state of the socket nor any other field counts.
  pub parse_line-print_line :
      (filter_port : ℕ)
      → parse_line filter_port (print_line l)
        ≡ some (if filter_port == 0 || filter_port == l.port then socket ∷ [] else [])
  unfolding parse_line
  parse_line-print_line filter_port =
      rw
        (
          regex_search_front sock_regex (print_line l) (groups l) (match_line l v (last_words l)),
          parse_match,
          read_port,
          mod-eq_of_lt v.port_fits,
        )
        (ap some (sockets filter_port))
